-- ===== src/Release/Table/Recent.antt =====
-- The entries 1.3.1, 1.3.2, 1.3.3 of `releases_default` in .github/actions/setup-oras-2.0.1/dist/index.js.
use coherence_operator.Prelude.{[], ◌∷◌, codes}
use coherence_operator.Release.Defs.{Platforms, download}

unfoldable pub v1_3_1 : Platforms
v1_3_1 =
    (
      codes "darwin",
      (
        codes "amd64",
        download "22b7d8947d32280283c2e1a2fabc59d3b3c3b3056ec070dabdfe016fda532e52"
            "https://github.com/oras-project/oras/releases/download/v1.3.1/oras_1.3.1_darwin_amd64.tar.gz",
      )
          ∷ (
            codes "arm64",
            download "d545a238f4c8be6dfae6c3d0ff5b09720c5588641d4a5180fb87c38a64500cc4"
                "https://github.com/oras-project/oras/releases/download/v1.3.1/oras_1.3.1_darwin_arm64.tar.gz",
          )
          ∷ [],
    )
    ∷ (
      codes "freebsd",
      (
        codes "amd64",
        download "2d383403fbe0e7160652671455bd5d23a97e6cf0c355c618b233a1ac7aa05c2d"
            "https://github.com/oras-project/oras/releases/download/v1.3.1/oras_1.3.1_freebsd_amd64.tar.gz",
      )
          ∷ [],
    )
    ∷ (
      codes "linux",
      (
        codes "amd64",
        download "d52c4af76ce6a3ceb8579e51fb751a43ac051cca67f965f973a0b0e897a2bb86"
            "https://github.com/oras-project/oras/releases/download/v1.3.1/oras_1.3.1_linux_amd64.tar.gz",
      )
          ∷ (
            codes "arm64",
            download "79946ad57d732836f9242f903f476b6fa484c451d659f121bce54d931ab2a044"
                "https://github.com/oras-project/oras/releases/download/v1.3.1/oras_1.3.1_linux_arm64.tar.gz",
          )
          ∷ (
            codes "armv7",
            download "2974eac27ce587c5ffdc3f2ddc2e1af4ea57c3e7d0ec12b64e3879edf9d7dfb7"
                "https://github.com/oras-project/oras/releases/download/v1.3.1/oras_1.3.1_linux_armv7.tar.gz",
          )
          ∷ (
            codes "loong64",
            download "8467e1bb87d01495283993dec1c1fe8962b3c5119afe6346dc8176da99746547"
                "https://github.com/oras-project/oras/releases/download/v1.3.1/oras_1.3.1_linux_loong64.tar.gz",
          )
          ∷ (
            codes "ppc64le",
            download "6e11f06d52475fcf6be0ee140f69957a5b069c90fcd1e7a514f7df2d88144ca8"
                "https://github.com/oras-project/oras/releases/download/v1.3.1/oras_1.3.1_linux_ppc64le.tar.gz",
          )
          ∷ (
            codes "riscv64",
            download "f49cacaca1ceea3af51965918420f772947dce57319435cb170206567f2991b6"
                "https://github.com/oras-project/oras/releases/download/v1.3.1/oras_1.3.1_linux_riscv64.tar.gz",
          )
          ∷ (
            codes "s390x",
            download "4372e53aef199dd3a8c2bd4298c4934e8802189803ff3b961c9a001598e6cbba"
                "https://github.com/oras-project/oras/releases/download/v1.3.1/oras_1.3.1_linux_s390x.tar.gz",
          )
          ∷ [],
    )
    ∷ (
      codes "windows",
      (
        codes "amd64",
        download "8cf69e46f966e592ad36261c05b8f59c02125743b7261c03f6badc3919b40cb0"
            "https://github.com/oras-project/oras/releases/download/v1.3.1/oras_1.3.1_windows_amd64.zip",
      )
          ∷ [],
    )
    ∷ []

unfoldable pub v1_3_2 : Platforms
v1_3_2 =
    (
      codes "darwin",
      (
        codes "amd64",
        download "2621f6b252b222f6fbf4e114d2fcaa0cec6b632624ffaf73143f66e4e0994f86"
            "https://github.com/oras-project/oras/releases/download/v1.3.2/oras_1.3.2_darwin_amd64.tar.gz",
      )
          ∷ (
            codes "arm64",
            download "7929f792cf272268412375ecad6f0fb3c20f164368d5b57966e67ad6d36eca53"
                "https://github.com/oras-project/oras/releases/download/v1.3.2/oras_1.3.2_darwin_arm64.tar.gz",
          )
          ∷ [],
    )
    ∷ (
      codes "freebsd",
      (
        codes "amd64",
        download "3481583cc330d51f1e576df84f1efc3c3630c1f88314fbac76e27ce4d3097dd9"
            "https://github.com/oras-project/oras/releases/download/v1.3.2/oras_1.3.2_freebsd_amd64.tar.gz",
      )
          ∷ [],
    )
    ∷ (
      codes "linux",
      (
        codes "amd64",
        download "9229ccc6d17bb282039ad4a69abb16dcb887a5bce567c075d731d9b3c7ad8eaf"
            "https://github.com/oras-project/oras/releases/download/v1.3.2/oras_1.3.2_linux_amd64.tar.gz",
      )
          ∷ (
            codes "arm64",
            download "8db4a223bd6034deff198e791ea7cb3af0840df25b7e9f370e2f1f3fd20d389b"
                "https://github.com/oras-project/oras/releases/download/v1.3.2/oras_1.3.2_linux_arm64.tar.gz",
          )
          ∷ (
            codes "armv7",
            download "96b5414b5651da65a61e4f81f340b96f17d3755d54b5c3f879b2bb20eed83f00"
                "https://github.com/oras-project/oras/releases/download/v1.3.2/oras_1.3.2_linux_armv7.tar.gz",
          )
          ∷ (
            codes "loong64",
            download "d1b2170991779b4fba8f4b2f0c17562b15307925ee703d259bbe24846f5072bf"
                "https://github.com/oras-project/oras/releases/download/v1.3.2/oras_1.3.2_linux_loong64.tar.gz",
          )
          ∷ (
            codes "ppc64le",
            download "e9904853815a265091a2a7cee76b934a099e04b5c11a7ebc53d93009b3d15cb2"
                "https://github.com/oras-project/oras/releases/download/v1.3.2/oras_1.3.2_linux_ppc64le.tar.gz",
          )
          ∷ (
            codes "riscv64",
            download "4b0c72c1d2795d14d8e038687574e56dee22a9f0e3a0dd2746baccedfa6425ff"
                "https://github.com/oras-project/oras/releases/download/v1.3.2/oras_1.3.2_linux_riscv64.tar.gz",
          )
          ∷ (
            codes "s390x",
            download "98aad2e81f9ccd1d68a148623a3eac3a301383d21fb7ab33b49835fc96157e9e"
                "https://github.com/oras-project/oras/releases/download/v1.3.2/oras_1.3.2_linux_s390x.tar.gz",
          )
          ∷ [],
    )
    ∷ (
      codes "windows",
      (
        codes "amd64",
        download "c896f26245f11e6385d52010bb0a65a4e500e1f3244680a6556ed05462fa1c0d"
            "https://github.com/oras-project/oras/releases/download/v1.3.2/oras_1.3.2_windows_amd64.zip",
      )
          ∷ [],
    )
    ∷ []

unfoldable pub v1_3_3 : Platforms
v1_3_3 =
    (
      codes "darwin",
      (
        codes "amd64",
        download "aeb684d8c24c18dce28fd1f7326636e4782b573108e244a93d4b1c4a5ec50f48"
            "https://github.com/oras-project/oras/releases/download/v1.3.3/oras_1.3.3_darwin_amd64.tar.gz",
      )
          ∷ (
            codes "arm64",
            download "f33fc12753c54172b0d0d19eaa0318d3f90fe9b094d96e8b259c881713c92e1c"
                "https://github.com/oras-project/oras/releases/download/v1.3.3/oras_1.3.3_darwin_arm64.tar.gz",
          )
          ∷ [],
    )
    ∷ (
      codes "freebsd",
      (
        codes "amd64",
        download "292a54904dc86cccef7b32a2d91e9f0e836f544fc0fc3a455e79cea3d1bb19b4"
            "https://github.com/oras-project/oras/releases/download/v1.3.3/oras_1.3.3_freebsd_amd64.tar.gz",
      )
          ∷ [],
    )
    ∷ (
      codes "linux",
      (
        codes "amd64",
        download "9ce999f8d2de03fc03968b29d743077a58783e545e5eaa53917ca177352d0e59"
            "https://github.com/oras-project/oras/releases/download/v1.3.3/oras_1.3.3_linux_amd64.tar.gz",
      )
          ∷ (
            codes "arm64",
            download "ac7156f93a21e903f7ad606c792f3560f17e0cd0e36365634701b1e7cc4e4eca"
                "https://github.com/oras-project/oras/releases/download/v1.3.3/oras_1.3.3_linux_arm64.tar.gz",
          )
          ∷ (
            codes "armv7",
            download "c9f7a31e4946872d829e786566e72b3b3275ccf3f6c263930ce420a9e9e3d4f0"
                "https://github.com/oras-project/oras/releases/download/v1.3.3/oras_1.3.3_linux_armv7.tar.gz",
          )
          ∷ (
            codes "loong64",
            download "bfbd52a0f869b786b00e602771cd0e2c38c8ca04323440d1fafbdb97fc0bac36"
                "https://github.com/oras-project/oras/releases/download/v1.3.3/oras_1.3.3_linux_loong64.tar.gz",
          )
          ∷ (
            codes "ppc64le",
            download "d32c44a20922dfb03bbf666834cd403b5ecc790429e73c97d8b798e1079689fd"
                "https://github.com/oras-project/oras/releases/download/v1.3.3/oras_1.3.3_linux_ppc64le.tar.gz",
          )
          ∷ (
            codes "riscv64",
            download "bf87d5d86e92c87e46c5dfbbd52af1e804ba6d2ec9fb44096a3a78e2c1df823e"
                "https://github.com/oras-project/oras/releases/download/v1.3.3/oras_1.3.3_linux_riscv64.tar.gz",
          )
          ∷ (
            codes "s390x",
            download "d53f94a32958cc673227d0dc22642cf5e7a4093152f908064669635d3f5a84be"
                "https://github.com/oras-project/oras/releases/download/v1.3.3/oras_1.3.3_linux_s390x.tar.gz",
          )
          ∷ [],
    )
    ∷ (
      codes "windows",
      (
        codes "amd64",
        download "30ca213a565a450de33001dae83053db53c221e6674c5233dc3406b686657969"
            "https://github.com/oras-project/oras/releases/download/v1.3.3/oras_1.3.3_windows_amd64.zip",
      )
          ∷ [],
    )
    ∷ []
