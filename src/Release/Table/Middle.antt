-- ===== src/Release/Table/Middle.antt =====
-- The entries 1.2.0, 1.2.1, 1.2.2 of `releases_default` in .github/actions/setup-oras-2.0.1/dist/index.js.
use coherence_operator.Prelude.{[], ◌∷◌, codes}
use coherence_operator.Release.Defs.{Platforms, download}

unfoldable pub v1_2_0 : Platforms
v1_2_0 =
    (
      codes "darwin",
      (
        codes "amd64",
        download "58a8494f5bce778e21d89d90c82e05bd128e7bb9d84dd190d154f8afdbf30541"
            "https://github.com/oras-project/oras/releases/download/v1.2.0/oras_1.2.0_darwin_amd64.tar.gz",
      )
          ∷ (
            codes "arm64",
            download "fea801b0e02c5342e749ef2860e1faebae03e93ae50e33ed40d227e089cf9435"
                "https://github.com/oras-project/oras/releases/download/v1.2.0/oras_1.2.0_darwin_arm64.tar.gz",
          )
          ∷ [],
    )
    ∷ (
      codes "freebsd",
      (
        codes "amd64",
        download "73d3a292dce1f0985df084ff50b38ab2deacbcb01902ceebc008d5bea2f2dee9"
            "https://github.com/oras-project/oras/releases/download/v1.2.0/oras_1.2.0_freebsd_amd64.tar.gz",
      )
          ∷ [],
    )
    ∷ (
      codes "linux",
      (
        codes "amd64",
        download "5b3f1cbb86d869eee68120b9b45b9be983f3738442f87ee5f06b00edd0bab336"
            "https://github.com/oras-project/oras/releases/download/v1.2.0/oras_1.2.0_linux_amd64.tar.gz",
      )
          ∷ (
            codes "arm64",
            download "27df680a39fc2fcedc549cb737891623bc696c9a92a03fd341e9356a35836bae"
                "https://github.com/oras-project/oras/releases/download/v1.2.0/oras_1.2.0_linux_arm64.tar.gz",
          )
          ∷ (
            codes "armv7",
            download "054685703cb0c66e51f8143e3bbd3976e217d3d595f0593db43b6dd451e43329"
                "https://github.com/oras-project/oras/releases/download/v1.2.0/oras_1.2.0_linux_armv7.tar.gz",
          )
          ∷ (
            codes "ppc64le",
            download "af5ee50434c7263b1460978af83e7690570e8999678fae9db6c5dbb38467fed5"
                "https://github.com/oras-project/oras/releases/download/v1.2.0/oras_1.2.0_linux_ppc64le.tar.gz",
          )
          ∷ (
            codes "riscv64",
            download "42c7e5f35b72492dd3ee7c68edad0c0da939b39e6ead7f682329015b283e96f8"
                "https://github.com/oras-project/oras/releases/download/v1.2.0/oras_1.2.0_linux_riscv64.tar.gz",
          )
          ∷ (
            codes "s390x",
            download "69d2e842e592f4d990b33d58ff3c298c4e4c0921dd54ad9e65e3b6dd9427a750"
                "https://github.com/oras-project/oras/releases/download/v1.2.0/oras_1.2.0_linux_s390x.tar.gz",
          )
          ∷ [],
    )
    ∷ (
      codes "windows",
      (
        codes "amd64",
        download "f110b42a20bd4728fb0428d36ee6ed10de58cd986bba8e95ecc4f0272cb017ba"
            "https://github.com/oras-project/oras/releases/download/v1.2.0/oras_1.2.0_windows_amd64.zip",
      )
          ∷ [],
    )
    ∷ []

unfoldable pub v1_2_1 : Platforms
v1_2_1 =
    (
      codes "darwin",
      (
        codes "amd64",
        download "54095db9a4cb0f37bf7ac5afbed0ff167215195ad07b6d9318b69c5a8944b19d"
            "https://github.com/oras-project/oras/releases/download/v1.2.1/oras_1.2.1_darwin_amd64.tar.gz",
      )
          ∷ (
            codes "arm64",
            download "e3489c1946cb98c21992e09f2ec37974ad3856bb88b798682975fce7960f08fe"
                "https://github.com/oras-project/oras/releases/download/v1.2.1/oras_1.2.1_darwin_arm64.tar.gz",
          )
          ∷ [],
    )
    ∷ (
      codes "freebsd",
      (
        codes "amd64",
        download "778f92a8d678b45a3fc70234573cf6b48f50744111f2c4c615fd9962b41481e7"
            "https://github.com/oras-project/oras/releases/download/v1.2.1/oras_1.2.1_freebsd_amd64.tar.gz",
      )
          ∷ [],
    )
    ∷ (
      codes "linux",
      (
        codes "amd64",
        download "4180b940409ab801ada54cdb793dd7372be2a5cb25b6522490409d5d4b0e3dde"
            "https://github.com/oras-project/oras/releases/download/v1.2.1/oras_1.2.1_linux_amd64.tar.gz",
      )
          ∷ (
            codes "arm64",
            download "65f9197e9eacda769b1f2f447e2c4004a8f3f772855c2c987d5111e8302cbbed"
                "https://github.com/oras-project/oras/releases/download/v1.2.1/oras_1.2.1_linux_arm64.tar.gz",
          )
          ∷ (
            codes "armv7",
            download "fe833e216c72f98d1426da3b0dd136328a578c92a6cd10987374bc5680c0a0a4"
                "https://github.com/oras-project/oras/releases/download/v1.2.1/oras_1.2.1_linux_armv7.tar.gz",
          )
          ∷ (
            codes "ppc64le",
            download "cbfc9b4c847becb0dc5b6f30b3bf55884a1090f5deb6894ba5183f6e916e17e2"
                "https://github.com/oras-project/oras/releases/download/v1.2.1/oras_1.2.1_linux_ppc64le.tar.gz",
          )
          ∷ (
            codes "riscv64",
            download "960067eaf16034eb8ac2f843775e53bae37b7585d55132e283fb3402a3cea68a"
                "https://github.com/oras-project/oras/releases/download/v1.2.1/oras_1.2.1_linux_riscv64.tar.gz",
          )
          ∷ (
            codes "s390x",
            download "dc3b6a4c3290c60de8c57ff63fef7a5689cd8e2df39026f2937cc25fd95dfbc4"
                "https://github.com/oras-project/oras/releases/download/v1.2.1/oras_1.2.1_linux_s390x.tar.gz",
          )
          ∷ [],
    )
    ∷ (
      codes "windows",
      (
        codes "amd64",
        download "e072dac29eb4a4b62520b52193e028420c159e5ec192f28bfebfb11f81c7d6d8"
            "https://github.com/oras-project/oras/releases/download/v1.2.1/oras_1.2.1_windows_amd64.zip",
      )
          ∷ [],
    )
    ∷ []

unfoldable pub v1_2_2 : Platforms
v1_2_2 =
    (
      codes "darwin",
      (
        codes "amd64",
        download "e953c3c5580a317ba30871ee77f39a37e5bcb030edf01c5e9a83ebddcec7cf8a"
            "https://github.com/oras-project/oras/releases/download/v1.2.2/oras_1.2.2_darwin_amd64.tar.gz",
      )
          ∷ (
            codes "arm64",
            download "fcac22adaf1cfe7854738859d0f4705d1cd75a23edaef5ee2e9aba66cfff2315"
                "https://github.com/oras-project/oras/releases/download/v1.2.2/oras_1.2.2_darwin_arm64.tar.gz",
          )
          ∷ [],
    )
    ∷ (
      codes "freebsd",
      (
        codes "amd64",
        download "a0570a5119cb054f6d3716dd9771a2216e15bc38953293be4703059cada113e3"
            "https://github.com/oras-project/oras/releases/download/v1.2.2/oras_1.2.2_freebsd_amd64.tar.gz",
      )
          ∷ [],
    )
    ∷ (
      codes "linux",
      (
        codes "amd64",
        download "bff970346470e5ef888e9f2c0bf7f8ee47283f5a45207d6e7a037da1fb0eae0d"
            "https://github.com/oras-project/oras/releases/download/v1.2.2/oras_1.2.2_linux_amd64.tar.gz",
      )
          ∷ (
            codes "arm64",
            download "edd7195cbb8ba56c29ede413eefa10c8026201d63326017cd315841b4063aa56"
                "https://github.com/oras-project/oras/releases/download/v1.2.2/oras_1.2.2_linux_arm64.tar.gz",
          )
          ∷ (
            codes "armv7",
            download "df2e87741cdb703f77930a10202d4425775e69c6b925ce0cab3a2a992fa6a446"
                "https://github.com/oras-project/oras/releases/download/v1.2.2/oras_1.2.2_linux_armv7.tar.gz",
          )
          ∷ (
            codes "ppc64le",
            download "d7554f1d96061ba8c4ea8c930b01f7f47a336b20b52ac442f5dbcab88c3793cf"
                "https://github.com/oras-project/oras/releases/download/v1.2.2/oras_1.2.2_linux_ppc64le.tar.gz",
          )
          ∷ (
            codes "riscv64",
            download "dbebe747bb5f9c8382d7cdd2fb81edf48aa5d03401364252172f32caddd449eb"
                "https://github.com/oras-project/oras/releases/download/v1.2.2/oras_1.2.2_linux_riscv64.tar.gz",
          )
          ∷ (
            codes "s390x",
            download "9d72dcd93264729c9dbee91b6841fdfe1fa85ec6c9303108a889bdd6816383ee"
                "https://github.com/oras-project/oras/releases/download/v1.2.2/oras_1.2.2_linux_s390x.tar.gz",
          )
          ∷ [],
    )
    ∷ (
      codes "windows",
      (
        codes "amd64",
        download "25110d69d220bf55469a14c243f759305737dac6672fb47b4af4e43b000f55f5"
            "https://github.com/oras-project/oras/releases/download/v1.2.2/oras_1.2.2_windows_amd64.zip",
      )
          ∷ [],
    )
    ∷ []
