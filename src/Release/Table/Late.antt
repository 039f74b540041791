-- ===== src/Release/Table/Late.antt =====
-- The entries 1.2.3, 1.3.0 of `releases_default` in .github/actions/setup-oras-2.0.1/dist/index.js.
use coherence_operator.Prelude.{[], ◌∷◌, codes}
use coherence_operator.Release.Defs.{Platforms, download}

unfoldable pub v1_2_3 : Platforms
v1_2_3 =
    (
      codes "darwin",
      (
        codes "amd64",
        download "29d8b684dadd9b08614fe9023a5ac8ff0ef1bef1c9795ad8076e3215eb207724"
            "https://github.com/oras-project/oras/releases/download/v1.2.3/oras_1.2.3_darwin_amd64.tar.gz",
      )
          ∷ (
            codes "arm64",
            download "ca4188a0c690536d34baf2a4c3507b3fcc11a06979aeec6da3560a0c4d944a6a"
                "https://github.com/oras-project/oras/releases/download/v1.2.3/oras_1.2.3_darwin_arm64.tar.gz",
          )
          ∷ [],
    )
    ∷ (
      codes "freebsd",
      (
        codes "amd64",
        download "0cd77c9340578e4ef86533d5603498fe006f6b962d619612d49769aa01fe90e3"
            "https://github.com/oras-project/oras/releases/download/v1.2.3/oras_1.2.3_freebsd_amd64.tar.gz",
      )
          ∷ [],
    )
    ∷ (
      codes "linux",
      (
        codes "amd64",
        download "b4efc97a91f471f323f193ea4b4d63d8ff443ca3aab514151a30751330852827"
            "https://github.com/oras-project/oras/releases/download/v1.2.3/oras_1.2.3_linux_amd64.tar.gz",
      )
          ∷ (
            codes "arm64",
            download "90e24e234dc6dffe73365533db66fd14449d2c9ae77381081596bf92f40f6b82"
                "https://github.com/oras-project/oras/releases/download/v1.2.3/oras_1.2.3_linux_arm64.tar.gz",
          )
          ∷ (
            codes "armv7",
            download "f5d32565d714fdddc4f06fd8c00e9cc5719398ccb918a5d64a54b5531da4f893"
                "https://github.com/oras-project/oras/releases/download/v1.2.3/oras_1.2.3_linux_armv7.tar.gz",
          )
          ∷ (
            codes "ppc64le",
            download "6362e6df98961906c55fbbaf789610c575a8cd4c72a0e18a41561b36fd4352ef"
                "https://github.com/oras-project/oras/releases/download/v1.2.3/oras_1.2.3_linux_ppc64le.tar.gz",
          )
          ∷ (
            codes "riscv64",
            download "a1f2a861b5e5e295925dcdeb226a3e097e92b48c87a00c5cbbdffc6288597b37"
                "https://github.com/oras-project/oras/releases/download/v1.2.3/oras_1.2.3_linux_riscv64.tar.gz",
          )
          ∷ (
            codes "s390x",
            download "7993b9247c49e7aa3f107568c33c37d6bcae87018651a6def8278ea7c2c7a3a8"
                "https://github.com/oras-project/oras/releases/download/v1.2.3/oras_1.2.3_linux_s390x.tar.gz",
          )
          ∷ [],
    )
    ∷ (
      codes "windows",
      (
        codes "amd64",
        download "8fe890f5c6c89b06fb138839e533a112e0fc026a25b2c8c1b042b32455a56947"
            "https://github.com/oras-project/oras/releases/download/v1.2.3/oras_1.2.3_windows_amd64.zip",
      )
          ∷ [],
    )
    ∷ []

unfoldable pub v1_3_0 : Platforms
v1_3_0 =
    (
      codes "darwin",
      (
        codes "amd64",
        download "82c33f7da8430ea7fa7e7bdf7721be0a0d0481e5ccb2472ea438490d5e8641a9"
            "https://github.com/oras-project/oras/releases/download/v1.3.0/oras_1.3.0_darwin_amd64.tar.gz",
      )
          ∷ (
            codes "arm64",
            download "e10c6552c02d5a7c7eaf7170d3b6f7f094b675a98a1e0edf4d4478a909447245"
                "https://github.com/oras-project/oras/releases/download/v1.3.0/oras_1.3.0_darwin_arm64.tar.gz",
          )
          ∷ [],
    )
    ∷ (
      codes "freebsd",
      (
        codes "amd64",
        download "3e885e8c78d61cf9ab57597ebc1a5c7a985ca8578c3ed5a87842c5411610c7f5"
            "https://github.com/oras-project/oras/releases/download/v1.3.0/oras_1.3.0_freebsd_amd64.tar.gz",
      )
          ∷ [],
    )
    ∷ (
      codes "linux",
      (
        codes "amd64",
        download "6cdc692f929100feb08aa8de584d02f7bcc30ec7d88bc2adc2054d782db57c64"
            "https://github.com/oras-project/oras/releases/download/v1.3.0/oras_1.3.0_linux_amd64.tar.gz",
      )
          ∷ (
            codes "arm64",
            download "7649738b48fde10542bcc8b0e9b460ba83936c75fb5be01ee6d4443764a14352"
                "https://github.com/oras-project/oras/releases/download/v1.3.0/oras_1.3.0_linux_arm64.tar.gz",
          )
          ∷ (
            codes "armv7",
            download "adba63f14b3356601bdb4c286f0373270e2bc4e10e59b836c1796d11c48b4ace"
                "https://github.com/oras-project/oras/releases/download/v1.3.0/oras_1.3.0_linux_armv7.tar.gz",
          )
          ∷ (
            codes "loong64",
            download "0da4a220de5431909cd7fed725c1741191df7b33d7eefd6f26dfd2a189b05596"
                "https://github.com/oras-project/oras/releases/download/v1.3.0/oras_1.3.0_linux_loong64.tar.gz",
          )
          ∷ (
            codes "ppc64le",
            download "3eb1c038c6a7a85eaeaf34bca187375e9de624c43019d2a722e474de3237a90e"
                "https://github.com/oras-project/oras/releases/download/v1.3.0/oras_1.3.0_linux_ppc64le.tar.gz",
          )
          ∷ (
            codes "riscv64",
            download "87bbd09d34b5bac85fec2c39251b979097c32b7a6f1e645e04f5fa8f899701a1"
                "https://github.com/oras-project/oras/releases/download/v1.3.0/oras_1.3.0_linux_riscv64.tar.gz",
          )
          ∷ (
            codes "s390x",
            download "4eb036537a0fbbe1f75faed99272ca579ad4e6eb583e903ac647749dcf53898a"
                "https://github.com/oras-project/oras/releases/download/v1.3.0/oras_1.3.0_linux_s390x.tar.gz",
          )
          ∷ [],
    )
    ∷ (
      codes "windows",
      (
        codes "amd64",
        download "b050e93aa0dc7a79a61fa8e4074dfa302c41d4af01b634fe393c5dd687536aee"
            "https://github.com/oras-project/oras/releases/download/v1.3.0/oras_1.3.0_windows_amd64.zip",
      )
          ∷ [],
    )
    ∷ []
