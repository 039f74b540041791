-- ===== src/Release/Table/Early.antt =====
-- The entries 1.0.0, 1.0.1, 1.1.0 of `releases_default` in .github/actions/setup-oras-2.0.1/dist/index.js.
use coherence_operator.Prelude.{[], ◌∷◌, codes}
use coherence_operator.Release.Defs.{Platforms, download}

unfoldable pub v1_0_0 : Platforms
v1_0_0 =
    (
      codes "darwin",
      (
        codes "amd64",
        download "3bce1a83fb518c7bc0afac685601835e5234daa88b3074aafecf768ec80229fe"
            "https://github.com/oras-project/oras/releases/download/v1.0.0/oras_1.0.0_darwin_amd64.tar.gz",
      )
          ∷ (
            codes "arm64",
            download "0168a0b8289c202b9dcd57fb4fa3638610245fd5574032e18b1196a20e4100d1"
                "https://github.com/oras-project/oras/releases/download/v1.0.0/oras_1.0.0_darwin_arm64.tar.gz",
          )
          ∷ [],
    )
    ∷ (
      codes "linux",
      (
        codes "amd64",
        download "8533c9ea1e5a0d5eb1dfc5094c0e8ef106d15462f8a119077548f88937ed2133"
            "https://github.com/oras-project/oras/releases/download/v1.0.0/oras_1.0.0_linux_amd64.tar.gz",
      )
          ∷ (
            codes "arm64",
            download "332ba74c043ed590ab0fb61656e6d274243e915cb150d48be4ad64ed591dcc84"
                "https://github.com/oras-project/oras/releases/download/v1.0.0/oras_1.0.0_linux_arm64.tar.gz",
          )
          ∷ (
            codes "armv7",
            download "c626893bed0aa26eb37113e11c1bc34552fa213f26af85ef14100a366e6c7c06"
                "https://github.com/oras-project/oras/releases/download/v1.0.0/oras_1.0.0_linux_armv7.tar.gz",
          )
          ∷ (
            codes "s390x",
            download "2339f972cbbaa7dc4fed0795c2c37a6124ee524c6e0ed62919c3a0097dd57442"
                "https://github.com/oras-project/oras/releases/download/v1.0.0/oras_1.0.0_linux_s390x.tar.gz",
          )
          ∷ [],
    )
    ∷ (
      codes "windows",
      (
        codes "amd64",
        download "e47e91fbc72cfe4e5c89321ebc5af953bcafa8a9ecdb0b4fbd53fd136578e03e"
            "https://github.com/oras-project/oras/releases/download/v1.0.0/oras_1.0.0_windows_amd64.zip",
      )
          ∷ [],
    )
    ∷ []

unfoldable pub v1_0_1 : Platforms
v1_0_1 =
    (
      codes "darwin",
      (
        codes "amd64",
        download "34f11536dc191f9ad4288649f97ef69b478548f891c932c9732307f064ed3331"
            "https://github.com/oras-project/oras/releases/download/v1.0.1/oras_1.0.1_darwin_amd64.tar.gz",
      )
          ∷ (
            codes "arm64",
            download "faa0181799f0e0295d7df188441a1f8869da78a50da4cf7fb03cf35dc746b178"
                "https://github.com/oras-project/oras/releases/download/v1.0.1/oras_1.0.1_darwin_arm64.tar.gz",
          )
          ∷ [],
    )
    ∷ (
      codes "linux",
      (
        codes "amd64",
        download "6b51b87360d373dd3c19b91d2627d2efd320513380a878b6f06702f72fe8c5ab"
            "https://github.com/oras-project/oras/releases/download/v1.0.1/oras_1.0.1_linux_amd64.tar.gz",
      )
          ∷ (
            codes "arm64",
            download "ae1884ae17b7ae7ce694c63d51a52ab0dac1f2c0ca384163455c1e96c5663db0"
                "https://github.com/oras-project/oras/releases/download/v1.0.1/oras_1.0.1_linux_arm64.tar.gz",
          )
          ∷ (
            codes "armv7",
            download "f31bc8eab3ed2f368056df3eb5761f40d90dfbd8272bec58d83961f41ebbf3fb"
                "https://github.com/oras-project/oras/releases/download/v1.0.1/oras_1.0.1_linux_armv7.tar.gz",
          )
          ∷ (
            codes "s390x",
            download "2a63313a99dd45c448c022a303941e1f5b47b8fdf3493c593b026de384a284b6"
                "https://github.com/oras-project/oras/releases/download/v1.0.1/oras_1.0.1_linux_s390x.tar.gz",
          )
          ∷ [],
    )
    ∷ (
      codes "windows",
      (
        codes "amd64",
        download "0b9c50eda7aa384d435b31710264d08c77a5e83ee6560ee6e13ca46a6acec1ba"
            "https://github.com/oras-project/oras/releases/download/v1.0.1/oras_1.0.1_windows_amd64.zip",
      )
          ∷ [],
    )
    ∷ []

unfoldable pub v1_1_0 : Platforms
v1_1_0 =
    (
      codes "darwin",
      (
        codes "amd64",
        download "f8ac5dea53dd9331cf080f1025f0612e7b07c5af864a4fd609f97d8946508e45"
            "https://github.com/oras-project/oras/releases/download/v1.1.0/oras_1.1.0_darwin_amd64.tar.gz",
      )
          ∷ (
            codes "arm64",
            download "d52d3140b0bb9f7d7e31dcbf2a513f971413769c11f7d7a5599e76cc98e45007"
                "https://github.com/oras-project/oras/releases/download/v1.1.0/oras_1.1.0_darwin_arm64.tar.gz",
          )
          ∷ [],
    )
    ∷ (
      codes "linux",
      (
        codes "amd64",
        download "e09e85323b24ccc8209a1506f142e3d481e6e809018537c6b3db979c891e6ad7"
            "https://github.com/oras-project/oras/releases/download/v1.1.0/oras_1.1.0_linux_amd64.tar.gz",
      )
          ∷ (
            codes "arm64",
            download "e450b081f67f6fda2f16b7046075c67c9a53f3fda92fd20ecc59873b10477ab4"
                "https://github.com/oras-project/oras/releases/download/v1.1.0/oras_1.1.0_linux_arm64.tar.gz",
          )
          ∷ (
            codes "armv7",
            download "def86e7f787f8deee50bb57d1c155201099f36aa0c6700d3b525e69ddf8ae49b"
                "https://github.com/oras-project/oras/releases/download/v1.1.0/oras_1.1.0_linux_armv7.tar.gz",
          )
          ∷ (
            codes "s390x",
            download "067600d61d5d7c23f7bd184cff168ad558d48bed99f6735615bce0e1068b1d77"
                "https://github.com/oras-project/oras/releases/download/v1.1.0/oras_1.1.0_linux_s390x.tar.gz",
          )
          ∷ [],
    )
    ∷ (
      codes "windows",
      (
        codes "amd64",
        download "2ac83631181d888445e50784a5f760f7f9d97fba3c089e79b68580c496fe68cf"
            "https://github.com/oras-project/oras/releases/download/v1.1.0/oras_1.1.0_windows_amd64.zip",
      )
          ∷ [],
    )
    ∷ []
