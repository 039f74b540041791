-- ===== src/Release/Table.antt =====
-- `releases_default`: the official releases of the ORAS CLI, by version, platform and architecture.
mod Early
mod Middle
mod Late
mod Recent
use coherence_operator.Prelude.{List, [], ◌∷◌, Text, codes}
use coherence_operator.Release.Defs.{Releases}
use Early.{v1_0_0, v1_0_1, v1_1_0}
use Middle.{v1_2_0, v1_2_1, v1_2_2}
use Late.{v1_2_3, v1_3_0}
use Recent.{v1_3_1, v1_3_2, v1_3_3}

unfoldable pub releases_default : Releases
unfolding v1_0_0 v1_0_1 v1_1_0 v1_2_0 v1_2_1 v1_2_2 v1_2_3 v1_3_0 v1_3_1 v1_3_2 v1_3_3
releases_default =
    (codes "1.0.0", v1_0_0)
    ∷ (codes "1.0.1", v1_0_1)
    ∷ (codes "1.1.0", v1_1_0)
    ∷ (codes "1.2.0", v1_2_0)
    ∷ (codes "1.2.1", v1_2_1)
    ∷ (codes "1.2.2", v1_2_2)
    ∷ (codes "1.2.3", v1_2_3)
    ∷ (codes "1.3.0", v1_3_0)
    ∷ (codes "1.3.1", v1_3_1)
    ∷ (codes "1.3.2", v1_3_2)
    ∷ (codes "1.3.3", v1_3_3)
    ∷ []
