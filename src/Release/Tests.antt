-- ===== src/Release/Tests.antt =====
-- Runs of `getReleaseInfo`, and the theorems about it at concrete inputs.
use coherence_operator.Prelude.{◌≡◌, refl, ◌↔◌, [], some, codes, text_eq}
use coherence_operator.Runtime.{ok, throws, plain_error}
use coherence_operator.Runtime.Sample.{sample_host, freebsd_host, sample_world}
use coherence_operator.Release.Defs.{Download, download, property}
use coherence_operator.Release.{arch_name, get_release_info, no_checksum}
use coherence_operator.Release.Table.{releases_default}
use coherence_operator.Release.Official.{entry, entry-IsOfficial, official_url, IsSha256}
use coherence_operator.Release.Choice.{IsChoice, get_release_info-eq-ok_iff}
use coherence_operator.Release.Refusal.{IsRefused, get_release_info-IsRefused}

abbrev linux_1_3_1 : Download
linux_1_3_1 =
    download "d52c4af76ce6a3ceb8579e51fb751a43ac051cca67f965f973a0b0e897a2bb86"
      "https://github.com/oras-project/oras/releases/download/v1.3.1/oras_1.3.1_linux_amd64.tar.gz"

linux_entry : entry (codes "1.3.1") (codes "linux") (codes "amd64") ≡ some linux_1_3_1
unfolding entry releases_default property text_eq
linux_entry = refl

entry-IsOfficial_example :
    IsSha256 linux_1_3_1.checksum
    × (linux_1_3_1.url ≡ official_url (codes "1.3.1") (codes "linux") (codes "amd64"))
entry-IsOfficial_example =
    entry-IsOfficial (codes "1.3.1") (codes "linux") (codes "amd64") linux_1_3_1 linux_entry

get_release_info-eq-ok_iff_example :
    (get_release_info sample_host (codes "1.3.1") [] [] sample_world
      ≡ (ok linux_1_3_1, sample_world))
    ↔ IsChoice sample_host (codes "1.3.1") [] [] linux_1_3_1
get_release_info-eq-ok_iff_example =
    get_release_info-eq-ok_iff sample_host (codes "1.3.1") [] [] sample_world linux_1_3_1

lone_url :
    get_release_info sample_host (codes "1.3.1") (codes "u") [] sample_world
    ≡ (throws (plain_error no_checksum), sample_world)
unfolding get_release_info
lone_url = refl

get_release_info-IsRefused_example :
    IsRefused sample_host (codes "1.3.1") (codes "u") [] (plain_error no_checksum)
get_release_info-IsRefused_example =
    get_release_info-IsRefused sample_host (codes "1.3.1") (codes "u") [] sample_world sample_world
      (plain_error no_checksum) lone_url

freebsd_arch : arch_name freebsd_host.arch ≡ some (codes "amd64")
unfolding arch_name text_eq
freebsd_arch = refl
