-- ===== src/Exec/LineBuffer/Tests.antt =====
-- The theorems about `_processLineBuffer` at concrete inputs: an end of line split over two chunks.
use coherence_operator.Prelude.{
  ◌≡◌, refl, ◌∷◌, [], ◌++◌, Text, codes, starts_with, ltb, if◌then◌else◌, ◌==◌, ◌&&◌,
}
use coherence_operator.Exec.LineBuffer.{Bytes, cut, process_line_buffer}
use coherence_operator.Exec.LineBuffer.Chunks.{process_line_buffer-append}

-- The two bytes of U+00E9 as one character, and any other byte as a replacement character.
abbrev e_acute : Bytes → Text
e_acute [] = []
e_acute (b ∷ []) = (if ltb b 128 then b else 65533) ∷ []
e_acute (b ∷ c ∷ bytes) =
    if b == 195 && c == 169
    then 233 ∷ e_acute bytes
    else (if ltb b 128 then b else 65533) ∷ e_acute (c ∷ bytes)

process_line_buffer-append_example :
    process_line_buffer e_acute (codes "\r\n") (codes "b\r" ++ codes "\nc") (codes "a") ≡ (
      (process_line_buffer e_acute (codes "\r\n") (codes "b\r") (codes "a")).0
          ++ (process_line_buffer e_acute
              (codes "\r\n")
              (codes "\nc")
              (process_line_buffer e_acute (codes "\r\n") (codes "b\r") (codes "a")).1).0,
      (process_line_buffer e_acute
          (codes "\r\n")
          (codes "\nc")
          (process_line_buffer e_acute (codes "\r\n") (codes "b\r") (codes "a")).1).1,
    )
process_line_buffer-append_example =
    process_line_buffer-append 13 (10 ∷ []) e_acute (codes "b\r") (codes "\nc") (codes "a") refl

-- A character that is cut becomes two replacement characters.
cut_character :
    (process_line_buffer e_acute (codes "\n") (195 ∷ 169 ∷ 10 ∷ []) [] ≡ ((233 ∷ []) ∷ [], []))
    × (process_line_buffer e_acute (codes "\n") (195 ∷ []) [] ≡ ([], 65533 ∷ []))
    × (process_line_buffer e_acute (codes "\n") (169 ∷ 10 ∷ []) (65533 ∷ [])
        ≡ ((65533 ∷ 65533 ∷ []) ∷ [], []))
unfolding process_line_buffer cut starts_with
cut_character = (refl, refl, refl)
