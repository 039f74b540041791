-- ===== src/Exec/LineBuffer.antt =====
-- `_processLineBuffer` of ToolRunner: the lines of a stream that arrives in chunks of bytes. What Node.js
-- makes of the bytes of a chunk, the method `toString` of Buffer, is a parameter. A listener that
-- throws is not modelled: the action's listeners only append text.
pub mod Cut
pub mod Chunks
mod Tests
use coherence_operator.Prelude.{
  ℕ, zero, suc, List, [], ◌∷◌, ◌++◌, Option, none, some, Bool, true, false, Text, codes,
  starts_with, drop, length, if◌then◌else◌,
}

abbrev pub cons_before : ℕ → Option (Text × Text) → Option (Text × Text)
cons_before c none = none
cons_before c (some (line, rest)) = some (c ∷ line, rest)

-- `s.indexOf(eol)` with the two calls of `substring` around it: the text before the first end of
-- line, and the text behind it.
unfoldable pub cut : Text → Text → Option (Text × Text)
cut eol [] = if starts_with [] eol then some ([], []) else none
cut eol (c ∷ s) =
    if starts_with (c ∷ s) eol
    then some ([], drop (length eol) (c ∷ s))
    else cons_before c (cut eol s)

-- The loop, which calls `onLine` with each line; a round removes an end of line, so that one more
-- round than there are characters is enough. What is left is the new buffer.
unfoldable pub lines_from : ℕ → Text → Text → List Text × Text
lines_from zero eol s = ([], s)
lines_from (suc fuel) eol s = elim (cut eol s) [
  | none ↦ ([], s)
  | some (line, rest) ↦ (line ∷ (lines_from fuel eol rest).0, (lines_from fuel eol rest).1)
]

abbrev pub Bytes : Type 0
Bytes = List ℕ

-- `to_text` is `data.toString()` of a Buffer, which decodes the bytes of this chunk alone.
unfoldable pub process_line_buffer : (Bytes → Text) → Text → Bytes → Text → List Text × Text
unfolding lines_from
process_line_buffer to_text eol chunk str_buffer =
    let s = str_buffer ++ to_text chunk in lines_from (suc (length s)) eol s
