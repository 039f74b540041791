-- ===== src/Exec/Quote.antt =====
-- `_windowsQuoteCmdArg` and `_uvQuoteCmdArg` of ToolRunner: how an argument is put on a Windows command
-- line.
pub mod Reading
pub mod RoundTrip
pub mod Argument
mod Tests
use coherence_operator.Prelude.{
  ℕ, List, [], ◌∷◌, ◌++◌, Bool, true, false, not, ◌&&◌, ◌||◌, any, Text, codes, is_empty, includes,
  reverse, ◌==◌, if◌then◌else◌,
}
use coherence_operator.Exec.ArgString.{quote, backslash}

-- What a round of either loop appends behind a character, and the next `quoteHit`. The two loops
-- differ in the mark put to a quote: a backslash, or a second quote.
unfoldable pub marks : ℕ → Bool → ℕ → Text
marks mark quote_hit c =
    if quote_hit && c == backslash then backslash ∷ [] else if c == quote then mark ∷ [] else []

unfoldable pub next_hit : Bool → ℕ → Bool
next_hit quote_hit c = if quote_hit && c == backslash then quote_hit else c == quote

-- The loop runs from the last character to the first; `text` is the variable `reverse`.
unfoldable pub quote_loop : ℕ → Text → Text → Bool → Text
unfolding marks next_hit
quote_loop mark [] text quote_hit = text
quote_loop mark (c ∷ cs) text quote_hit =
    quote_loop mark cs (text ++ c ∷ marks mark quote_hit c) (next_hit quote_hit c)

-- The variable before the loop, the loop, and the closing quote, turned round again.
unfoldable pub quoted : ℕ → Text → Text
quoted mark arg = reverse (quote_loop mark (reverse arg) (quote ∷ []) true ++ quote ∷ [])

unfoldable pub uv_quote_cmd_arg : Text → Text
uv_quote_cmd_arg arg =
    if is_empty arg
    then quote ∷ quote ∷ []
    else if not (includes arg b' ') && not (includes arg 9) && not (includes arg quote)
    then arg
    else if not (includes arg quote) && not (includes arg backslash)
    then quote ∷ (arg ++ quote ∷ [])
    else quoted backslash arg

unfoldable pub cmd_special_chars : Text
cmd_special_chars = codes " \t&()[]{}^=;!'+,`~|<>\""

-- The flag is `this._isCmdFile()`.
unfoldable pub windows_quote_cmd_arg : Bool → Text → Text
unfolding uv_quote_cmd_arg
windows_quote_cmd_arg is_cmd_file arg =
    if not is_cmd_file
    then uv_quote_cmd_arg arg
    else if is_empty arg
    then quote ∷ quote ∷ []
    else if any (λ c. includes cmd_special_chars c) arg
    then quoted quote arg
    else arg
