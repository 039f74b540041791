-- ===== src/Exec/Quote/Tests.antt =====
-- The theorem about `_uvQuoteCmdArg` at a concrete input.
use coherence_operator.Prelude.{◌≡◌, ◌∷◌, ◌++◌, codes, some}
use coherence_operator.Exec.Quote.{uv_quote_cmd_arg}
use coherence_operator.Exec.Quote.Reading.{read_arg}
use coherence_operator.Exec.Quote.Argument.{read_arg-uv_quote_cmd_arg}

read_arg-uv_quote_cmd_arg_example :
    read_arg (uv_quote_cmd_arg (codes "a \"b\\") ++ b' ' ∷ codes "next")
    ≡ some (codes "a \"b\\", b' ' ∷ codes "next")
read_arg-uv_quote_cmd_arg_example = read_arg-uv_quote_cmd_arg (codes "a \"b\\") (codes "next")
