-- ===== src/Tests/Quoting.antt =====
-- Runs of escape_arg.
use adb_src.Base.{◌∷◌, ◌++◌, ◌≡◌, refl, arith, codes}
use adb_src.Utils.{quote, escape_arg}
use adb_src.Utils.Quote.{
  shell_word, outside, word, unclosed, escape_arg-one_quote, escape_arg-two_quotes,
}

escape_arg-one_quote_example :
    shell_word outside (escape_arg (codes "it" ++ (quote ∷ codes "s")))
    ≡ word (codes "it" ++ (quote ∷ codes "s"))
escape_arg-one_quote_example =
    escape_arg-one_quote (codes "it") (codes "s") (omega arith, (omega arith, tt)) (omega arith, tt)

escape_arg-two_quotes_example :
    shell_word outside (escape_arg (codes "a" ++ (quote ∷ b'b' ∷ quote ∷ codes "c"))) ≡ unclosed
escape_arg-two_quotes_example =
    escape_arg-two_quotes (codes "a") (codes "c") b'b' (omega arith, tt) (refl, tt) (omega arith)
