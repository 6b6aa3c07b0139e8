-- ===== src/Utils.antt =====
-- adb_utils.cpp: escape_arg, which quotes an argument for the shell.
pub mod Quote
use adb_src.Base.{
  ℕ, zero, suc, ◌+◌, Option, none, some, [], ◌∷◌, ◌++◌, ◌==◌, if◌then◌else◌, Bytes, length, take,
  drop, get_elem?,
}

abbrev pub quote : ℕ
quote = 39

abbrev pub backslash : ℕ
backslash = 92

-- What is inserted in front of a quote.
abbrev pub close_and_escape : Bytes
close_and_escape = quote ∷ backslash ∷ quote ∷ []

abbrev pub insert : ℕ → Bytes → Bytes → Bytes
insert i x s = take i s ++ (x ++ drop i s)

-- One turn of the loop on the byte `s[i]`, with the rest of the loop; `none` is past the end.
unfoldable pub escape_at : (ℕ → Bytes → Bytes) → ℕ → Bytes → Option ℕ → Bytes
escape_at rest i result none = result
escape_at rest i result (some c) =
    if c == quote then rest (i + 3) (insert i close_and_escape result) else rest (i + 1) result

-- The loop, whose index runs over `s` while the bytes go into `result`; it makes at most as many
-- turns as `s` has bytes.
unfoldable pub escape_loop : ℕ → Bytes → ℕ → Bytes → Bytes
unfolding escape_at
escape_loop zero s i result = result
escape_loop (suc fuel) s i result = escape_at (escape_loop fuel s) i result (get_elem? s i)

unfoldable pub escape_arg : Bytes → Bytes
unfolding escape_loop
escape_arg s = (quote ∷ escape_loop (length s) s 0 s) ++ (quote ∷ [])
