-- ===== src/Utils/Quote.antt =====
-- What the shell reads where escape_arg wrote.
use adb_src.Base.{
  ℕ, zero, suc, ◌+◌, ◌-◌, ◌≤◌, ◌≡◌, ◌≢◌, Option, none, some, [], ◌∷◌, ◌++◌, ◌==◌, false,
  if◌then◌else◌, Bool, true, ◌||◌, is_alnum, Bytes, length, take, drop, get_elem?, All, refl, sym,
  ap, ◌∙◌, arith, append_assoc, take-append, drop-append, length-append, append-nil,
}
use adb_src.Utils.{quote, backslash, close_and_escape, insert, escape_at, escape_loop, escape_arg}

abbrev pub IsPlain : Bytes → Type 0
IsPlain = All (λ c. c ≢ quote)

-- From the byte at `i` on there are no quotes.
escape_loop-plain :
    (fuel : ℕ) (s : Bytes) (i : ℕ) (r : Bytes)
    → ((j : ℕ) (c : ℕ) → i ≤ j → get_elem? s j ≡ some c → c ≢ quote)
    → escape_loop fuel s i r ≡ r
unfolding escape_loop escape_at
escape_loop-plain zero s i r h = refl
escape_loop-plain (suc fuel) s i r h =
    turn (get_elem? s i) refl
      (escape_loop-plain fuel s (i + 1) r (λ j c k e. h j c (omega arith) e))
  where
    turn :
        (o : Option ℕ)
        → get_elem? s i ≡ o
        → escape_loop fuel s (i + 1) r ≡ r
        → escape_at (escape_loop fuel s) i r o ≡ r
    turn none e ih = refl
    turn (some c) e ih =
        let plain : c ≢ quote = h i c (omega arith) e in
        let t : (c == quote) ≡ false = ground (arith, plain) in rw t ih

-- The loop passes over bytes that are not quotes.
escape_loop-skip :
    (fuel : ℕ) (a b s r : Bytes) (i : ℕ)
    → IsPlain a
    → ((j : ℕ) → get_elem? s (i + j) ≡ get_elem? (a ++ b) j)
    → escape_loop (length a + fuel) s i r ≡ escape_loop fuel s (i + length a) r
unfolding escape_loop escape_at
escape_loop-skip fuel [] b s r i h at =
    let e : i ≡ i + 0 = omega arith in
    let f : 0 + fuel ≡ fuel = omega arith in
    ap (λ k. escape_loop k s i r) f ∙ ap (λ k. escape_loop fuel s k r) e
escape_loop-skip fuel (c ∷ a) b s r i h at =
    let e : suc (length a) + fuel ≡ suc (length a + fuel) = omega arith in
    let z : i ≡ i + 0 = omega arith in
    let here : get_elem? s i ≡ some c = ap (get_elem? s) z ∙ at 0 in
    let t : (c == quote) ≡ false = ground (arith, h.0) in
    let last : i + 1 + length a ≡ i + suc (length a) = omega arith in
    ap (λ k. escape_loop k s i r) e
    ∙ ap (escape_at (escape_loop (length a + fuel) s) i r) here
    ∙ rw t (
        escape_loop-skip fuel a b s r (i + 1) h.1
          (λ j. let m : i + 1 + j ≡ i + suc j = omega arith in ap (get_elem? s) m ∙ at (suc j)))
    ∙ ap (λ k. escape_loop fuel s k r) last

IsPlain-get : (a : Bytes) (j c : ℕ) → IsPlain a → get_elem? a j ≡ some c → c ≢ quote
IsPlain-get [] j c h e = cc
IsPlain-get (d ∷ a) zero c h e = let same : d ≡ c = ground arith in λ x. h.0 (same ∙ x)
IsPlain-get (d ∷ a) (suc j) c h e = IsPlain-get a j c h.1 e

get-behind : (a b : Bytes) (j : ℕ) → get_elem? (a ++ b) (length a + j) ≡ get_elem? b j
get-behind [] b j = let e : 0 + j ≡ j = omega arith in ap (get_elem? b) e
get-behind (c ∷ a) b j =
    let e : suc (length a) + j ≡ suc (length a + j) = omega arith in
    ap (get_elem? (c ∷ (a ++ b))) e ∙ get-behind a b j

IsPlain-drop : (n : ℕ) (b : Bytes) → IsPlain b → IsPlain (drop n b)
IsPlain-drop zero b h = h
IsPlain-drop (suc n) [] h = tt
IsPlain-drop (suc n) (c ∷ b) h = IsPlain-drop n b h.1

get-drop : (b : Bytes) (j : ℕ) → get_elem? b (2 + j) ≡ get_elem? (drop 2 b) j
get-drop [] j = let e : 2 + j ≡ suc (suc j) = omega arith in ap (get_elem? {A = ℕ} []) e
get-drop (c ∷ []) j = let e : 2 + j ≡ suc (suc j) = omega arith in ap (get_elem? (c ∷ [])) e
get-drop (c ∷ d ∷ b) j = let e : 2 + j ≡ suc (suc j) = omega arith in ap (get_elem? (c ∷ d ∷ b)) e

-- Only the first quote is escaped, and the two bytes behind it are not looked at.
escape_loop-first :
    (a m : Bytes)
    → IsPlain a
    → IsPlain (drop 2 m)
    → escape_loop (length (a ++ (quote ∷ m))) (a ++ (quote ∷ m)) 0 (a ++ (quote ∷ m))
      ≡ a ++ (close_and_escape ++ (quote ∷ m))
unfolding escape_loop escape_at
escape_loop-first a m h k =
    let s = a ++ (quote ∷ m) in
    let size : length s ≡ length a + suc (length m) = length-append a (quote ∷ m) in
    let z : 0 + length a ≡ length a + 0 = omega arith in
    let found : get_elem? s (0 + length a) ≡ some quote =
      ap (get_elem? s) z ∙ get-behind a (quote ∷ m) 0 in
    let cut : take (0 + length a) s ≡ a =
      (let e : 0 + length a ≡ length a = omega arith in ap (λ n. take n s) e)
      ∙ take-append a (quote ∷ m) in
    let left : drop (0 + length a) s ≡ quote ∷ m =
      (let e : 0 + length a ≡ length a = omega arith in ap (λ n. drop n s) e)
      ∙ drop-append a (quote ∷ m) in
    ap (λ n. escape_loop n s 0 s) size
    ∙ escape_loop-skip (suc (length m)) a (quote ∷ m) s s 0 h
        (λ j. let e : 0 + j ≡ j = omega arith in ap (get_elem? s) e)
    ∙ ap (escape_at (escape_loop (length m) s) (0 + length a) s) found
    ∙ escape_loop-plain (length m) s (0 + length a + 3) (insert (0 + length a) close_and_escape s)
        (λ j c far e.
          let n = j - (length a + 3) in
          let there : j ≡ length a + suc (2 + n) = omega arith in
          let same : get_elem? s j ≡ get_elem? (drop 2 m) n =
            ap (get_elem? s) there ∙ get-behind a (quote ∷ m) (suc (2 + n)) ∙ get-drop m n in
          IsPlain-get (drop 2 m) n c k (sym same ∙ e))
    ∙ (λ i. cut i ++ (close_and_escape ++ left i))

-- How the shell reads one word: in single quotes a byte stands for itself, and outside a
-- backslash gives the next byte. Outside, only the bytes of names and paths stand for themselves; at
-- any other one, which may end the word or mean something else, the reading gives up.
pub data Mode : Type 0 where
  inside outside escaped : Mode

pub data Word : Type 0 where
  word : Bytes → Word
  unclosed not_one_word : Word

abbrev pub cons_word : ℕ → Word → Word
cons_word c (word s) = word (c ∷ s)
cons_word c unclosed = unclosed
cons_word c not_one_word = not_one_word

abbrev pub is_bare : ℕ → Bool
is_bare c = is_alnum c || c == b'_' || c == b'-' || c == b'.' || c == b'/'

unfoldable pub shell_word : Mode → Bytes → Word
shell_word inside [] = unclosed
shell_word outside [] = word []
shell_word escaped [] = unclosed
shell_word inside (c ∷ s) =
    if c == quote then shell_word outside s else cons_word c (shell_word inside s)
shell_word outside (c ∷ s) =
    if c == quote
    then shell_word inside s
    else if c == backslash
    then shell_word escaped s
    else if is_bare c
    then cons_word c (shell_word outside s)
    else not_one_word
shell_word escaped (c ∷ s) = cons_word c (shell_word outside s)

abbrev prepend : Bytes → Word → Word
prepend [] o = o
prepend (c ∷ a) o = cons_word c (prepend a o)

prepend-word : (a b : Bytes) → prepend a (word b) ≡ word (a ++ b)
prepend-word [] b = refl
prepend-word (c ∷ a) b = ap (cons_word c) (prepend-word a b)

prepend-unclosed : (a : Bytes) → prepend a unclosed ≡ unclosed
prepend-unclosed [] = refl
prepend-unclosed (c ∷ a) = ap (cons_word c) (prepend-unclosed a)

shell_word-inside :
    (a r : Bytes)
    → IsPlain a
    → shell_word inside (a ++ (quote ∷ r)) ≡ prepend a (shell_word outside r)
unfolding shell_word
shell_word-inside [] r h = refl
shell_word-inside (c ∷ a) r h =
    let t : (c == quote) ≡ false = ground (arith, h.0) in
    rw t (ap (cons_word c) (shell_word-inside a r h.1))

-- Bytes that mean themselves outside quotes.
abbrev pub IsBare : Bytes → Type 0
IsBare = All (λ c. is_bare c ≡ true)

is_bare-apart : (c : ℕ) → is_bare c ≡ true → (c ≢ quote) × (c ≢ backslash)
is_bare-apart c h = ((λ e. let x = rw e at h in cc), (λ e. let x = rw e at h in cc))

IsBare-IsPlain : (b : Bytes) → IsBare b → IsPlain b
IsBare-IsPlain [] h = tt
IsBare-IsPlain (c ∷ b) h = ((is_bare-apart c h.0).0, IsBare-IsPlain b h.1)

shell_word-unclosed : (b : Bytes) → IsBare b → shell_word outside (b ++ (quote ∷ [])) ≡ unclosed
unfolding shell_word
shell_word-unclosed [] h = refl
shell_word-unclosed (c ∷ b) h =
    let t : (c == quote) ≡ false = ground (arith, (is_bare-apart c h.0).0) in
    let u : (c == backslash) ≡ false = ground (arith, (is_bare-apart c h.0).1) in
    rw (t, u, h.0) (ap (cons_word c) (shell_word-unclosed b h.1))

-- What the shell reads of the two parts around the first quote.
shell_word-first :
    (a m : Bytes)
    → IsPlain a
    → IsPlain (drop 2 m)
    → shell_word outside (escape_arg (a ++ (quote ∷ m)))
      ≡ prepend a (cons_word quote (shell_word inside (m ++ (quote ∷ []))))
unfolding escape_arg shell_word
shell_word-first a m h k =
    ap (λ x. shell_word inside (x ++ (quote ∷ []))) (escape_loop-first a m h k)
    ∙ ap (shell_word inside) (append_assoc a (close_and_escape ++ (quote ∷ m)) (quote ∷ []))
    ∙ shell_word-inside a (backslash ∷ quote ∷ quote ∷ (m ++ (quote ∷ []))) h

-- The shell reads an argument with one quote back from what `escape_arg` makes of it.
pub escape_arg-one_quote :
    (a b : Bytes)
    → IsPlain a
    → IsPlain b
    → shell_word outside (escape_arg (a ++ (quote ∷ b))) ≡ word (a ++ (quote ∷ b))
unfolding shell_word
escape_arg-one_quote a b h k =
    shell_word-first a b h (IsPlain-drop 2 b k)
    ∙ ap (λ o. prepend a (cons_word quote o))
        (shell_word-inside b [] k ∙ prepend-word b [] ∙ ap word (append-nil b))
    ∙ prepend-word a (quote ∷ b)

-- An argument with two quotes around one byte, and behind them only letters, digits and `_-./`, is
-- not read back: the second quote is not escaped, and what the shell reads ends in a quote that is
-- not closed.
pub escape_arg-two_quotes :
    (a b : Bytes) (x : ℕ)
    → IsPlain a
    → IsBare b
    → x ≢ quote
    → shell_word outside (escape_arg (a ++ (quote ∷ x ∷ quote ∷ b))) ≡ unclosed
unfolding shell_word
escape_arg-two_quotes a b x h k plain =
    let t : (x == quote) ≡ false = ground (arith, plain) in
    let dead : shell_word inside (x ∷ quote ∷ (b ++ (quote ∷ []))) ≡ unclosed =
      rw t (ap (cons_word x) (shell_word-unclosed b k)) in
    shell_word-first a (x ∷ quote ∷ b) h (IsBare-IsPlain b k)
    ∙ ap (λ o. prepend a (cons_word quote o)) dead
    ∙ prepend-unclosed a
