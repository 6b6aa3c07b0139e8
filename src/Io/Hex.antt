-- ===== src/Io/Hex.antt =====
-- Hexadecimal text: `%04x` of printf and base-16 `strtoul` of the C library, as
-- SendProtocolString and ReadProtocolString use them, and the digits that `unhex` of sockets.cpp
-- reads.
use adb_src.Base.{
  ℕ, zero, suc, ◌+◌, ◌-◌, ◌*◌, ◌/◌, ◌%◌, ◌^◌, ◌<◌, ◌≤◌, ◌≡◌, Bool, true, false, ◌&&◌, ◌||◌, Option,
  none, some, [], ◌∷◌, refl, arith, ◌==◌, leb, ltb, if◌then◌else◌, Bytes, ap, ◌∙◌,
}

unfoldable pub digit : ℕ → ℕ
digit d = if ltb d 10 then b'0' + d else b'a' + d - 10

-- The value of a hexadecimal digit, upper or lower case.
unfoldable pub hex_value : ℕ → Option ℕ
hex_value c =
    if leb b'0' c && leb c b'9'
    then some (c - b'0')
    else if leb b'a' c && leb c b'f'
    then some (c - b'a' + 10)
    else if leb b'A' c && leb c b'F'
    then some (c - b'A' + 10)
    else none

-- The `w` low hexadecimal digits, the highest first.
abbrev pub fixed_digits : ℕ → ℕ → Bytes → Bytes
fixed_digits zero n rest = rest
fixed_digits (suc w) n rest = fixed_digits w (n / 16) (digit (n % 16) ∷ rest)

strip_zeros : ℕ → Bytes → Bytes
strip_zeros zero ds = ds
strip_zeros (suc k) [] = []
strip_zeros (suc k) (d ∷ ds) = if d == b'0' then strip_zeros k ds else d ∷ ds

-- `%04x` of an `unsigned int`: at least four digits, and more where they are needed.
unfoldable pub format_04x : ℕ → Bytes
unfolding strip_zeros
format_04x n = strip_zeros 4 (fixed_digits 8 n [])

-- The longest run of digits, in the arithmetic of a 64-bit `unsigned long`.
pub digits_value : ℕ → Bytes → ℕ
digits_value n [] = n
digits_value n (c ∷ s) = elim (hex_value c) [ none ↦ n | some d ↦ digits_value (n * 16 + d) s ]

abbrev pub is_space : ℕ → Bool
is_space c = c == 32 || (leb 9 c && leb c 13)

skip_spaces : Bytes → Bytes
skip_spaces [] = []
skip_spaces (c ∷ s) = if is_space c then skip_spaces s else c ∷ s

is_hex_digit : Bytes → Bool
is_hex_digit [] = false
is_hex_digit (c ∷ s) = elim (hex_value c) [ none ↦ false | some _ ↦ true ]

-- "0x" is a prefix only where a digit follows it.
skip_0x : Bytes → Bytes
unfolding is_hex_digit
skip_0x [] = []
skip_0x (c ∷ []) = c ∷ []
skip_0x (c ∷ x ∷ s) =
    if c == b'0' && (x == b'x' || x == b'X') && is_hex_digit s then s else c ∷ x ∷ s

-- A minus sign negates in the unsigned type.
signed_value : Bytes → ℕ
unfolding skip_0x
signed_value [] = 0
signed_value (c ∷ s) =
    if c == b'-'
    then (2 ^ 64 - digits_value 0 (skip_0x s)) % 2 ^ 64
    else if c == b'+'
    then digits_value 0 (skip_0x s)
    else digits_value 0 (skip_0x (c ∷ s))

-- `strtoul(s, 0, 16)`, for a text too short to overflow.
unfoldable pub strtoul_16 : Bytes → ℕ
unfolding signed_value skip_spaces
strtoul_16 s = signed_value (skip_spaces s)

pub hex_value-digit : (d : ℕ) → d < 16 → hex_value (digit d) ≡ some d
unfolding hex_value digit
hex_value-digit d h = ground arith

-- A digit is none of the characters that `strtoul` treats specially in front.
digit_plain :
    (d : ℕ)
    → d < 16
    → (is_space (digit d) ≡ false)
      × ((digit d == b'-') ≡ false)
      × ((digit d == b'+') ≡ false)
      × ((digit d == b'x') ≡ false)
      × ((digit d == b'X') ≡ false)
unfolding digit
digit_plain d h = ground arith

digit_zero : (q : ℕ) → q ≡ 0 → (digit q == b'0') ≡ true
unfolding digit
digit_zero q e = ground arith

digits_value-step :
    (n d : ℕ) (s : Bytes) → d < 16 → digits_value n (digit d ∷ s) ≡ digits_value (n * 16 + d) s
unfolding digits_value
digits_value-step n d s h = rw (hex_value-digit d h, digits_value) refl

digits_value-nil : (n : ℕ) → digits_value n [] ≡ n
unfolding digits_value
digits_value-nil n = refl

skip_spaces_plain : (c : ℕ) (s : Bytes) → is_space c ≡ false → skip_spaces (c ∷ s) ≡ c ∷ s
unfolding skip_spaces
skip_spaces_plain c s h = rw h refl

skip_0x_plain :
    (c x : ℕ) (s : Bytes)
    → (x == b'x') ≡ false
    → (x == b'X') ≡ false
    → skip_0x (c ∷ x ∷ s) ≡ c ∷ x ∷ s
unfolding skip_0x
skip_0x_plain c x s h k = ground arith

signed_value_plain :
    (c : ℕ) (s : Bytes)
    → (c == b'-') ≡ false
    → (c == b'+') ≡ false
    → signed_value (c ∷ s) ≡ digits_value 0 (skip_0x (c ∷ s))
unfolding signed_value
signed_value_plain c s h k = rw (h, k) refl

-- Four printed digits read back.
pub strtoul_16-digits :
    (a b c d : ℕ)
    → a < 16
    → b < 16
    → c < 16
    → d < 16
    → strtoul_16 (digit a ∷ digit b ∷ digit c ∷ digit d ∷ []) ≡ ((a * 16 + b) * 16 + c) * 16 + d
unfolding strtoul_16
strtoul_16-digits a b c d ha hb hc hd =
    let pa = digit_plain a ha in
    let pb = digit_plain b hb in
    ap signed_value (skip_spaces_plain (digit a) (digit b ∷ digit c ∷ digit d ∷ []) pa.0)
    ∙ signed_value_plain (digit a) (digit b ∷ digit c ∷ digit d ∷ []) pa.1 pa.2
    ∙ ap (digits_value 0) (skip_0x_plain (digit a) (digit b) (digit c ∷ digit d ∷ []) pb.3 pb.4)
    ∙ digits_value-step 0 a _ ha
    ∙ digits_value-step (0 * 16 + a) b _ hb
    ∙ digits_value-step ((0 * 16 + a) * 16 + b) c _ hc
    ∙ digits_value-step (((0 * 16 + a) * 16 + b) * 16 + c) d _ hd
    ∙ digits_value-nil ((((0 * 16 + a) * 16 + b) * 16 + c) * 16 + d)
    ∙ omega arith

pub format_04x_short : (n : ℕ) → n < 65536 → format_04x n ≡ fixed_digits 4 n []
unfolding format_04x
format_04x_short n h =
    rw
      (
        digit_zero (n / 16 / 16 / 16 / 16 / 16 / 16 / 16 % 16) (omega arith),
        digit_zero (n / 16 / 16 / 16 / 16 / 16 / 16 % 16) (omega arith),
        digit_zero (n / 16 / 16 / 16 / 16 / 16 % 16) (omega arith),
        digit_zero (n / 16 / 16 / 16 / 16 % 16) (omega arith),
      )
      refl

-- A printed number below 2^16 is four digits, and `strtoul` reads it back.
pub strtoul_16-format_04x : (n : ℕ) → n < 65536 → strtoul_16 (format_04x n) ≡ n
strtoul_16-format_04x n h =
    ap strtoul_16 (format_04x_short n h)
    ∙ strtoul_16-digits (n / 16 / 16 / 16 % 16) (n / 16 / 16 % 16) (n / 16 % 16) (n % 16)
        (omega arith) (omega arith) (omega arith) (omega arith)
    ∙ omega arith

digit_nonzero : (q : ℕ) → 0 < q → q < 16 → (digit q == b'0') ≡ false
unfolding digit
digit_nonzero q h k = ground arith

-- From 2^16 up to 2^20 a printed number has five digits.
pub format_04x_long :
    (n : ℕ) → 65536 ≤ n → n < 1048576 → format_04x n ≡ fixed_digits 4 (n / 16) (digit (n % 16) ∷ [])
unfolding format_04x
format_04x_long n l h =
    rw
      (
        digit_zero (n / 16 / 16 / 16 / 16 / 16 / 16 / 16 % 16) (omega arith),
        digit_zero (n / 16 / 16 / 16 / 16 / 16 / 16 % 16) (omega arith),
        digit_zero (n / 16 / 16 / 16 / 16 / 16 % 16) (omega arith),
        digit_nonzero (n / 16 / 16 / 16 / 16 % 16) (omega arith) (omega arith),
      )
      refl
