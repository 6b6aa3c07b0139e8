-- ===== src/Socket/Serial/Host.antt =====
-- skip_host_serial points into its string, at a colon; unhex reads what printf wrote.
use adb_src.Base.{
  ℕ, suc, ◌+◌, ◌*◌, ◌/◌, ◌%◌, ◌^◌, ◌<◌, ◌≡◌, inl, inr, true, ◌||◌, Option, none, some, [], ◌∷◌,
  ◌++◌, ◌==◌, Bytes, take, drop, take-append-drop, codes, has_prefix, is_digit, refl, sym, ap, ◌∙◌,
  arith, Bool-cases, append_assoc,
}
use mathlib.Core.Option.{some-injective}
use adb_src.Io.Hex.{digit, hex_value-digit, format_04x, format_04x_short}
use adb_src.Socket.Serial.{
  unhex_loop, unhex, find_byte, skip_digits, colon, starts_with_digit, starts_with, skip_port,
  port_of, found_or, skip_address, skip_scheme, skip_host_serial,
}

unhex_loop-digit :
    (len d n : ℕ) (s : Bytes)
    → d < 16
    → unhex_loop (suc len) (digit d ∷ s) n ≡ unhex_loop len s ((n * 16 + d) % 2 ^ 32)
unfolding unhex_loop
unhex_loop-digit len d n s h = rw (hex_value-digit d h, unhex_loop) refl

-- `unhex` reads the length of a frame back: the number below 2^16 that `%04x` printed.
pub unhex-format_04x : (n : ℕ) → n < 65536 → unhex (format_04x n) 4 ≡ n
unfolding unhex
unhex-format_04x n h =
    let a = n / 16 / 16 / 16 % 16 in
    let b = n / 16 / 16 % 16 in
    let c = n / 16 % 16 in
    let d = n % 16 in
    let step : (((((0 * 16 + a) % 2 ^ 32) * 16 + b) % 2 ^ 32 * 16 + c) % 2 ^ 32 * 16 + d) % 2 ^ 32
        ≡ n =
      omega arith in
    ap (λ s. unhex_loop 4 s 0) (format_04x_short n h)
    ∙ unhex_loop-digit 3 a 0 (digit b ∷ digit c ∷ digit d ∷ []) (omega arith)
    ∙ unhex_loop-digit 2 b ((0 * 16 + a) % 2 ^ 32) (digit c ∷ digit d ∷ []) (omega arith)
    ∙ unhex_loop-digit 1 c _ (digit d ∷ []) (omega arith)
    ∙ unhex_loop-digit 0 d _ [] (omega arith)
    ∙ (unfold unhex_loop in step)

-- `r` is a rest of `s`.
abbrev pub IsRest : Bytes → Bytes → Type 0
IsRest s r = (front : Bytes) × (s ≡ front ++ r)

IsRest-trans : (s r q : Bytes) → IsRest s r → IsRest r q → IsRest s q
IsRest-trans s r q (f, e) (g, h) = (f ++ g, e ∙ ap (λ x. f ++ x) h ∙ sym (append_assoc f g q))

IsRest-drop : (n : ℕ) (s : Bytes) → IsRest s (drop n s)
IsRest-drop n s = (take n s, sym (take-append-drop n s))

find_byte-IsRest :
    (x : ℕ) (s r : Bytes) → find_byte x s ≡ some r → IsRest s r × (starts_with x r ≡ true)
unfolding find_byte
find_byte-IsRest x [] r e = cc
find_byte-IsRest x (c ∷ s) r e = elim (Bool-cases (c == x)) [
  | inl here ↦
      let same : c ∷ s ≡ r = some-injective _ _ (rw here at e) in
      (([], same), sym (ap (starts_with x) same) ∙ here)
  | inr other ↦
      let ((f, h), t) = find_byte-IsRest x s r (rw other at e) in ((c ∷ f, ap (◌∷◌ c) h), t)
]

skip_digits-IsRest : (s : Bytes) → IsRest s (skip_digits s)
unfolding skip_digits
skip_digits-IsRest [] = ([], refl)
skip_digits-IsRest (c ∷ s) = elim (Bool-cases (is_digit c)) [
  | inl skipped ↦ let (f, h) = skip_digits-IsRest s in rw skipped (c ∷ f, ap (◌∷◌ c) h)
  | inr kept ↦ rw kept ([], refl)
]

skip_port-IsRest :
    (s : Bytes)
    → starts_with colon s ≡ true
    → IsRest s (skip_port s) × (starts_with colon (skip_port s) ≡ true)
unfolding skip_port
skip_port-IsRest [] t = cc
skip_port-IsRest (c ∷ s) t = elim (Bool-cases (starts_with_digit s)) [
  | inr other ↦ rw other (([], refl), t)
  | inl digits ↦ elim (Bool-cases (starts_with colon (skip_digits s))) [
    | inr command ↦ rw (digits, command) (([], refl), t)
    | inl port ↦
        let (f, h) = skip_digits-IsRest s in rw (digits, port) ((c ∷ f, ap (◌∷◌ c) h), port)
  ]
]

skip_scheme-IsRest : (s : Bytes) → IsRest s (skip_scheme s)
unfolding skip_scheme
skip_scheme-IsRest s =
    elim (Bool-cases (has_prefix (codes "tcp:") s || has_prefix (codes "udp:") s)) [
      | inl skipped ↦ rw skipped (IsRest-drop 4 s)
      | inr kept ↦ rw kept ([], refl)
    ]

found_or-IsRest :
    (o : Option Bytes) (s : Bytes)
    → ((r : Bytes) → o ≡ some r → IsRest s r)
    → IsRest s (found_or o s)
found_or-IsRest none s h = ([], refl)
found_or-IsRest (some r) s h = h r refl

skip_address-IsRest : (s : Bytes) → IsRest s (skip_address s)
unfolding skip_address
skip_address-IsRest s = elim (Bool-cases (starts_with b'[' s)) [
  | inl bracket ↦
      rw bracket (found_or-IsRest (find_byte b']' s) s (λ r e. (find_byte-IsRest b']' s r e).0))
  | inr plain ↦ rw plain ([], refl)
]

-- A rest of the service that begins with a colon.
abbrev pub PointsAtColon : Bytes → Bytes → Type 0
PointsAtColon service r = IsRest service r × (starts_with colon r ≡ true)

find_colon-PointsAtColon :
    (service s r : Bytes) → IsRest service s → find_byte colon s ≡ some r → PointsAtColon service r
find_colon-PointsAtColon service s r rest e =
    let (behind, t) = find_byte-IsRest colon s r e in (IsRest-trans service s r rest behind, t)

port_of-PointsAtColon :
    (service s r : Bytes) (o : Option Bytes)
    → IsRest service s
    → find_byte colon s ≡ o
    → port_of o ≡ some r
    → PointsAtColon service r
port_of-PointsAtColon service s r none rest found e = cc
port_of-PointsAtColon service s r (some u) rest found e =
    let (to_colon, t) = find_colon-PointsAtColon service s u rest found in
    let (behind, t') = skip_port-IsRest u t in
    let same : skip_port u ≡ r = some-injective _ _ e in
    (
      IsRest-trans service u r to_colon (behind.0, behind.1 ∙ ap (λ x. behind.0 ++ x) same),
      sym (ap (starts_with colon) same) ∙ t',
    )

-- A pointer that `skip_host_serial` returns, other than null, points into the service string, at a
-- colon.
pub skip_host_serial-PointsAtColon :
    (service r : Bytes) → skip_host_serial service ≡ some r → PointsAtColon service r
unfolding skip_host_serial
skip_host_serial-PointsAtColon service r e = elim (Bool-cases (has_prefix (codes "usb:") service)) [
  | inl usb ↦
      find_colon-PointsAtColon service (drop 4 service) r (IsRest-drop 4 service) (rw usb at e)
  | inr n₁ ↦ elim (Bool-cases (has_prefix (codes "product:") service)) [
    | inl product ↦
        find_colon-PointsAtColon service (drop 8 service) r (IsRest-drop 8 service)
          (rw (n₁, product) at e)
    | inr n₂ ↦ elim (Bool-cases (has_prefix (codes "model:") service)) [
      | inl model ↦
          find_colon-PointsAtColon service (drop 6 service) r (IsRest-drop 6 service)
            (rw (n₁, n₂, model) at e)
      | inr n₃ ↦ elim (Bool-cases (has_prefix (codes "device:") service)) [
        | inl device ↦
            find_colon-PointsAtColon service (drop 7 service) r (IsRest-drop 7 service)
              (rw (n₁, n₂, n₃, device) at e)
        | inr n₄ ↦
            port_of-PointsAtColon service (skip_address (skip_scheme service)) r _
              (IsRest-trans service (skip_scheme service) (skip_address (skip_scheme service))
                (skip_scheme-IsRest service) (skip_address-IsRest (skip_scheme service)))
              refl (rw (n₁, n₂, n₃, n₄) at e)
      ]
    ]
  ]
]
