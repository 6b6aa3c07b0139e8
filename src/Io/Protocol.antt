-- ===== src/Io/Protocol.antt =====
-- The length-prefixed strings of adb_io.cpp: SendProtocolString, ReadProtocolString, SendOkay and
-- SendFail. The stream carries what printf writes, so a string stops at its first NUL.
use adb_src.Base.{
  inl, inr, ℕ, zero, suc, ◌+◌, ◌-◌, ◌/◌, ◌%◌, ◌^◌, ◌≤◌, ◌<◌, ◌≡◌, ◌≢◌, Bool, true, false, Option,
  none, some, [], ◌∷◌, ◌++◌, ◌==◌, ltb, leb, if◌then◌else◌, Bytes, codes, length, take, drop, refl,
  arith, All, append_assoc, sym, ap, ◌∙◌, length-append, take-append, drop-append, length-take,
}
use adb_src.Packet.{max_payload}
use adb_src.Io.{Reader, Writer, Delivers, Accepts, read_fd_exactly, write_fd_exactly}
use adb_src.Io.Hex.{
  digit, fixed_digits, format_04x, strtoul_16, format_04x_short, format_04x_long,
  strtoul_16-format_04x, strtoul_16-digits,
}
use adb_src.Io.Exact.{read_fd_exactly_lem, WritesExactly, write_fd_exactly_lem}

-- `%.*s` of a `c_str()`: at most `n` bytes, up to the first NUL.
pub print_prefix : ℕ → Bytes → Bytes
print_prefix zero s = []
print_prefix (suc n) [] = []
print_prefix (suc n) (c ∷ s) = if c == 0 then [] else c ∷ print_prefix n s

pub data ReadError : Type 0 where
  status_length status_message length_error : ReadError

pub data ReadOutcome : Type 0 where
  ok : Bytes → ReadOutcome
  err : ReadError → ReadOutcome

module _ (W : Writer) where
  -- `%04x%.*s` with the length and the string.
  unfoldable pub send_protocol_string : ℕ → W.Fd → Bytes → Option (Bool × W.Fd)
  send_protocol_string fuel fd s =
      let size = length s % 2 ^ 32 in
      if ltb (max_payload - 4) size
      then some (false, fd)
      else write_fd_exactly W fuel fd (format_04x size ++ print_prefix size s)

  unfoldable pub send_okay : ℕ → W.Fd → Option (Bool × W.Fd)
  send_okay fuel fd = write_fd_exactly W fuel fd (codes "OKAY")

  then_send : ℕ → Bytes → Option (Bool × W.Fd) → Option (Bool × W.Fd)
  then_send fuel s none = none
  then_send fuel s (some (false, fd)) = some (false, fd)
  then_send fuel s (some (true, fd)) = send_protocol_string fuel fd s

  unfoldable pub send_fail : ℕ → W.Fd → Bytes → Option (Bool × W.Fd)
  unfolding then_send
  send_fail fuel fd reason = then_send fuel reason (write_fd_exactly W fuel fd (codes "FAIL"))

module _ (R : Reader) where
  read_message : Option Bytes × R.Fd → ReadOutcome × R.Fd
  read_message (none, fd) = (err status_message, fd)
  read_message (some s, fd) = (ok s, fd)

  -- `s->resize(len)` throws where no string is that long.
  read_sized : ℕ → R.Fd → ReadOutcome × R.Fd
  unfolding read_message
  read_sized len fd =
      if leb (2 ^ 63) len then (err length_error, fd) else read_message (read_fd_exactly R fd len)

  read_length : Option Bytes × R.Fd → ReadOutcome × R.Fd
  unfolding read_sized
  read_length (none, fd) = (err status_length, fd)
  read_length (some buf, fd) = read_sized (strtoul_16 buf) fd

  unfoldable pub read_protocol_string : R.Fd → ReadOutcome × R.Fd
  unfolding read_length
  read_protocol_string fd = read_length (read_fd_exactly R fd 4)

abbrev pub IsText : Bytes → Type 0
IsText = All (λ c. 0 < c)

print_prefix_all : (s : Bytes) → IsText s → print_prefix (length s) s ≡ s
unfolding print_prefix
print_prefix_all [] h = refl
print_prefix_all (c ∷ s) h =
    let e : (c == 0) ≡ false = ground (arith, h.0) in rw e (ap (◌∷◌ c) (print_prefix_all s h.1))

-- What the peer receives for a text: its length in hexadecimal, and the text.
abbrev pub frame : Bytes → Bytes
frame s = format_04x (length s) ++ s

-- On a text that fits a message, `SendProtocolString` returns and sends exactly the frame of the
-- text, or a proper front of it if it returns false. On a longer text, below 2^32 bytes, it
-- returns false and sends nothing.
pub send_protocol_string-frame :
    (W : Writer) (A : Accepts W) (fuel : ℕ) (fd : W.Fd) (s : Bytes)
    → IsText s
    → length s < 2 ^ 32
    → length (frame s) + A.stalls fd ≤ fuel
    → (length s ≤ max_payload - 4
        → WritesExactly W A fd (frame s) (send_protocol_string W fuel fd s))
      × (max_payload - 4 < length s → send_protocol_string W fuel fd s ≡ some (false, fd))
unfolding send_protocol_string
send_protocol_string-frame W A fuel fd s text small enough =
    let e : length s % 2 ^ 32 ≡ length s = omega arith in
    rw e (
      (λ fits.
          let t : ltb (max_payload - 4) (length s) ≡ false = ground arith in
          rw (t, print_prefix_all s text) (write_fd_exactly_lem W A fuel fd (frame s) enough)),
      λ long. let t : ltb (max_payload - 4) (length s) ≡ true = ground arith in rw t refl,
    )

WritesExactly-returns :
    (W : Writer) (A : Accepts W) (fd : W.Fd) (buf : Bytes) (r : Option (Bool × W.Fd))
    → WritesExactly W A fd buf r
    → (b : Bool) × (fd' : W.Fd) × (r ≡ some (b, fd'))
WritesExactly-returns W A fd buf r (inl (fd', e, _, _)) = (true, fd', e)
WritesExactly-returns W A fd buf r (inr (fd', _, _, _, e, _, _)) = (false, fd', e)

-- `SendFail` of a text that fits a message returns, given fuel for its bytes and the `EAGAIN`
-- answers.
pub send_okay-returns :
    (W : Writer) (A : Accepts W) (fuel : ℕ) (fd : W.Fd)
    → 4 + A.stalls fd ≤ fuel
    → (b : Bool) × (fd' : W.Fd) × (send_okay W fuel fd ≡ some (b, fd'))
unfolding send_okay
send_okay-returns W A fuel fd enough =
    WritesExactly-returns W A fd (codes "OKAY") _
      (write_fd_exactly_lem W A fuel fd (codes "OKAY") (omega arith))

pub send_fail-returns :
    (W : Writer) (A : Accepts W) (fuel : ℕ) (fd : W.Fd) (reason : Bytes)
    → IsText reason
    → length reason ≤ max_payload - 4
    → 4 + length (frame reason) + A.stalls fd ≤ fuel
    → (b : Bool) × (fd' : W.Fd) × (send_fail W fuel fd reason ≡ some (b, fd'))
unfolding send_fail then_send
send_fail-returns W A fuel fd reason text small enough =
    elim (write_fd_exactly_lem W A fuel fd (codes "FAIL") (omega arith)) [
      | inl (fd₁, e, _, fewer) ↦
          let (b, fd₂, e₂) = WritesExactly-returns W A fd₁ (frame reason) _ (
            (send_protocol_string-frame W A fuel fd₁ reason text (omega arith) (omega arith)).0
              small) in
          (b, fd₂, ap (then_send W fuel reason) e ∙ e₂)
      | inr (fd₁, _, _, _, e, _, _) ↦ (false, fd₁, ap (then_send W fuel reason) e)
    ]

module _ (R : Reader) (D : Delivers R) where
  -- Reading a frame whose four length digits `ds` stand for `n`, on a descriptor that holds them
  -- and at least `n` bytes more.
  read_frame :
      (fd : R.Fd) (ds rest : Bytes) (n : ℕ)
      → D.pending fd ≡ ds ++ rest
      → length ds ≡ 4
      → strtoul_16 ds ≡ n
      → n ≤ length rest
      → n < 65536
      → (fd' : R.Fd) × (read_protocol_string R fd ≡ (ok (take n rest), fd'))
        × (D.pending fd' ≡ drop n rest)
  unfolding read_protocol_string
  read_frame fd ds rest n held four value fits small =
      let total : length (D.pending fd) ≡ length ds + length rest =
        ap length held ∙ length-append ds rest in
      let (fd₁, e₁, p₁) = (read_fd_exactly_lem R D fd 4).0 (omega arith) in
      let front : take 4 (D.pending fd) ≡ ds =
        ap (take 4) held ∙ ap (λ k. take k (ds ++ rest)) (sym four) ∙ take-append ds rest in
      let behind : D.pending fd₁ ≡ rest =
        p₁ ∙ ap (drop 4) held ∙ ap (λ k. drop k (ds ++ rest)) (sym four) ∙ drop-append ds rest in
      let (fd₂, e₂, p₂) = (read_fd_exactly_lem R D fd₁ n).0 (omega (arith, ap length behind)) in
      let t : leb (2 ^ 63) n ≡ false = ground arith in
      (
        fd₂,
        ap (read_length R) (e₁ ∙ ap (λ b. (some b, fd₁)) front)
            ∙ ap (λ k. read_sized R k fd₁) value
            ∙ rw t (ap (read_message R) (e₂ ∙ ap (λ b. (some (take n b), fd₂)) behind)),
        p₂ ∙ ap (drop n) behind,
      )

  -- A text of at most 65535 bytes is read back from its frame, and what follows is left.
  pub read_protocol_string-frame :
      (fd : R.Fd) (s rest : Bytes)
      → length s < 65536
      → D.pending fd ≡ frame s ++ rest
      → (fd' : R.Fd) × (read_protocol_string R fd ≡ (ok s, fd')) × (D.pending fd' ≡ rest)
  read_protocol_string-frame fd s rest small held =
      let (fd', e, p) =
        read_frame fd (format_04x (length s)) (s ++ rest) (length s)
          (held ∙ append_assoc (format_04x (length s)) s rest)
          (ap length (format_04x_short (length s) small)) (strtoul_16-format_04x (length s) small)
          (omega (arith, length-append s rest)) small in
      (fd', e ∙ ap (λ b. (ok b, fd')) (take-append s rest), p ∙ drop-append s rest)

  -- A text that `SendProtocolString` accepts with a length of 65536 or more is never read back:
  -- its length has five digits, the reader takes four, and returns a string of a sixteenth of the
  -- length.
  pub read_protocol_string-oversize :
      (fd : R.Fd) (s rest : Bytes)
      → 65536 ≤ length s
      → length s ≤ max_payload - 4
      → D.pending fd ≡ frame s ++ rest
      → (t : Bytes) × (fd' : R.Fd) × (read_protocol_string R fd ≡ (ok t, fd'))
        × (length t ≡ length s / 16)
        × (t ≢ s)
  read_protocol_string-oversize fd s rest big fits held =
      let n = length s in
      let q = n / 16 in
      let tail : Bytes = digit (n % 16) ∷ (s ++ rest) in
      let total : length tail ≡ suc (n + length rest) = ap suc (length-append s rest) in
      let (fd', e, _) =
        read_frame fd (fixed_digits 4 q []) tail q
          (held ∙ ap (λ b. (b ++ s) ++ rest) (format_04x_long n big (omega arith))) refl
          (strtoul_16-digits (q / 16 / 16 / 16 % 16) (q / 16 / 16 % 16) (q / 16 % 16) (q % 16)
              (omega arith) (omega arith) (omega arith) (omega arith)
            ∙ omega arith)
          (omega arith) (omega arith) in
      let size : length (take q tail) ≡ q = length-take q tail ∙ omega arith in
      (take q tail, fd', e, size, λ same. absurd (omega (arith, size, ap length same)))
