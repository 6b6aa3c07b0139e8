-- ===== src/Socket/Serial.antt =====
-- The text that smart sockets of sockets.cpp take apart: unhex and skip_host_serial. A pointer into
-- a string is the rest of the string from there.
pub mod Host
use adb_src.Base.{
  ℕ, zero, suc, ◌+◌, ◌*◌, ◌%◌, ◌^◌, Bool, false, ◌||◌, Option, none, some, [], ◌∷◌, ◌==◌,
  if◌then◌else◌, Bytes, drop, codes, has_prefix, is_digit,
}
use adb_src.Io.Hex.{hex_value}

-- The end of the string is no digit either.
unfoldable pub unhex_loop : ℕ → Bytes → ℕ → ℕ
unhex_loop zero s n = n
unhex_loop (suc len) [] n = 0xffffffff
unhex_loop (suc len) (c ∷ s) n = elim (hex_value c) [
  | none ↦ 0xffffffff
  | some d ↦ unhex_loop len s ((n * 16 + d) % 2 ^ 32)
]

unfoldable pub unhex : Bytes → ℕ → ℕ
unfolding unhex_loop
unhex s len = unhex_loop len s 0

-- `strchr`: from the first such byte on.
unfoldable pub find_byte : ℕ → Bytes → Option Bytes
find_byte x [] = none
find_byte x (c ∷ s) = if c == x then some (c ∷ s) else find_byte x s

unfoldable pub skip_digits : Bytes → Bytes
skip_digits [] = []
skip_digits (c ∷ s) = if is_digit c then skip_digits s else c ∷ s

abbrev pub colon : ℕ
colon = 58

abbrev pub starts_with_digit : Bytes → Bool
starts_with_digit [] = false
starts_with_digit (c ∷ s) = is_digit c

abbrev pub starts_with : ℕ → Bytes → Bool
starts_with x [] = false
starts_with x (c ∷ s) = c == x

-- A port is skipped: digits between the colon and another colon.
unfoldable pub skip_port : Bytes → Bytes
unfolding skip_digits
skip_port [] = []
skip_port (c ∷ s) =
    if starts_with_digit s
    then (if starts_with colon (skip_digits s) then skip_digits s else c ∷ s)
    else c ∷ s

abbrev pub port_of : Option Bytes → Option Bytes
port_of none = none
port_of (some s) = some (skip_port s)

abbrev pub found_or : Option Bytes → Bytes → Bytes
found_or none s = s
found_or (some r) s = r

unfoldable pub skip_address : Bytes → Bytes
unfolding find_byte
skip_address s = if starts_with b'[' s then found_or (find_byte b']' s) s else s

unfoldable pub skip_scheme : Bytes → Bytes
skip_scheme s = if has_prefix (codes "tcp:") s || has_prefix (codes "udp:") s then drop 4 s else s

unfoldable pub skip_host_serial : Bytes → Option Bytes
unfolding find_byte skip_port skip_address skip_scheme
skip_host_serial service =
    if has_prefix (codes "usb:") service
    then find_byte colon (drop 4 service)
    else if has_prefix (codes "product:") service
    then find_byte colon (drop 8 service)
    else if has_prefix (codes "model:") service
    then find_byte colon (drop 6 service)
    else if has_prefix (codes "device:") service
    then find_byte colon (drop 7 service)
    else port_of (find_byte colon (skip_address (skip_scheme service)))
