-- ===== src/Auth.antt =====
-- Authentication on a host, in adb_auth_host.cpp: the private keys that a transport has still to
-- try, and the answer to a token. A key is a number, a handle; the null pointer at the end of the
-- queue is `none`. The known keys, RSA_sign of OpenSSL and the file of the public key are
-- parameters, the last one empty where it cannot be read.
pub mod Order
use adb_src.Base.{
  ℕ, not, Option, none, some, List, [], ◌∷◌, ◌++◌, ◌==◌, leb, if◌then◌else◌, Bytes, length,
}
use adb_src.Packet.{Packet, get_apacket, a_auth, max_payload_v1}

abbrev pub adb_auth_token : ℕ
adb_auth_token = 1

abbrev pub adb_auth_signature : ℕ
adb_auth_signature = 2

abbrev pub adb_auth_rsapublickey : ℕ
adb_auth_rsapublickey = 3

abbrev pub token_size : ℕ
token_size = 20

pub record Rsa : Type 0 where
  pub keys : List ℕ
  pub rsa_sign : ℕ → Bytes → Option Bytes
  pub userkey : Bytes

-- With the null pointer behind the known keys.
unfoldable pub adb_auth_get_private_keys : List ℕ → List (Option ℕ)
adb_auth_get_private_keys [] = none ∷ []
adb_auth_get_private_keys (key ∷ keys) = some key ∷ adb_auth_get_private_keys keys

-- NextKey on the keys that are left: the first of them, and the rest. A queue that was filled is
-- not empty.
abbrev pub first_key : List (Option ℕ) → Option ℕ × List (Option ℕ)
first_key [] = (none, [])
first_key (key ∷ keys) = (key, keys)

unfoldable pub next_key : Rsa → List (Option ℕ) → Option ℕ × List (Option ℕ)
unfolding adb_auth_get_private_keys
next_key rsa [] = first_key (adb_auth_get_private_keys rsa.keys)
next_key rsa (key ∷ keys) = (key, keys)

abbrev pub auth_packet : ℕ → Bytes → Packet
auth_packet arg0 payload = record get_apacket {
  msg = record m { command = a_auth; arg0 = arg0; data_length = length payload };
  data_bytes = payload;
}
  where
    open get_apacket use {msg as m}

-- The packet of send_auth_publickey: the key with its NUL, or none.
unfoldable pub publickey_packet : Bytes → Option Packet
publickey_packet [] = none
publickey_packet (c ∷ key) =
    if leb max_payload_v1 (length (c ∷ key))
    then none
    else some (auth_packet adb_auth_rsapublickey ((c ∷ key) ++ (0 ∷ [])))

-- adb_auth_sign.
unfoldable pub adb_auth_sign : Rsa → ℕ → Bytes → Option Bytes
adb_auth_sign rsa key token =
    if not (length token == token_size) then none else rsa.rsa_sign key token

-- A signature of no bytes counts as an error.
abbrev pub signature_packet : Option Bytes → Option Packet
signature_packet none = none
signature_packet (some []) = none
signature_packet (some (c ∷ signature)) = some (auth_packet adb_auth_signature (c ∷ signature))

unfoldable pub response : Rsa → Bytes → Option ℕ → Option Packet
unfolding publickey_packet adb_auth_sign
response rsa token none = publickey_packet rsa.userkey
response rsa token (some key) = signature_packet (adb_auth_sign rsa key token)

-- send_auth_response: the packet that it sends, if any, and the keys that are left.
unfoldable pub send_auth_response : Rsa → Bytes → List (Option ℕ) → Option Packet × List (Option ℕ)
unfolding response next_key
send_auth_response rsa token keys =
    (response rsa token (next_key rsa keys).0, (next_key rsa keys).1)
