-- ===== src/Auth/Order.antt =====
-- In which order a host tries its keys.
use adb_src.Base.{
  ℕ, ◌<◌, true, false, Option, some, List, [], ◌∷◌, ◌++◌, ◌==◌, leb, map, Bytes, ◌≡◌, ◌≢◌, refl, ap,
  ◌∙◌, length, arith, ==_iff,
}
use adb_src.Packet.{Packet, get_apacket, a_auth, max_payload_v1}
use adb_src.Auth.{
  Rsa, adb_auth_get_private_keys, first_key, next_key, adb_auth_sign, publickey_packet, response,
  send_auth_response,
}

-- The answers to a list of tokens, one after the other, and the keys that are left.
abbrev pub after_answer :
    Option Packet → List (Option Packet) × List (Option ℕ) → List (Option Packet) × List (Option ℕ)
after_answer packet (packets, left) = (packet ∷ packets, left)

abbrev pub answers : Rsa → List Bytes → List (Option ℕ) → List (Option Packet) × List (Option ℕ)
answers rsa [] keys = ([], keys)
answers rsa (token ∷ tokens) keys =
    after_answer (send_auth_response rsa token keys).0
      (answers rsa tokens (send_auth_response rsa token keys).1)

-- Each key signs the token at its place: a token has 20 bytes, and RSA_sign gives the signature at
-- that place, which is not empty.
abbrev pub Sign : Rsa → List Bytes → List ℕ → List Bytes → Type 0
Sign rsa [] [] [] = Unit {0}
Sign rsa (token ∷ tokens) (key ∷ keys) (signature ∷ signatures) =
    (length token ≡ 20)
    × (rsa.rsa_sign key token ≡ some signature)
    × (signature ≢ [])
    × Sign rsa tokens keys signatures
Sign _ _ _ _ = ⊥

-- The A_AUTH packet with the data, of the kind 2 for a signature and 3 for a public key.
abbrev pub auth_message : ℕ → Bytes → Option Packet
auth_message kind payload = some (record get_apacket {
  msg = record m { command = a_auth; arg0 = kind; data_length = length payload };
  data_bytes = payload;
})
  where
    open get_apacket use {msg as m}

response-signature :
    (rsa : Rsa) (token : Bytes) (key : ℕ) (signature : Bytes)
    → length token ≡ 20
    → rsa.rsa_sign key token ≡ some signature
    → signature ≢ []
    → response rsa token (some key) ≡ auth_message 2 signature
unfolding response adb_auth_sign
response-signature rsa token key [] size signed some_bytes = absurd (some_bytes refl)
response-signature rsa token key (c ∷ signature) size signed some_bytes =
    let fits : (length token == 20) ≡ true = (==_iff (length token) 20).1 size in
    rw (fits, signed) refl

publickey_packet-message :
    (key : Bytes)
    → key ≢ []
    → length key < max_payload_v1
    → publickey_packet key ≡ auth_message 3 (key ++ (0 ∷ []))
unfolding publickey_packet
publickey_packet-message [] some_bytes short = absurd (some_bytes refl)
publickey_packet-message (c ∷ key) some_bytes short =
    let fits : leb max_payload_v1 (length (c ∷ key)) ≡ false = ground (arith, short) in rw fits refl

module _ (rsa : Rsa) (readable : rsa.userkey ≢ [])
    (short : length rsa.userkey < max_payload_v1) where
  answers-round :
      (tokens : List Bytes) (last : Bytes) (keys : List ℕ) (signatures : List Bytes)
      → Sign rsa tokens keys signatures
      → answers rsa (tokens ++ (last ∷ [])) (adb_auth_get_private_keys keys)
        ≡ (map (auth_message 2) signatures ++ (auth_message 3 (rsa.userkey ++ (0 ∷ [])) ∷ []), [])
  unfolding adb_auth_get_private_keys send_auth_response next_key response
  answers-round [] last [] [] h =
      ap (λ p. (p ∷ [], [])) (publickey_packet-message rsa.userkey readable short)
  answers-round (token ∷ tokens) last (key ∷ keys) (signature ∷ signatures)
        (size, signed, some_bytes, rest) =
      (ap
        (λ p. after_answer p (answers rsa (tokens ++ (last ∷ [])) (adb_auth_get_private_keys keys)))
        (response-signature rsa token key signature size signed some_bytes))
      ∙ ap (after_answer (auth_message 2 signature))
          (answers-round tokens last keys signatures rest)
  answers-round [] last [] (x ∷ l) h = elim h [ ]
  answers-round [] last (k ∷ keys) l h = elim h [ ]
  answers-round (t ∷ tokens) last [] l h = elim h [ ]
  answers-round (t ∷ tokens) last (k ∷ keys) [] h = elim h [ ]

next_key-first :
    (rsa : Rsa) (keys : List ℕ)
    → first_key (adb_auth_get_private_keys keys) ≡ next_key rsa (adb_auth_get_private_keys keys)
unfolding adb_auth_get_private_keys next_key
next_key-first rsa [] = refl
next_key-first rsa (key ∷ keys) = refl

refilled :
    (rsa : Rsa) (token : Bytes) (tokens : List Bytes)
    → answers rsa (token ∷ tokens) []
      ≡ answers rsa (token ∷ tokens) (adb_auth_get_private_keys rsa.keys)
unfolding send_auth_response next_key
refilled rsa token tokens =
    ap (λ k. after_answer (response rsa token k.0) (answers rsa tokens k.1))
      (next_key-first rsa rsa.keys)

-- From a queue that is empty, where every private key of the host signs a token of 20 bytes at its
-- place and the public key is readable and fits a packet: the host answers the tokens with these
-- signatures, in the order of the keys, and the next one, of any length, with its public key and a
-- NUL, after which the queue is empty again.
pub send_auth_response-round :
    (rsa : Rsa) (tokens : List Bytes) (last : Bytes) (signatures : List Bytes)
    → rsa.userkey ≢ []
    → length rsa.userkey < max_payload_v1
    → Sign rsa tokens rsa.keys signatures
    → answers rsa (tokens ++ (last ∷ [])) []
      ≡ (map (auth_message 2) signatures ++ (auth_message 3 (rsa.userkey ++ (0 ∷ [])) ∷ []), [])
send_auth_response-round rsa [] last signatures readable short h =
    refilled rsa last [] ∙ answers-round rsa readable short [] last rsa.keys signatures h
send_auth_response-round rsa (token ∷ tokens) last signatures readable short h =
    refilled rsa token (tokens ++ (last ∷ []))
    ∙ answers-round rsa readable short (token ∷ tokens) last rsa.keys signatures h
