-- ===== src/Packet/Checksum.antt =====
-- What the two checks of transport.cpp accept: packets that `send_packet` stamped, and no payload
-- with one byte changed. The checksum of a payload within the limits never wraps.
use adb_src.Base.{
  ℕ, zero, suc, ◌+◌, ◌*◌, ◌%◌, ◌^◌, ◌≤◌, ◌<◌, true, false, [], ◌∷◌, ◌++◌, ◌≡◌, ◌≢◌, ap, ◌∙◌, arith,
  ◌==◌, Bytes, AreBytes, take, length, ==_refl, ==_iff, Bool-cases, inl, inr,
}
use adb_src.Packet.{
  Packet, checksum_loop, calculate_apacket_checksum, stamp, check_header, check_data, max_payload,
}

abbrev pub sum : Bytes → ℕ
sum [] = 0
sum (b ∷ x) = b + sum x

sum-take-bound : (n : ℕ) (x : Bytes) → AreBytes x → sum (take n x) ≤ 255 * n
sum-take-bound zero x h = omega arith
sum-take-bound (suc n) [] h = omega arith
sum-take-bound (suc n) (b ∷ x) h = omega (arith, sum-take-bound n x h.1)

checksum_loop-sum :
    (n : ℕ) (x : Bytes) (s : ℕ)
    → AreBytes x
    → s + 255 * n < 2 ^ 32
    → checksum_loop n x s ≡ s + sum (take n x)
unfolding checksum_loop
checksum_loop-sum zero x s h k = omega arith
checksum_loop-sum (suc n) [] s h k = omega arith
checksum_loop-sum (suc n) (b ∷ x) s h k =
    let e : (s + b) % 2 ^ 32 ≡ s + b = omega arith in
    rw e (omega (arith, checksum_loop-sum n x (s + b) h.1 (omega arith)))

-- For a payload of bytes within `MAX_PAYLOAD`, the 32-bit checksum is the plain sum of the first
-- `data_length` bytes, and stays below 255 times the limit: the addition never wraps.
pub checksum-sum :
    (p : Packet)
    → AreBytes p.data_bytes
    → p.msg.data_length ≤ max_payload
    → (calculate_apacket_checksum p ≡ sum (take p.msg.data_length p.data_bytes))
      × (calculate_apacket_checksum p ≤ 255 * p.msg.data_length)
unfolding calculate_apacket_checksum
checksum-sum p h k =
    let e = checksum_loop-sum p.msg.data_length p.data_bytes 0 h (omega arith) in
    (omega (arith, e), omega (arith, e, sum-take-bound p.msg.data_length p.data_bytes h))

-- A packet that `send_packet` stamped passes `check_data`, and passes `check_header` exactly when
-- its payload length is within the limit of the receiving transport.
pub stamp-check :
    (p : Packet) (limit : ℕ)
    → (check_data (stamp p) ≡ true)
      × (check_header (stamp p) limit ≡ true → p.msg.data_length ≤ limit)
      × (p.msg.data_length ≤ limit → check_header (stamp p) limit ≡ true)
unfolding stamp check_data check_header calculate_apacket_checksum
stamp-check p limit = (==_refl _, (λ h. ground arith), λ h. ground arith)

sum-take-change :
    (pre post : Bytes) (b c n : ℕ)
    → length pre < n
    → sum (take n (pre ++ (b ∷ post))) + c ≡ sum (take n (pre ++ (c ∷ post))) + b
sum-take-change [] post b c zero h = elim h [ ]
sum-take-change [] post b c (suc n) h = omega arith
sum-take-change (x ∷ pre) post b c zero h = elim h [ ]
sum-take-change (x ∷ pre) post b c (suc n) h =
    omega (arith, sum-take-change pre post b c n (omega arith))

AreBytes-swap :
    (pre post : Bytes) (b c : ℕ)
    → c < 256
    → AreBytes (pre ++ (b ∷ post))
    → AreBytes (pre ++ (c ∷ post))
AreBytes-swap [] post b c h k = (h, k.1)
AreBytes-swap (x ∷ pre) post b c h k = (k.0, AreBytes-swap pre post b c h k.1)

-- If a packet of bytes within the limit passes `check_data`, then the same packet with any one
-- byte of its payload replaced by a different byte does not.
pub check_data-detects :
    (p : Packet) (pre post : Bytes) (b c : ℕ)
    → p.data_bytes ≡ pre ++ (b ∷ post)
    → AreBytes p.data_bytes
    → c < 256
    → b ≢ c
    → length pre < p.msg.data_length
    → p.msg.data_length ≤ max_payload
    → check_data p ≡ true
    → check_data (record p { data_bytes = pre ++ (c ∷ post) }) ≡ false
unfolding check_data
check_data-detects p pre post b c e h hc ne within limit ok =
    let q : Packet = record p { data_bytes = pre ++ (c ∷ post) } in
    let s₀ : calculate_apacket_checksum p ≡ sum (take p.msg.data_length (pre ++ (b ∷ post))) =
      (checksum-sum p h limit).0 ∙ ap (λ x. sum (take p.msg.data_length x)) e in
    let s₁ : calculate_apacket_checksum q ≡ sum (take p.msg.data_length (pre ++ (c ∷ post))) =
      (checksum-sum q (AreBytes-swap pre post b c hc (rw e at h)) limit).0 in
    let d = sum-take-change pre post b c p.msg.data_length within in
    let same : calculate_apacket_checksum p ≡ p.msg.data_check = (==_iff _ _).0 ok in
    elim (Bool-cases (calculate_apacket_checksum q == p.msg.data_check)) [
      | inl eq ↦
          let eq' : calculate_apacket_checksum q ≡ p.msg.data_check = (==_iff _ _).0 eq in
          absurd (ne (omega (arith, s₀, s₁, d, same, eq')))
      | inr differ ↦ differ
    ]
