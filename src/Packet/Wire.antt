-- ===== src/Packet/Wire.antt =====
-- Packets on a socket: remote_write and remote_read of transport_local.cpp. The six words of
-- `amessage` go out as they lie in the memory of a little-endian machine. `remote_write` takes the
-- message and the payload out of one `apacket`, where they are adjacent.
use adb_src.Base.{
  ℕ, zero, suc, ◌+◌, ◌*◌, ◌/◌, ◌%◌, ◌^◌, ◌≤◌, ◌<◌, ◌≡◌, Bool, true, not, Option, none, some, [],
  ◌∷◌, ◌++◌, refl, sym, ap, ◌∙◌, arith, ◌==◌, if◌then◌else◌, Bytes, take, drop, length,
  length-append, length-take, take-append, drop-append, append_assoc, Bool-cases, inl, inr,
}
use native.Mathlib.Decide.{dec_le}
use adb_src.Packet.{
  Packet, Message, stamp, check_header, check_data, get_apacket, calculate_apacket_checksum,
  checksum_loop,
}
use adb_src.Packet.Checksum.{stamp-check}
use adb_src.Io.{Reader, Writer, Delivers, Accepts, read_fd_exactly, write_fd_exactly}
use adb_src.Io.Exact.{read_fd_exactly_lem, WritesExactly, write_fd_exactly_lem}

abbrev pub le32 : ℕ → Bytes → Bytes
le32 x rest = x % 256 ∷ x / 256 % 256 ∷ x / 65536 % 256 ∷ x / 16777216 % 256 ∷ rest

abbrev pub word : ℕ → ℕ → ℕ → ℕ → ℕ
word a b c d = a + 256 * b + 65536 * c + 16777216 * d

abbrev pub message_size : ℕ
message_size = 24

-- The `amessage` as it lies in memory.
unfoldable pub message_bytes : Message → Bytes
message_bytes m =
    le32 m.command
      (le32 m.arg0 (le32 m.arg1 (le32 m.data_length (le32 m.data_check (le32 m.magic [])))))

-- The reader's view of the bytes that `ReadFdExactly` put into an `amessage`.
unfoldable pub message_of : Bytes → Message
message_of
      (a ∷ b ∷ c ∷ d ∷ e ∷ f ∷ g ∷ h ∷ i ∷ j ∷ k ∷ l ∷ m ∷ n ∷ o ∷ p ∷ q ∷ r ∷ s ∷ t ∷ u ∷ v ∷ w ∷ x
        ∷ rest) =
    record {
      command = word a b c d;
      arg0 = word e f g h;
      arg1 = word i j k l;
      data_length = word m n o p;
      data_check = word q r s t;
      magic = word u v w x;
    }
message_of _ = get_apacket.msg

module _ (W : Writer) where
  -- The result is whether the write went through.
  unfoldable pub remote_write : ℕ → W.Fd → Packet → Option (Bool × W.Fd)
  remote_write fuel fd p =
      write_fd_exactly W fuel fd (message_bytes p.msg ++ take p.msg.data_length p.data_bytes)

module _ (R : Reader) where
  read_payload : Packet → Option Bytes × R.Fd → Option Packet × R.Fd
  read_payload p (none, fd) = (none, fd)
  read_payload p (some payload, fd) =
      let q : Packet = record p { data_bytes = payload } in
      if not (check_data q) then (none, fd) else (some q, fd)

  read_body : ℕ → Packet → R.Fd → Option Packet × R.Fd
  unfolding read_payload
  read_body limit p fd =
      if not (check_header p limit)
      then (none, fd)
      else read_payload p (read_fd_exactly R fd p.msg.data_length)

  read_head : ℕ → Packet → Option Bytes × R.Fd → Option Packet × R.Fd
  unfolding read_body
  read_head limit p (none, fd) = (none, fd)
  read_head limit p (some head, fd) = read_body limit (record p { msg = message_of head }) fd

  -- `none` where the source returns -1. `p` is the packet to fill, `limit` the transport's payload.
  unfoldable pub remote_read : ℕ → Packet → R.Fd → Option Packet × R.Fd
  unfolding read_head
  remote_read limit p fd = read_head limit p (read_fd_exactly R fd message_size)

-- Every field of the message is a `uint32_t`.
pub record IsMessage (m : Message) : Type 0 where
  pub command_word : m.command < 2 ^ 32
  pub arg0_word : m.arg0 < 2 ^ 32
  pub arg1_word : m.arg1 < 2 ^ 32
  pub data_length_word : m.data_length < 2 ^ 32
  pub data_check_word : m.data_check < 2 ^ 32
  pub magic_word : m.magic < 2 ^ 32

pub word-le32 :
    (x : ℕ) → x < 2 ^ 32 → word (x % 256) (x / 256 % 256) (x / 65536 % 256) (x / 16777216 % 256) ≡ x
word-le32 x h = omega arith

message_of-message_bytes : (m : Message) → IsMessage m → message_of (message_bytes m) ≡ m
unfolding message_of message_bytes
message_of-message_bytes m h = λ i. record {
  command = word-le32 m.command h.command_word i;
  arg0 = word-le32 m.arg0 h.arg0_word i;
  arg1 = word-le32 m.arg1 h.arg1_word i;
  data_length = word-le32 m.data_length h.data_length_word i;
  data_check = word-le32 m.data_check h.data_check_word i;
  magic = word-le32 m.magic h.magic_word i;
}

length-message_bytes : (m : Message) → length (message_bytes m) ≡ message_size
unfolding message_bytes
length-message_bytes m = refl

checksum_loop-take : (n s : ℕ) (x : Bytes) → checksum_loop n (take n x) s ≡ checksum_loop n x s
unfolding checksum_loop
checksum_loop-take zero s x = refl
checksum_loop-take (suc n) s [] = refl
checksum_loop-take (suc n) s (b ∷ x) = checksum_loop-take n _ x

check_data-take :
    (p q : Packet)
    → q.msg ≡ p.msg
    → q.data_bytes ≡ take p.msg.data_length p.data_bytes
    → check_data p ≡ true
    → check_data q ≡ true
unfolding check_data calculate_apacket_checksum
check_data-take p q em ed ok =
    (λ i. checksum_loop (em i).data_length (ed i) 0 == (em i).data_check) ∙ rw checksum_loop-take ok

check_header-msg :
    (p q : Packet) (limit : ℕ) → q.msg ≡ p.msg → check_header q limit ≡ check_header p limit
unfolding check_header
check_header-msg p q limit e = λ i. check_header (record p { msg = e i }) limit

check_header-limit :
    (p : Packet) (limit : ℕ) → check_header p limit ≡ true → p.msg.data_length ≤ limit
unfolding check_header
check_header-limit p limit h = ground arith

-- `remote_write` of a packet whose payload is in its buffer sends the message and the payload,
-- and nothing behind it, or a proper front of these if it fails.
pub remote_write_lem :
    (W : Writer) (A : Accepts W) (fuel : ℕ) (fd : W.Fd) (p : Packet)
    → p.msg.data_length ≤ length p.data_bytes
    → message_size + p.msg.data_length + A.stalls fd ≤ fuel
    → WritesExactly W A fd
        (message_bytes p.msg ++ take p.msg.data_length p.data_bytes)
        (remote_write W fuel fd p)
unfolding remote_write
remote_write_lem W A fuel fd p fits enough = write_fd_exactly_lem W A fuel fd _ (
    omega (
      arith,
      length-append (message_bytes p.msg) (take p.msg.data_length p.data_bytes),
      length-message_bytes p.msg,
      length-take p.msg.data_length p.data_bytes,
    ))

pub read_next :
    (R : Reader) (D : Delivers R) (fd : R.Fd) (front rest : Bytes) (n : ℕ)
    → length front ≡ n
    → D.pending fd ≡ front ++ rest
    → (fd' : R.Fd) × (read_fd_exactly R fd n ≡ (some front, fd')) × (D.pending fd' ≡ rest)
read_next R D fd front rest n size held =
    let (fd', e, p) =
      (read_fd_exactly_lem R D fd n).0 (omega (arith, ap length held, length-append front rest)) in
    (
      fd',
      e
          ∙ ap (λ b. (some b, fd'))
              (ap (take n) held
                ∙ ap (λ k. take k (front ++ rest)) (sym size)
                ∙ take-append front rest),
      p ∙ ap (drop n) held ∙ ap (λ k. drop k (front ++ rest)) (sym size) ∙ drop-append front rest,
    )

module _ (R : Reader) (D : Delivers R) where
  remote_read-accepts :
      (fd : R.Fd) (into : Packet) (limit : ℕ) (m : Message) (payload rest : Bytes)
      → IsMessage m
      → length payload ≡ m.data_length
      → check_header (record into { msg = m }) limit ≡ true
      → check_data (record into { msg = m; data_bytes = payload }) ≡ true
      → D.pending fd ≡ (message_bytes m ++ payload) ++ rest
      → (fd' : R.Fd) × (remote_read R limit into fd
          ≡ (some (record into { msg = m; data_bytes = payload }), fd'))
        × (D.pending fd' ≡ rest)
  unfolding remote_read
  remote_read-accepts fd into limit m payload rest words size header good held =
      let (fd₁, e₁, p₁) =
        read_next R D fd (message_bytes m) (payload ++ rest) message_size (length-message_bytes m)
          (held ∙ append_assoc (message_bytes m) payload rest) in
      let (fd₂, e₂, p₂) = read_next R D fd₁ payload rest m.data_length size p₁ in
      (
        fd₂,
        ap (read_head R limit into) e₁
            ∙ ap (λ k. read_body R limit (record into { msg = k }) fd₁)
                (message_of-message_bytes m words)
            ∙ rw header (ap (read_payload R (record into { msg = m })) e₂ ∙ rw good refl),
        p₂,
      )

  -- A packet that `send_packet` stamped, sent by `remote_write`, is read back by `remote_read` of
  -- a transport that allows its length: the same message and the same payload, and the bytes that
  -- follow are left to the next read.
  pub remote_read-stamp :
      (fd : R.Fd) (p into : Packet) (limit : ℕ) (rest : Bytes)
      → IsMessage (stamp p).msg
      → p.msg.data_length ≤ length p.data_bytes
      → p.msg.data_length ≤ limit
      → D.pending fd ≡ (message_bytes (stamp p).msg ++ take p.msg.data_length p.data_bytes) ++ rest
      → (fd' : R.Fd) × (remote_read R limit into fd ≡ (
        some
            (record into { msg = (stamp p).msg; data_bytes = take p.msg.data_length p.data_bytes }),
        fd',
      ))
        × (D.pending fd' ≡ rest)
  unfolding stamp
  remote_read-stamp fd p into limit rest words fits allowed held =
      remote_read-accepts fd into limit (stamp p).msg (take p.msg.data_length p.data_bytes) rest
        words (length-take p.msg.data_length p.data_bytes ∙ omega arith)
        (check_header-msg (stamp p) (record into { msg = (stamp p).msg }) limit refl
          ∙ (stamp-check p limit).2 allowed)
        (check_data-take (stamp p)
          (record into { msg = (stamp p).msg; data_bytes = take p.msg.data_length p.data_bytes })
          refl refl (stamp-check p limit).0)
        held

  read_payload-checked :
      (p : Packet) (r : Option Bytes × R.Fd) (q : Packet) (fd' : R.Fd)
      → read_payload R p r ≡ (some q, fd')
      → (check_data q ≡ true) × (q.msg ≡ p.msg) × (r.0 ≡ some q.data_bytes)
  unfolding read_payload
  read_payload-checked p (none, fd) q fd' e = cc
  read_payload-checked p (some payload, fd) q fd' e = ground arith

  -- A successful `ReadFdExactly` gives as many bytes as were asked for.
  read_fd_exactly-length :
      (fd : R.Fd) (n : ℕ) (b : Bytes) → (read_fd_exactly R fd n).0 ≡ some b → length b ≡ n
  read_fd_exactly-length fd n b e = elim (dec_le n (length (D.pending fd))) [
    | yes fits ↦
        let (g, r, _) = (read_fd_exactly_lem R D fd n).0 fits in
        let same : some (take n (D.pending fd)) ≡ some b = ap (λ x. x.0) (sym r) ∙ e in
        let held : take n (D.pending fd) ≡ b = cc in
        omega (arith, ap length held, length-take n (D.pending fd))
    | no short ↦
        let (g, r) = (read_fd_exactly_lem R D fd n).1 (omega arith) in
        let none_is_some : none ≡ some b = ap (λ x. x.0) (sym r) ∙ e in cc
  ]

  read_body-checked :
      (limit : ℕ) (p : Packet) (fd : R.Fd) (q : Packet) (fd' : R.Fd)
      → read_body R limit p fd ≡ (some q, fd')
      → (check_header q limit ≡ true)
        × (check_data q ≡ true)
        × (length q.data_bytes ≡ q.msg.data_length)
  unfolding read_body
  read_body-checked limit p fd q fd' e = elim (Bool-cases (check_header p limit)) [
    | inl good ↦
        let (data_good, same, held) = read_payload-checked p _ q fd' (rw good at e) in
        (
          check_header-msg p q limit same ∙ good,
          data_good,
          read_fd_exactly-length fd p.msg.data_length q.data_bytes held
              ∙ ap (λ m. m.data_length) (sym same),
        )
    | inr bad ↦ let no_packet = rw bad at e in cc
  ]

  read_head-checked :
      (limit : ℕ) (p : Packet) (r : Option Bytes × R.Fd) (q : Packet) (fd' : R.Fd)
      → read_head R limit p r ≡ (some q, fd')
      → (check_header q limit ≡ true)
        × (check_data q ≡ true)
        × (length q.data_bytes ≡ q.msg.data_length)
  unfolding read_head
  read_head-checked limit p (none, fd) q fd' e = cc
  read_head-checked limit p (some head, fd) q fd' e = read_body-checked limit _ fd q fd' e

  -- Whatever `remote_read` returns has passed both checks, and its payload is exactly as long as
  -- its header says, within the limit of the transport.
  pub remote_read-checked :
      (fd : R.Fd) (into : Packet) (limit : ℕ) (q : Packet) (fd' : R.Fd)
      → remote_read R limit into fd ≡ (some q, fd')
      → (check_header q limit ≡ true)
        × (check_data q ≡ true)
        × (length q.data_bytes ≡ q.msg.data_length)
        × (q.msg.data_length ≤ limit)
  unfolding remote_read
  remote_read-checked fd into limit q fd' e =
      let (h, d, l) = read_head-checked limit into (read_fd_exactly R fd message_size) q fd' e in
      (h, d, l, check_header-limit q limit h)
