-- ===== src/ShellProtocol/Chunks.antt =====
-- A packet that is longer than the buffer comes out of `Read` in chunks that make it up.
use adb_src.Base.{
  ℕ, zero, suc, ◌+◌, ◌%◌, ◌^◌, ◌-◌, ◌≤◌, ◌<◌, ◌≡◌, min, true, false, some, List, [], ◌∷◌, ◌++◌,
  ◌==◌, Bytes, take, drop, length, refl, sym, ap, subst, ◌∙◌, arith, append_assoc, append-nil,
  take-append-drop, length-take, take_all, drop_all, ==_iff, length-drop, inl, inr, Bool-cases, All,
}
use adb_src.Io.{Reader, Writer, Delivers, Accepts}
use adb_src.Io.Exact.{WritesExactly, write_fd_exactly_lem}
use adb_src.Packet.Wire.{le32, word-le32, read_next}
use adb_src.ShellProtocol.{
  ShellProtocol, header_of, read_data, read_chunk, read_header, read, write,
}

-- The packets that `Read` hands out: those that `Write` sends for an id and data.
abbrev pub shell_packet : ℕ → Bytes → Bytes
shell_packet i w = i ∷ le32 (length w) w

-- Calls of `Read` on the descriptor `fd`, from object `p` to object `q` and descriptor `fd'`,
-- that all returned true and gave these chunks.
pub data Reads (R : Reader) (q : ShellProtocol) (fd' : R.Fd)
    : ShellProtocol → R.Fd → List Bytes → Type 0 where
  done : {p : ShellProtocol} {fd : R.Fd} → p ≡ q → fd ≡ fd' → Reads R q fd' p fd []
  call :
      {p p₁ : ShellProtocol} {fd fd₁ : R.Fd} {chunks : List Bytes}
      → read R p fd ≡ (some p₁, fd₁)
      → Reads R q fd' p₁ fd₁ chunks
      → Reads R q fd' p fd (take p₁.data_length p₁.buffer_data ∷ chunks)

abbrev pub concat : List Bytes → Bytes
concat [] = []
concat (c ∷ cs) = c ++ concat cs

-- The outcome of reading one packet with data `w` to its end.
pub record Chunked (R : Reader) (D : Delivers R) (p : ShellProtocol) (fd : R.Fd) (i : ℕ)
    (w rest : Bytes) : Type 0 where
  pub last : ShellProtocol
  pub last_fd : R.Fd
  pub chunks : List Bytes
  pub reads : Reads R last last_fd p fd chunks
  pub whole : concat chunks ≡ w
  pub small : All (λ c. length c ≤ p.capacity) chunks
  pub same_id : last.id ≡ i
  pub finished : last.bytes_left ≡ 0
  pub left : D.pending last_fd ≡ rest

module _ (R : Reader) (D : Delivers R) where
  -- One turn: the next `n` bytes of the packet, with `n` the smaller of what is left and the room.
  read_chunk_lem :
      (p : ShellProtocol) (fd : R.Fd) (w rest : Bytes)
      → 0 < p.bytes_left
      → 0 < p.capacity
      → length w ≡ p.bytes_left
      → D.pending fd ≡ w ++ rest
      → let n = min p.bytes_left p.capacity in
        (fd' : R.Fd) × (read_chunk R p fd ≡ (
          some
              (record p { buffer_data = take n w; bytes_left = p.bytes_left - n; data_length = n }),
          fd',
        ))
        × (D.pending fd' ≡ drop n w ++ rest)
  unfolding read_chunk
  read_chunk_lem p fd w rest some_left room size held =
      let n = min p.bytes_left p.capacity in
      let t : (n == 0) ≡ false = ground arith in
      let (fd', e, q) =
        read_next R D fd (take n w) (drop n w ++ rest) n (length-take n w ∙ omega arith) (
          held
          ∙ ap (λ x. x ++ rest) (sym (take-append-drop n w))
          ∙ append_assoc (take n w) (drop n w) rest) in
      (fd', rw t (ap (read_data R p n) e), q)

  read_nonzero :
      (p : ShellProtocol) (fd : R.Fd) → 0 < p.bytes_left → read R p fd ≡ read_chunk R p fd
  unfolding read
  read_nonzero p fd h = let t : (p.bytes_left == 0) ≡ false = ground arith in rw t refl

  read_chunk_empty :
      (p : ShellProtocol) (fd : R.Fd)
      → p.bytes_left ≡ 0
      → read_chunk R p fd ≡ (some (record p { data_length = 0 }), fd)
  unfolding read_chunk
  read_chunk_empty p fd e =
      let t : (min p.bytes_left p.capacity == 0) ≡ true = ground arith in rw t refl

  from_chunk :
      (k : ℕ) (p₀ p : ShellProtocol) (fd₀ fd : R.Fd) (w rest : Bytes)
      → read R p₀ fd₀ ≡ read_chunk R p fd
      → p₀.capacity ≡ p.capacity
      → 0 < p.capacity
      → length w ≤ k
      → length w ≡ p.bytes_left
      → D.pending fd ≡ w ++ rest
      → Chunked R D p₀ fd₀ p.id w rest
  from_chunk k p₀ p fd₀ fd [] rest e same_room room fuel size held = record {
    last = record p { data_length = 0 };
    last_fd = fd;
    chunks = [] ∷ [];
    reads = call (e ∙ read_chunk_empty p fd (sym size)) (done refl refl);
    whole = refl;
    small = (omega arith, tt);
    same_id = refl;
    finished = sym size;
    left = held;
  }
  from_chunk zero p₀ p fd₀ fd (x ∷ w) rest e same_room room fuel size held = elim fuel [ ]
  from_chunk (suc k) p₀ p fd₀ fd (x ∷ w) rest e same_room room fuel size held =
      let n = min p.bytes_left p.capacity in
      let v : Bytes = x ∷ w in
      let (fd₁, turn, held₁) = read_chunk_lem p fd v rest (omega arith) room size held in
      let p₁ : ShellProtocol = record p {
        buffer_data = take n v;
        bytes_left = p.bytes_left - n;
        data_length = n;
      } in
      let taken : length (take n v) ≡ n = length-take n v ∙ omega arith in
      let chunk : take n (take n v) ≡ take n v = take_all (take n v) n (omega arith) in
      elim (Bool-cases (p₁.bytes_left == 0)) [
        | inl over ↦
            let nothing : drop n v ≡ [] = drop_all v n (ground arith) in
            record {
              last = p₁;
              last_fd = fd₁;
              chunks = take n (take n v) ∷ [];
              reads = call (e ∙ turn) (done refl refl);
              whole =
                  append-nil (take n (take n v))
                  ∙ chunk
                  ∙ sym (append-nil (take n v))
                  ∙ ap (◌++◌ (take n v)) (sym nothing)
                  ∙ take-append-drop n v;
              small = (omega (arith, ap length chunk), tt);
              same_id = refl;
              finished = (==_iff _ _).0 over;
              left = held₁ ∙ ap (λ y. y ++ rest) nothing;
            }
        | inr more ↦
            let c =
              from_chunk k p₁ p₁ fd₁ fd₁ (drop n v) rest (read_nonzero p₁ fd₁ (ground arith)) refl
                room (omega (arith, length-drop n v)) (length-drop n v ∙ omega arith) held₁ in
            record {
              last = c.last;
              last_fd = c.last_fd;
              chunks = take n (take n v) ∷ c.chunks;
              reads = call (e ∙ turn) c.reads;
              whole =
                  ap (λ y. y ++ concat c.chunks) chunk
                  ∙ ap (◌++◌ (take n v)) c.whole
                  ∙ take-append-drop n v;
              small = (
                omega (arith, ap length chunk),
                subst (λ m. All (λ d. length d ≤ m) c.chunks) (sym same_room) c.small,
              );
              same_id = c.same_id;
              finished = c.finished;
              left = c.left;
            }
      ]

  -- From an object that has finished its last packet, calls of `Read` on a descriptor that holds
  -- a packet of fewer than 2^32 bytes all succeed, give chunks within the buffer that make up the
  -- data of the packet under its id, and leave what follows the packet.
  pub read-chunks :
      (p : ShellProtocol) (fd : R.Fd) (i : ℕ) (w rest : Bytes)
      → p.bytes_left ≡ 0
      → 0 < p.capacity
      → length w < 2 ^ 32
      → D.pending fd ≡ shell_packet i w ++ rest
      → Chunked R D p fd i w rest
  unfolding read
  read-chunks p fd i w rest idle room fits held =
      let header : Bytes = i ∷ le32 (length w) [] in
      let t : (p.bytes_left == 0) ≡ true = ground arith in
      let (fd₁, e, held₁) = read_next R D fd header (w ++ rest) 5 refl held in
      let p₁ : ShellProtocol = record p { id = i; bytes_left = length w; data_length = 0 } in
      from_chunk (length w) p p₁ fd fd₁ w rest
        (rw t (
          ap (read_header R p) e
          ∙ unfold read_header header_of in
            λ j.
              read_chunk R
                (record p { id = i; bytes_left = word-le32 (length w) fits j; data_length = 0 })
                fd₁))
        refl room (omega arith) refl held₁

-- `Write` of `n` bytes that are in the buffer sends the packet of that id and these bytes, or a
-- proper front of it if it returns false.
write-shell_packet :
    (W : Writer) (A : Accepts W) (fuel : ℕ) (fd : W.Fd) (p : ShellProtocol) (i n : ℕ)
    → n ≤ length p.buffer_data
    → n < 2 ^ 32
    → 5 + n + A.stalls fd ≤ fuel
    → WritesExactly W A fd (shell_packet i (take n p.buffer_data)) (write W fuel fd p i n)
unfolding write
write-shell_packet W A fuel fd p i n held fits enough =
    let size : length (take n p.buffer_data) ≡ n = length-take n p.buffer_data ∙ omega arith in
    let typed : n % 2 ^ 32 ≡ length (take n p.buffer_data) = omega arith in
    rw typed (write_fd_exactly_lem W A fuel fd _ (omega arith))
