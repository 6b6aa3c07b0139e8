-- ===== src/Socket/Reading/Forward.antt =====
-- What a readable local socket does for a remote peer: the bytes go out in one packet, and reading
-- stops until the other side is ready again.
use adb_src.Base.{
  ℕ, zero, suc, ◌+◌, ◌-◌, ◌≤◌, Bool, true, false, ◌&&◌, ◌||◌, Option, some, [], ◌∷◌, ◌++◌, ◌==◌,
  if◌then◌else◌, ◌≡◌, ◌⊎◌, inl, inr, refl, sym, ap, ◌∙◌, arith, Bool-cases, ==_refl, Bytes, length,
  append_assoc, length-append,
}
use adb_src.Packet.{Packet, stamp, a_wrte, max_payload}
use adb_src.Socket.Store.{
  Os, Socket, State, M, ok, update, return, ReadAnswer, bytes, end_of_file, not_yet, read_error,
  remote_enqueue,
}
use adb_src.Socket.Remote.{remote_socket_enqueue, send_packet, get_max_payload, limit_by}
use adb_src.Socket.Close.{close}
use adb_src.Socket.Reading.{
  Reading, after_adb_read, read_in, call_enqueue, packet_of, enqueue, after_enqueue, hand_over,
  local_socket_read_event,
}

-- What read(2) documents of a descriptor over the stream of bytes to come: a non-empty part of its
-- front that fits the room, or nothing.
pub record Yields (O : Os) (fd : ℕ) : Type 0 where
  pub pending : O.World → Bytes
  pub read_lem :
      (w : O.World) (n : ℕ)
      → ((b : ℕ) × (bs : Bytes) × (w' : O.World) × (O.adb_read w fd n ≡ (bytes (b ∷ bs), w'))
          × (length (b ∷ bs) ≤ n)
          × (pending w ≡ (b ∷ bs) ++ pending w'))
        ⊎ ((r : ReadAnswer) × (w' : O.World) × (O.adb_read w fd n ≡ (r, w'))
            × ((r ≡ end_of_file) ⊎ (r ≡ not_yet) ⊎ (r ≡ read_error))
            × (pending w ≡ pending w'))

-- Whether an answer of read(2) is the end of the descriptor for the loop: its end or an error is,
-- EAGAIN is not. The second flag is whether the loop's last `r` is 0.
abbrev pub AnswerEnds : ReadAnswer → Bool → Bool → Type 0
AnswerEnds (bytes bs) is_eof is_zero = ⊥
AnswerEnds end_of_file is_eof is_zero = (is_eof ≡ true) × (is_zero ≡ true)
AnswerEnds not_yet is_eof is_zero = (is_eof ≡ false) × (is_zero ≡ false)
AnswerEnds read_error is_eof is_zero = (is_eof ≡ true) × (is_zero ≡ false)

module _ (O : Os) (fd : ℕ) (Y : Yields O fd) (room : ℕ) where
  -- Why the loop stopped: the room is full, which is not the end, and where nothing was read, `r` is
  -- still 0; or the last read answered.
  abbrev pub StopsFor : Reading × O.World → Type 0
  StopsFor (run, w') =
      ((length run.taken ≡ room) × (run.is_eof ≡ false) × (run.is_zero ≡ (length run.taken == 0)))
      ⊎ ((w : O.World) × (n : ℕ) × (r : ReadAnswer) × (O.adb_read w fd n ≡ (r, w'))
          × (1 ≤ n)
          × AnswerEnds r run.is_eof run.is_zero)

  -- What was read is the front of the stream, behind what was there, and fits the room.
  abbrev pub TakesFront : Bytes → O.World → Reading × O.World → Type 0
  TakesFront taken w (run, w') =
      (run.taken ++ Y.pending w' ≡ taken ++ Y.pending w)
      × (length run.taken ≤ room)
      × StopsFor (run, w')

  after_adb_read-stops :
      (rest : Bytes → O.World → Reading × O.World) (taken : Bytes) (n : ℕ) (w w' : O.World)
      (r : ReadAnswer)
      → O.adb_read w fd n ≡ (r, w')
      → 1 ≤ n
      → (r ≡ end_of_file) ⊎ (r ≡ not_yet) ⊎ (r ≡ read_error)
      → Y.pending w ≡ Y.pending w'
      → length taken ≤ room
      → TakesFront taken w (after_adb_read O rest taken (r, w'))
  unfolding after_adb_read
  after_adb_read-stops rest taken n w w' end_of_file call some_room e same fits =
      (ap (◌++◌ taken) (sym same), fits, inr (w, n, end_of_file, call, some_room, (refl, refl)))
  after_adb_read-stops rest taken n w w' not_yet call some_room e same fits =
      (ap (◌++◌ taken) (sym same), fits, inr (w, n, not_yet, call, some_room, (refl, refl)))
  after_adb_read-stops rest taken n w w' read_error call some_room e same fits =
      (ap (◌++◌ taken) (sym same), fits, inr (w, n, read_error, call, some_room, (refl, refl)))
  after_adb_read-stops rest taken n w w' (bytes bs) call some_room (inl e) same fits = cc
  after_adb_read-stops rest taken n w w' (bytes bs) call some_room (inr (inl e)) same fits = cc
  after_adb_read-stops rest taken n w w' (bytes bs) call some_room (inr (inr e)) same fits = cc

  -- Fuel for the room that is left is enough.
  read_in-TakesFront :
      (fuel : ℕ) (taken : Bytes) (w : O.World)
      → length taken ≤ room
      → room ≤ fuel + length taken
      → TakesFront taken w (read_in O fuel fd room taken w)
  unfolding read_in after_adb_read
  read_in-TakesFront zero taken w fits enough =
      (refl, fits, inl (omega (arith, fits, enough), refl, refl))
  read_in-TakesFront (suc fuel) taken w fits enough = elim (Bool-cases (room - length taken == 0)) [
    | inl filled ↦ rw filled (refl, fits, inl (ground arith, refl, refl))
    | inr left ↦
        let some_room : 1 ≤ room - length taken = ground arith in
        elim (Y.read_lem w (room - length taken)) [
          | inl (b, bs, w', e, small, front) ↦
              let more = taken ++ (b ∷ bs) in
              let longer = length-append taken (b ∷ bs) in
              let (same, fits', stops) =
                read_in-TakesFront fuel more w' (omega (arith, longer, small, fits))
                  (omega (arith, longer, enough)) in
              rw (left, e)
                (
                  same ∙ append_assoc taken (b ∷ bs) (Y.pending w') ∙ ap (◌++◌ taken) (sym front),
                  fits',
                  stops,
                )
          | inr (r, w', e, stops, same) ↦
              rw (left, e)
                (after_adb_read-stops (read_in O fuel fd room) taken (room - length taken) w w' r e
                  some_room stops same fits)
        ]
  ]

-- The A_WRTE packet of a remote socket with the id `id`, from a local one with the id `own`.
abbrev pub data_packet : ℕ → ℕ → Bytes → Packet
data_packet own id taken = record p {
  msg = record m { command = a_wrte; arg0 = own; arg1 = id; data_length = length taken };
}
  where
    p : Packet
    p = packet_of taken

    open p use {msg as m}

-- A live local socket at `p` with a remote peer at `q`, on the transport `t`.
pub record FacesRemote {O : Os} (st : State O) (p q : ℕ) (s u : Socket) (t : ℕ) : Type 0 where
  pub here : st.heap p ≡ some s
  pub forth : s.peer ≡ some q
  pub there : st.heap q ≡ some u
  pub back : u.peer ≡ some p
  pub remote : u.enqueue ≡ remote_enqueue
  pub bound : u.transport ≡ some t

module _ {O : Os} (send_fuel : ℕ) (smart : ℕ → Packet → M O (Option ℕ)) (p q : ℕ) (s u : Socket)
    (t : ℕ) where
  -- The room of one packet: what the transports of both allow.
  abbrev pub room_of : State O → ℕ
  room_of st = limit_by st (limit_by st max_payload s.transport) u.transport

  -- After the bytes went out: the socket is not watched for reading.
  abbrev pub forwarded : Bytes → State O → State O
  forwarded taken st = record st {
    sent = st.sent ++ ((t, stamp (data_packet s.id u.id taken)) ∷ []);
    heap = update st.heap p (some (record s { fde_read = false }));
  }

  abbrev pub close_if : Bool → M O (Unit {0})
  close_if b = if b then close send_fuel 4 p else return tt

  -- The two ends: nothing was read, or the bytes go out; a socket at its end is closed.
  abbrev pub after_reading : Reading → Bytes → M O (Unit {0})
  after_reading run [] st = close_if ((s.force_eof && run.is_zero) || run.is_eof) st
  after_reading run (b ∷ bs) st = close_if run.is_eof (forwarded (b ∷ bs) st)

  hand_over-after_reading :
      (run : Reading) (taken : Bytes) (st : State O)
      → FacesRemote st p q s u t
      → hand_over send_fuel smart p run taken (some q) st ≡ after_reading run taken st
  unfolding hand_over enqueue call_enqueue after_enqueue remote_socket_enqueue send_packet
  hand_over-after_reading run [] st f = rw f.here refl
  hand_over-after_reading run (b ∷ bs) st f =
      rw (f.there, f.remote, f.there, f.back, f.here, f.bound, f.here, ==_refl p)
        (ap (λ c. close_if c (forwarded (b ∷ bs) st)) (no_force s.force_eof))
    where
      no_force : (force : Bool) → ((force && false) || run.is_eof) ≡ run.is_eof
      no_force true = refl
      no_force false = refl

  get_max_payload-room_of :
      (st : State O) → FacesRemote st p q s u t → get_max_payload p st ≡ ok (room_of st, st)
  unfolding get_max_payload
  get_max_payload-room_of st f = rw (f.here, f.forth, f.there) refl

  abbrev pub read_of : State O → Reading × O.World
  read_of st = read_in O (room_of st) s.fd (room_of st) [] st.world

  local_socket_read_event-after_reading :
      (st : State O)
      → FacesRemote st p q s u t
      → local_socket_read_event send_fuel smart p st
        ≡ after_reading (read_of st).0 (read_of st).0.taken (record st { world = (read_of st).1 })
  unfolding local_socket_read_event
  local_socket_read_event-after_reading st f =
      rw (f.here, get_max_payload-room_of st f)
        (ap
            (λ o.
              hand_over send_fuel smart p (read_of st).0 (read_of st).0.taken o
                (record st { world = (read_of st).1 }))
            f.forth
          ∙ hand_over-after_reading (read_of st).0 (read_of st).0.taken
              (record st { world = (read_of st).1 })
              (record {
                here = f.here;
                forth = f.forth;
                there = f.there;
                back = f.back;
                remote = f.remote;
                bound = f.bound;
              }))

  -- A readable local socket with a remote peer reads the front of its stream, no more than both
  -- transports allow in a packet, until that room is full or a read gives nothing; it is at its end
  -- exactly where the last read was the end of the stream or an error, and not where it was EAGAIN.
  -- If there are bytes, they go out whole and in order as one A_WRTE packet to the peer's id, and
  -- the socket is not watched for reading until it is made ready again; after that a socket at its
  -- end is closed. If there are none, a socket at its end is closed, and so is one with force_eof
  -- for which the loop's last result is 0.
  pub local_socket_read_event-Forwards :
      (st : State O) (Y : Yields O s.fd)
      → FacesRemote st p q s u t
      → (local_socket_read_event send_fuel smart p st
          ≡ after_reading
              (read_of st).0
              (read_of st).0.taken
              (record st { world = (read_of st).1 }))
        × ((read_of st).0.taken ++ Y.pending (read_of st).1 ≡ Y.pending st.world)
        × (length (read_of st).0.taken ≤ room_of st)
        × StopsFor O s.fd Y (room_of st) (read_of st)
  local_socket_read_event-Forwards st Y f =
      let (front, fits, stops) =
        read_in-TakesFront O s.fd Y (room_of st) (room_of st) [] st.world (omega arith)
          (omega arith) in
      (local_socket_read_event-after_reading st f, front, fits, stops)
