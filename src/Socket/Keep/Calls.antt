-- ===== src/Socket/Keep/Calls.antt =====
-- The calls through a socket's function pointers, on a well-formed store: `enqueue` of a local
-- socket, and `ready`.
use adb_src.Base.{ℕ, Bool, true, some, List, [], ◌∷◌, ◌++◌, ◌≡◌, inl, inr, refl, subst, arith}
use adb_src.Packet.{Packet}
use adb_src.Socket.Store.{
  Os, writer, Socket, State, update, ReadyFunction, local_ready, local_ready_notify, remote_ready,
  smart_ready, return,
}
use adb_src.Socket.Close.{restore_local}
use adb_src.Socket.Close.Finish.{Ends, IsLocalClose, IsLocalReady, restore_local-IsSound}
use adb_src.Socket.Close.Lone.{SendFailReturns, IsWellFormed}
use adb_src.Socket.Close.Preserve.{close-IsWellFormed}
use adb_src.Socket.Queue.{
  Drain, emptied, blocked, failed_write, write_out, after_drain, enqueue_by, local_socket_enqueue,
  close_on_error, enqueue_packet, local_socket_ready, local_socket_ready_notify, call_ready, ready,
}
use adb_src.Socket.Remote.{remote_socket_ready, send_packet}
use adb_src.Socket.Keep.{
  Returns, Returns-bind, Ends-Returns, update_at, same-IsWellFormed, store-IsWellFormed,
}
use adb_src.Io.Protocol.{send_okay}

-- `SendOkay(fd)` returns on every descriptor.
abbrev pub SendOkayReturns : Os → ℕ → Type 0
SendOkayReturns O send_fuel =
    (fd : ℕ) (w : O.World)
    → (b : Bool) × (w' : O.World) × (send_okay (writer O fd) send_fuel w ≡ some (b, w'))

-- When `enqueue` returns 0, no socket was touched.
abbrev pub Kept : {O : Os} → State O → ℕ → State O → Type 0
Kept st r st' = IsWellFormed st' × (r ≡ 0 → st'.heap ≡ st.heap)

module _ {O : Os} (send_fuel : ℕ) (returns : SendFailReturns O send_fuel) where
  close_on_error-IsWellFormed :
      (p : ℕ) (s : Socket) (st : State O)
      → IsWellFormed st
      → st.heap p ≡ some s
      → Ends IsWellFormed (close_on_error send_fuel p st)
  close_on_error-IsWellFormed p s st w at =
      let s₁ : Socket = record s { has_write_error = true } in
      let sound = w.sound p s at in
      rw at (
        close-IsWellFormed send_fuel returns p s₁ (record st { heap = update st.heap p (some s₁) })
          (store-IsWellFormed p s s₁ st w at refl
            (record {
              watched = sound.watched;
              bound = sound.bound;
              kind = sound.kind;
              talks = sound.talks;
            })
            (λ l. l))
          (update_at st.heap p (some s₁)))

  enqueue_packet-IsWellFormed :
      (p : ℕ) (s : Socket) (packet : Packet) (st : State O)
      → IsWellFormed st
      → st.heap p ≡ some s
      → Returns (Kept st) (enqueue_packet p packet st)
  enqueue_packet-IsWellFormed p s packet st w at =
      let sound = w.sound p s at in
      rw at (
        store-IsWellFormed p s (record s { packets = s.packets ++ (packet ∷ []); fde_write = true })
            st w at refl
            (record {
              watched = λ _. inr refl;
              bound = sound.bound;
              kind = sound.kind;
              talks = sound.talks;
            })
            (λ l. l),
        λ e. absurd (omega (arith, e)),
      )

  after_drain-IsWellFormed :
      (p : ℕ) (s : Socket) (r : Drain × Packet × O.World) (st : State O)
      → IsWellFormed st
      → st.heap p ≡ some s
      → Returns (Kept st) (after_drain send_fuel p r st)
  unfolding after_drain
  after_drain-IsWellFormed p s (emptied, packet, world) st w at =
      (same-IsWellFormed st w world st.sent, λ e. refl)
  after_drain-IsWellFormed p s (blocked, packet, world) st w at =
      enqueue_packet-IsWellFormed p s packet (record st { world = world })
        (same-IsWellFormed st w world st.sent) at
  after_drain-IsWellFormed p s (failed_write, packet, world) st w at =
      let st₁ : State O = record st { world = world } in
      Returns-bind (λ _. IsWellFormed) (Kept st) (close_on_error send_fuel p st₁) (λ _. return 1)
        (Ends-Returns IsWellFormed (close_on_error send_fuel p st₁)
          (close_on_error-IsWellFormed p s st₁ (same-IsWellFormed st w world st.sent) at))
        (λ _ st' v. (v, λ e. absurd (omega (arith, e))))

  enqueue_by-IsWellFormed :
      (p : ℕ) (s : Socket) (packet : Packet) (ps : List Packet) (st : State O)
      → IsWellFormed st
      → st.heap p ≡ some s
      → Returns (Kept st) (enqueue_by send_fuel p s.fd packet ps st)
  unfolding enqueue_by
  enqueue_by-IsWellFormed p s packet [] st w at =
      after_drain-IsWellFormed p s (write_out O packet.len s.fd packet st.world) st w at
  enqueue_by-IsWellFormed p s packet (q ∷ ps) st w at =
      enqueue_packet-IsWellFormed p s packet st w at

  pub local_socket_enqueue-IsWellFormed :
      (p : ℕ) (s : Socket) (packet : Packet) (st : State O)
      → IsWellFormed st
      → st.heap p ≡ some s
      → Returns (Kept st) (local_socket_enqueue send_fuel p packet st)
  unfolding local_socket_enqueue
  local_socket_enqueue-IsWellFormed p s packet st w at =
      rw at (enqueue_by-IsWellFormed p s (record packet { ptr = 0 }) s.packets st w at)

module _ {O : Os} where
  local_socket_ready-IsWellFormed :
      (p : ℕ) (s : Socket) (st : State O)
      → IsWellFormed st
      → st.heap p ≡ some s
      → Ends IsWellFormed (local_socket_ready p st)
  unfolding local_socket_ready
  local_socket_ready-IsWellFormed p s st w at =
      let sound = w.sound p s at in
      rw at (
        store-IsWellFormed p s (record s { fde_read = true }) st w at refl
          (record {
            watched = sound.watched;
            bound = sound.bound;
            kind = sound.kind;
            talks = sound.talks;
          })
          (λ l. l))

module _ {O : Os} (send_fuel : ℕ) (okays : SendOkayReturns O send_fuel) where
  local_socket_ready_notify-IsWellFormed :
      (p : ℕ) (s : Socket) (st : State O)
      → IsWellFormed st
      → st.heap p ≡ some s
      → IsLocalClose s.close
      → Ends IsWellFormed (local_socket_ready_notify send_fuel p st)
  unfolding local_socket_ready_notify
  local_socket_ready_notify-IsWellFormed p s st w at isl =
      let s₁ : Socket = restore_local s in
      let st₁ : State O = record st { heap = update st.heap p (some s₁) } in
      let w₁ =
        store-IsWellFormed p s s₁ st w at refl (restore_local-IsSound s (w.sound p s at) isl)
          (λ l. tt) in
      let (b, world, sent) = okays s.fd st.world in
      rw (at, sent)
        (local_socket_ready-IsWellFormed p s₁ (record st₁ { world = world })
          (same-IsWellFormed st₁ w₁ world st.sent) (update_at st.heap p (some s₁)))

  remote_socket_ready-IsWellFormed :
      (p q : ℕ) (s : Socket) (st : State O)
      → IsWellFormed st
      → st.heap p ≡ some s
      → s.ready ≡ remote_ready
      → s.peer ≡ some q
      → Ends IsWellFormed (remote_socket_ready p st)
  unfolding remote_socket_ready send_packet
  remote_socket_ready-IsWellFormed p q s st w at r forth =
      let (t, bound) = (w.sound p s at).talks (inl r) in
      let (_, (u, there, _)) = w.paired p q s at forth in
      rw (at, forth, there, bound) (same-IsWellFormed st w st.world _)

  call_ready-IsWellFormed :
      (r : ReadyFunction) (p : ℕ) (s : Socket) (st : State O)
      → IsWellFormed st
      → st.heap p ≡ some s
      → s.ready ≡ r
      → (r ≡ local_ready_notify → IsLocalClose s.close)
      → (r ≡ remote_ready → (q : ℕ) × (s.peer ≡ some q))
      → Ends IsWellFormed (call_ready send_fuel r p st)
  unfolding call_ready
  call_ready-IsWellFormed local_ready p s st w at k isl joined =
      local_socket_ready-IsWellFormed p s st w at
  call_ready-IsWellFormed local_ready_notify p s st w at k isl joined =
      local_socket_ready_notify-IsWellFormed p s st w at (isl refl)
  call_ready-IsWellFormed remote_ready p s st w at k isl joined =
      let (q, forth) = joined refl in remote_socket_ready-IsWellFormed p q s st w at k forth
  call_ready-IsWellFormed smart_ready p s st w at k isl joined = w

  -- A live local socket.
  pub ready-IsWellFormed :
      (p : ℕ) (s : Socket) (st : State O)
      → IsWellFormed st
      → st.heap p ≡ some s
      → IsLocalClose s.close
      → Ends IsWellFormed (ready send_fuel p st)
  unfolding ready
  ready-IsWellFormed p s st w at isl =
      let (_, local) = (w.sound p s at).kind isl in
      rw at (
        call_ready-IsWellFormed s.ready p s st w at refl (λ e. isl)
          (λ e. elim (subst IsLocalReady e local) [ ]))
