-- ===== src/Session/Keep/Streams.antt =====
-- The packets of a stream keep the store of sockets well-formed: A_OPEN, A_OKAY, A_CLSE, A_WRTE.
use adb_src.Base.{
  ℕ, Bool, true, false, not, ◌&&◌, Option, none, some, ◌==◌, if◌then◌else◌, ◌≡◌, ◌≢◌, inl, inr,
  refl, ap, ◌∙◌, arith, Bool-cases, Option-cases,
}
use adb_src.Packet.{Packet}
use adb_src.Socket.Store.{◌>>◌, return, Os, Socket, State, M, ok, bind_result}
use adb_src.Socket.Registry.{find_local_socket, find_in}
use adb_src.Socket.Registry.Lookup.{find_in-Answers}
use adb_src.Socket.Remote.{send_packet, send_ready, send_close}
use adb_src.Socket.Close.{same_transport}
use adb_src.Socket.Close.Finish.{Ends, IsLocalClose}
use adb_src.Socket.Close.Lone.{SendFailReturns, IsWellFormed}
use adb_src.Socket.Close.Preserve.{close-IsWellFormed}
use adb_src.Socket.Queue.{local_socket_enqueue, ready}
use adb_src.Socket.Dispatch.{
  okay_by, answer_okay, handle_okay, is_foreign, close_unless, close_found, handle_close,
}
use adb_src.Socket.Dispatch.Shut.{find_in-total}
use adb_src.Socket.Keep.{Returns-bind, Ends-Returns, Returns-Ends, same-IsWellFormed}
use adb_src.Socket.Keep.Calls.{
  SendOkayReturns, Kept, local_socket_enqueue-IsWellFormed, ready-IsWellFormed,
}
use adb_src.Socket.Keep.Open.{
  local_at, opened, IdsLeft, create_local_socket-opened, opened-at, opened-IsWellFormed, joined,
  joined-here, joined-IsWellFormed, join-run,
}
use adb_src.Socket.Reading.{enqueue, call_enqueue}
use adb_src.Session.{
  Env, service_name, bind_service, create_local_service_socket, open_with, handle_open, acknowledge,
  write_found, handle_write,
}

module _ {O : Os} (t : ℕ) where
  pub send_close-Ends :
      (a b : ℕ) (st : State O) → IsWellFormed st → Ends IsWellFormed (send_close a b (some t) st)
  unfolding send_close send_packet
  send_close-Ends a b st w = same-IsWellFormed st w st.world _

  pub send_ready-Ends :
      (a b : ℕ) (st : State O) → IsWellFormed st → Ends IsWellFormed (send_ready a b (some t) st)
  unfolding send_ready send_packet
  send_ready-Ends a b st w = same-IsWellFormed st w st.world _

-- The socket that a search gives is listed, so it is live and local.
pub find_local_socket-Returns :
    {O : Os} (a b : ℕ) (k : Option ℕ → M O (Unit {0})) (st : State O)
    → IsWellFormed st
    → Ends IsWellFormed (k none st)
    → ((p : ℕ) (s : Socket)
        → st.heap p ≡ some s
        → IsLocalClose s.close
        → Ends IsWellFormed (k (some p) st))
    → Ends IsWellFormed (bind_result (find_local_socket a b st) k)
unfolding find_local_socket
find_local_socket-Returns {O} a b k st w nothing found =
    let (o, e) = find_in-total st w st.local_socket_list a b (λ r m. m) in rw e (go o e)
  where
    go : (o : Option ℕ) → find_in st st.local_socket_list a b ≡ ok o → Ends IsWellFormed (k o st)
    go none e = nothing
    go (some p) e =
        let (listed, _) = find_in-Answers st st.local_socket_list a b p e in
        let (s, at, isl) = w.listed p listed in found p s at isl

module _ {O : Os} (env : Env O) (fails : SendFailReturns O env.send_fuel)
    (okays : SendOkayReturns O env.send_fuel) (t : ℕ) (packet : Packet) where
  okay_by-Ends :
      (p : ℕ) (s : Socket) (st : State O)
      → IsWellFormed st
      → st.heap p ≡ some s
      → IsLocalClose s.close
      → packet.msg.arg0 ≢ 0
      → Ends IsWellFormed (okay_by env.send_fuel packet t p s.peer st)
  unfolding okay_by
  okay_by-Ends p s st w at isl nonzero = elim (Option-cases s.peer) [
    | inl lone ↦ rw lone (
        rw (join-run p s packet.msg.arg0 t st w at lone (λ q u r. ready env.send_fuel p) nonzero) (
          ready-IsWellFormed env.send_fuel okays p (record s { peer = some st.next_address })
            (joined p s packet.msg.arg0 t st)
            (joined-IsWellFormed p s packet.msg.arg0 t st w at lone)
            (joined-here p s packet.msg.arg0 t st w at lone) isl))
    | inr (q, forth) ↦
        let (_, (u, there, _)) = w.paired p q s at forth in
        rw (forth, there) (either (u.id == packet.msg.arg0))
  ]
    where
      either :
          (b : Bool)
          → Ends IsWellFormed ((if b then ready env.send_fuel p else (λ st. ok (tt, st))) st)
      either true = ready-IsWellFormed env.send_fuel okays p s st w at isl
      either false = w

  pub handle_okay-Ends :
      (online : Bool) (st : State O)
      → IsWellFormed st
      → Ends IsWellFormed (handle_okay env.send_fuel online packet t st)
  unfolding handle_okay answer_okay
  handle_okay-Ends online st w =
      elim (Bool-cases (online && not (packet.msg.arg0 == 0) && not (packet.msg.arg1 == 0))) [
        | inr dropped ↦ rw dropped w
        | inl taken ↦ rw taken (
            find_local_socket-Returns packet.msg.arg1 0 (answer_okay env.send_fuel packet t) st w
              (send_close-Ends t packet.msg.arg1 packet.msg.arg0 st w)
              (λ p s at isl. rw at (okay_by-Ends p s st w at isl (ground arith))))
      ]

  -- A foreign packet, or a close.
  close_unless-Ends :
      (b : Bool) (p : ℕ) (s : Socket) (st : State O)
      → IsWellFormed st
      → st.heap p ≡ some s
      → Ends IsWellFormed (close_unless env.send_fuel p b st)
  unfolding close_unless
  close_unless-Ends true p s st w at = w
  close_unless-Ends false p s st w at = close-IsWellFormed env.send_fuel fails p s st w at

  is_foreign-total :
      (p : ℕ) (s : Socket) (st : State O)
      → IsWellFormed st
      → st.heap p ≡ some s
      → (b : Bool) × (is_foreign packet.msg.arg0 s.peer t st ≡ ok (b, st))
  unfolding is_foreign
  is_foreign-total p s st w at = elim (Option-cases s.peer) [
    | inl lone ↦ (false, rw lone refl)
    | inr (q, forth) ↦
        let (_, (u, there, _)) = w.paired p q s at forth in
        elim (Bool-cases (packet.msg.arg0 == 0)) [
          | inl any ↦ (not (same_transport u.transport t), rw (forth, any, there) refl)
          | inr named ↦ (false, rw (forth, named) refl)
        ]
  ]

  close_found-Ends :
      (p : ℕ) (s : Socket) (st : State O)
      → IsWellFormed st
      → st.heap p ≡ some s
      → Ends IsWellFormed (close_found env.send_fuel packet t (some p) st)
  unfolding close_found
  close_found-Ends p s st w at =
      let (b, e) = is_foreign-total p s st w at in rw (at, e) (close_unless-Ends b p s st w at)

  pub handle_close-Ends :
      (online : Bool) (st : State O)
      → IsWellFormed st
      → Ends IsWellFormed (handle_close env.send_fuel online packet t st)
  unfolding handle_close
  handle_close-Ends online st w = elim (Bool-cases (online && not (packet.msg.arg1 == 0))) [
    | inr dropped ↦ rw dropped w
    | inl taken ↦ rw taken (
        find_local_socket-Returns packet.msg.arg1 packet.msg.arg0
          (close_found env.send_fuel packet t) st w (unfold close_found in w)
          (λ p s at isl. close_found-Ends p s st w at))
  ]

  -- As Kept, for the result of a call through the pointer.
  abbrev KeptOption : State O → Option ℕ → State O → Type 0
  KeptOption st none st' = ⊥
  KeptOption st (some r) st' = Kept st r st'

  acknowledge-Ends :
      (p : ℕ) (s : Socket) (st : State O) (r : Option ℕ) (st' : State O)
      → st.heap p ≡ some s
      → KeptOption st r st'
      → Ends IsWellFormed (acknowledge t p packet.msg.arg0 r st')
  acknowledge-Ends p s st none st' at h = elim h [ ]
  acknowledge-Ends p s st (some r) st' at (w, same) = elim (Bool-cases (r == 0)) [
    | inl whole ↦
        let live : st'.heap p ≡ some s = ap (λ h. h p) (same (ground arith)) ∙ at in
        rw (whole, live) (send_ready-Ends t s.id packet.msg.arg0 st' w)
    | inr waits ↦ rw waits w
  ]

  write_found-Ends :
      (p : ℕ) (s : Socket) (st : State O)
      → IsWellFormed st
      → st.heap p ≡ some s
      → IsLocalClose s.close
      → Ends IsWellFormed (write_found env packet t (some p) st)
  unfolding write_found enqueue call_enqueue
  write_found-Ends p s st w at isl =
      let taken = record packet { len = packet.msg.data_length } in
      let call = local_socket_enqueue env.send_fuel p taken st in
      rw (at, ((w.sound p s at).kind isl).0)
        (Returns-Ends IsWellFormed _ (
          Returns-bind (KeptOption st) (λ _. IsWellFormed) (bind_result call (λ r. return (some r)))
            (acknowledge t p packet.msg.arg0)
            (Returns-bind (Kept st) (KeptOption st) call (λ r. return (some r))
              (local_socket_enqueue-IsWellFormed env.send_fuel fails p s taken st w at)
              (λ r st' k. k))
            (λ r st' k. Ends-Returns IsWellFormed _ (acknowledge-Ends p s st r st' at k))))

  pub handle_write-Ends :
      (online : Bool) (st : State O)
      → IsWellFormed st
      → Ends IsWellFormed (handle_write env online packet t st)
  unfolding handle_write
  handle_write-Ends online st w =
      elim (Bool-cases (online && not (packet.msg.arg0 == 0) && not (packet.msg.arg1 == 0))) [
        | inr dropped ↦ rw dropped w
        | inl taken ↦ rw taken (
            find_local_socket-Returns packet.msg.arg1 packet.msg.arg0 (write_found env packet t) st
              w (unfold write_found in w) (λ p s at isl. write_found-Ends p s st w at isl))
      ]

  open_with-Ends :
      (fd : ℕ) (st : State O)
      → IsWellFormed st
      → packet.msg.arg0 ≢ 0
      → Ends IsWellFormed (open_with env.send_fuel packet t (some st.next_address) (opened fd st))
  unfolding send_ready send_packet
  open_with-Ends fd st w nonzero =
      let p = st.next_address in
      let s = local_at fd st.local_socket_next_id in
      let here = opened-at fd st in
      let w₁ = opened-IsWellFormed fd st w in
      let w₂ = joined-IsWellFormed p s packet.msg.arg0 t (opened fd st) w₁ here refl in
      let st₂ = joined p s packet.msg.arg0 t (opened fd st) in
      rw
        (join-run p s packet.msg.arg0 t (opened fd st) w₁ here refl
          (λ q u r. send_ready u.id r.id (some t) >> ready env.send_fuel p) nonzero)
        (ready-IsWellFormed env.send_fuel okays p
          (record s { peer = some (opened fd st).next_address }) (record st₂ { sent = _ })
          (same-IsWellFormed st₂ w₂ st₂.world _)
          (joined-here p s packet.msg.arg0 t (opened fd st) w₁ here refl) tt)

  pub handle_open-Ends :
      (online : Bool) (st : State O)
      → IsWellFormed st
      → IdsLeft st
      → Ends IsWellFormed (handle_open env online packet t st)
  unfolding handle_open create_local_service_socket
  handle_open-Ends online st w left =
      elim (Bool-cases (online && not (packet.msg.arg0 == 0) && (packet.msg.arg1 == 0))) [
        | inr dropped ↦ rw dropped w
        | inl taken ↦
            let name = service_name packet in
            let world = (env.service_to_fd name st.world).1 in
            rw taken (
              service (env.service_to_fd name st.world).0 (record st { world = world })
                (same-IsWellFormed st w world st.sent) left (ground arith))
      ]
    where
      service :
          (fd : Option ℕ) (st' : State O)
          → IsWellFormed st'
          → IdsLeft st'
          → packet.msg.arg0 ≢ 0
          → Ends IsWellFormed (bind_result (bind_service fd st') (open_with env.send_fuel packet t))
      service none st' w' left' nonzero = send_close-Ends t 0 packet.msg.arg0 st' w'
      service (some fd) st' w' left' nonzero =
          rw (create_local_socket-opened fd st' left') (open_with-Ends fd st' w' nonzero)
