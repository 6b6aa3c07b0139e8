-- ===== src/Tests/Sockets.antt =====
-- Runs of sockets.cpp, on a store with a local socket at 0 whose peer is the remote socket at 1,
-- and a local socket at 2 that has no peer.
use adb_src.Base.{
  ℕ, zero, suc, ◌+◌, ◌^◌, ◌≤◌, ◌<◌, ◌≡◌, ◌≢◌, inl, true, Option, none, some, [], ◌∷◌, ◌++◌, refl,
  arith, length, codes,
}
use adb_src.Packet.{Packet, get_apacket}
use adb_src.Io.Protocol.{send_fail-returns}
use adb_src.Io.Hex.{format_04x, format_04x_short}
use adb_src.Base.{length-append, ap}
use adb_src.Io.{Accepts}
use adb_src.Socket.Store.{
  local_ready, remote_ready, local_enqueue, remote_enqueue, writer, Socket, State, ok, fatal,
  member,
}
use adb_src.Socket.Registry.{new_local_socket, find_in, find_local_socket, create_local_socket}
use adb_src.Socket.Registry.Lookup.{Answers, find_local_socket-Answers}
use adb_src.Socket.Registry.Create.{IsRegistry, create_local_socket-find}
use adb_src.Socket.Remote.{new_remote_socket}
use adb_src.Socket.Close.{close}
use adb_src.Socket.Close.Finish.{Ends, IsSound}
use adb_src.Socket.Close.Lone.{SendFailReturns, IsWellFormed}
use adb_src.Socket.Close.Pair.{Closed, peer_of}
use adb_src.Socket.Close.Safety.{close-Closed}
use adb_src.Socket.Registry.{find_at, peer_has_id}
use mathlib.Core.Option.{some-injective}
use adb_src.Base.{◌⊎◌, inr, ◌∙◌, subst}
use adb_src.Socket.Dispatch.{handle_close}
use adb_src.Socket.Dispatch.Shut.{Shuts, handle_close-Shuts}
use adb_src.Tests.Stream.{slow_os}

abbrev pub log_Accepts : (fd : ℕ) → Accepts (writer slow_os fd)
log_Accepts fd = record {
  sent = λ log. log;
  stalls = λ log. 0;
  write_lem = λ log b bs. inl (0, log ++ (b ∷ []), refl, omega arith, refl, omega arith);
}

pub slow_os-SendFailReturns : SendFailReturns slow_os 16
slow_os-SendFailReturns fd w =
    send_fail-returns (writer slow_os fd) (log_Accepts fd) 16 w (codes "closed")
      (omega arith, (omega arith, (omega arith, (omega arith, (omega arith, (omega arith, tt))))))
      (omega arith)
      (omega (
        arith,
        ap length (format_04x_short 6 (omega arith)),
        length-append (format_04x 6) (codes "closed"),
      ))

abbrev pub near : Socket
near = record (new_local_socket 7) { id = 1; peer = some 1; transport = some 5 }

abbrev pub far : Socket
far = record (new_remote_socket 40 5) { peer = some 0 }

abbrev pub other : Socket
other = record (new_local_socket 8) { id = 2 }

abbrev pub cells : ℕ → Option Socket
cells zero = some near
cells (suc zero) = some far
cells (suc (suc zero)) = some other
cells _ = none

abbrev pub store : State slow_os
store = record {
  heap = cells;
  next_address = 3;
  local_socket_list = 0 ∷ 2 ∷ [];
  local_socket_closing_list = [];
  local_socket_next_id = 3;
  max_payload_of = λ t. 4096;
  sent = [];
  closed_fds = [];
  world = [];
}

near-IsSound : IsSound near
near-IsSound = record {
  watched = λ h. inl refl;
  bound = λ e. cc;
  kind = λ h. (refl, tt);
  talks = talks;
}
  where
    talks :
        (local_ready ≡ remote_ready) ⊎ (local_enqueue ≡ remote_enqueue)
        → (t : ℕ) × (some 5 ≡ some t)
    talks (inl e) = cc
    talks (inr e) = cc

far-IsSound : IsSound far
far-IsSound = record {
  watched = λ h. elim h [ ];
  bound = λ e. (5, refl);
  kind = λ h. elim h [ ];
  talks = λ e. (5, refl);
}

other-IsSound : IsSound other
other-IsSound = record {
  watched = λ h. inl refl;
  bound = λ e. cc;
  kind = λ h. (refl, tt);
  talks = talks;
}
  where
    talks :
        (local_ready ≡ remote_ready) ⊎ (local_enqueue ≡ remote_enqueue) → (t : ℕ) × (none ≡ some t)
    talks (inl e) = cc
    talks (inr e) = cc

pair_near :
    (q : ℕ) → some 1 ≡ some q → (q ≢ 0) × ((t : Socket) × (cells q ≡ some t) × (t.peer ≡ some 0))
pair_near q e =
    let x : 1 ≡ q = some-injective _ _ e in
    subst (λ r. (r ≢ 0) × ((t : Socket) × (cells r ≡ some t) × (t.peer ≡ some 0))) x
      ((λ z. absurd (omega arith)), (far, refl, refl))

pair_far :
    (q : ℕ) → some 0 ≡ some q → (q ≢ 1) × ((t : Socket) × (cells q ≡ some t) × (t.peer ≡ some 1))
pair_far q e =
    let x : 0 ≡ q = some-injective _ _ e in
    subst (λ r. (r ≢ 1) × ((t : Socket) × (cells r ≡ some t) × (t.peer ≡ some 1))) x
      ((λ z. absurd (omega arith)), (near, refl, refl))

pub store-IsWellFormed : IsWellFormed store
unfolding member peer_of
store-IsWellFormed = record { paired = paired; sound = sound; listed = listed; unused = unused }
  where
    paired :
        (p q : ℕ) (s : Socket)
        → cells p ≡ some s
        → s.peer ≡ some q
        → (q ≢ p) × ((t : Socket) × (cells q ≡ some t) × (t.peer ≡ some p))
    paired zero q s e f = pair_near q (ap peer_of e ∙ f)
    paired (suc zero) q s e f = pair_far q (ap peer_of e ∙ f)
    paired (suc (suc zero)) q s e f = let x : none ≡ some q = ap peer_of e ∙ f in cc
    paired (suc (suc (suc n))) q s e f = cc

    sound : (p : ℕ) (s : Socket) → cells p ≡ some s → IsSound s
    sound zero s e = subst IsSound (some-injective _ _ e) near-IsSound
    sound (suc zero) s e = subst IsSound (some-injective _ _ e) far-IsSound
    sound (suc (suc zero)) s e = subst IsSound (some-injective _ _ e) other-IsSound
    sound (suc (suc (suc n))) s e = cc

    listed :
        (p : ℕ)
        → member p (0 ∷ 2 ∷ []) ≡ true
        → (s : Socket) × (cells p ≡ some s) × adb_src.Socket.Close.Finish.IsLocalClose s.close
    listed zero m = (near, refl, tt)
    listed (suc zero) m = cc
    listed (suc (suc zero)) m = (other, refl, tt)
    listed (suc (suc (suc n))) m = ground arith

    unused : (p : ℕ) → 3 ≤ p → cells p ≡ none
    unused zero h = elim h [ ]
    unused (suc zero) h = absurd (omega arith)
    unused (suc (suc zero)) h = absurd (omega arith)
    unused (suc (suc (suc n))) h = refl

close-Closed_example : Ends (Closed 0 store) (close 16 4 0 store)
close-Closed_example = close-Closed 16 slow_os-SendFailReturns 0 near store store-IsWellFormed refl

store-IsRegistry : IsRegistry store
unfolding member
store-IsRegistry = record { live = live; unused = unused }
  where
    live :
        (r : ℕ)
        → member r (0 ∷ 2 ∷ []) ≡ true
        → (s : Socket) × (cells r ≡ some s) × (0 < s.id) × (s.id < 3)
    live zero m = (near, refl, omega arith, omega arith)
    live (suc zero) m = cc
    live (suc (suc zero)) m = (other, refl, omega arith, omega arith)
    live (suc (suc (suc n))) m = ground arith

    unused : (r : ℕ) → 3 ≤ r → cells r ≡ none
    unused zero h = absurd (omega arith)
    unused (suc zero) h = absurd (omega arith)
    unused (suc (suc zero)) h = absurd (omega arith)
    unused (suc (suc (suc n))) h = refl

create_local_socket-find_example :
    (3 + 1 < 2 ^ 32
      → (st' : State slow_os) × (create_local_socket 9 store ≡ ok (3, st'))
        × (find_local_socket 3 0 st' ≡ ok (some 3, st'))
        × ((i : ℕ)
            → i ≢ 3
            → find_in st' st'.local_socket_list i 0 ≡ find_in store store.local_socket_list i 0)
        × IsRegistry st')
    × (3 + 1 ≡ 2 ^ 32 → create_local_socket 9 store ≡ fatal)
create_local_socket-find_example =
    create_local_socket-find 9 store store-IsRegistry (omega arith) (omega arith)

find_local_socket-Answers_example : (member 0 store.local_socket_list ≡ true) × Answers store 0 1 40
find_local_socket-Answers_example =
    find_local_socket-Answers store 1 40 0 store
      (unfold find_local_socket find_in find_at peer_has_id in refl)

abbrev payload : Packet
payload = record get_apacket { len = 2; data_bytes = 104 ∷ 105 ∷ [] }

abbrev close_packet : Packet
close_packet = record get_apacket { msg = record m { arg0 = 40; arg1 = 1 } }
  where
    open get_apacket use {msg as m}

handle_close-Shuts_example :
    Ends
      (Shuts 16 slow_os-SendFailReturns 5 close_packet store store-IsWellFormed)
      (handle_close 16 true close_packet 5 store)
handle_close-Shuts_example =
    handle_close-Shuts 16 slow_os-SendFailReturns 5 close_packet store store-IsWellFormed true
