-- ===== src/Session/Keep.antt =====
-- handle_packet of adb.cpp on a host keeps the store of sockets well-formed.
pub mod Streams
pub mod Cases
use adb_src.Base.{
  ℕ, suc, false, Option, none, some, ◌==◌, if◌then◌else◌, ◌≡◌, ◌≢◌, refl, ap, ◌∙◌, arith, ==_refl,
  length,
}
use adb_src.Packet.{Packet}
use adb_src.Transport.{cs_offline}
use adb_src.Connection.{set_connection_state, Connection}
use adb_src.Socket.Store.{Os, State, M, Result, ok, fatal, exited, fault, out_of_fuel}
use adb_src.Socket.Remote.{send_packet}
use adb_src.Socket.Close.{close_all_sockets}
use adb_src.Socket.Close.Finish.{Ends}
use adb_src.Socket.Close.Lone.{SendFailReturns, IsWellFormed}
use adb_src.Socket.Close.All.{NoneUses, close_all_sockets-NoneUses}
use adb_src.Socket.Keep.{same-IsWellFormed}
use adb_src.Listeners.{run_disconnects}
use adb_src.Session.{
  Session, Env, put_store, in_store, then_session, put_connection, disconnected, handle_offline,
  go_offline, send_option, send_or_fatal,
}

-- As Ends, for the handlers.
abbrev pub EndsWith : {O : Os} → (Session O → Type 0) → Result (Unit {0} × Session O) → Type 0
EndsWith P (ok (a, se)) = P se
EndsWith P exited = Unit {0}
EndsWith P fatal = ⊥
EndsWith P fault = ⊥
EndsWith P out_of_fuel = ⊥

pub EndsWith-then :
    {O : Os} (P Q : Session O → Type 0) (r : Result (Unit {0} × Session O))
    (f : Session O → Result (Unit {0} × Session O))
    → EndsWith P r
    → ((se : Session O) → P se → EndsWith Q (f se))
    → EndsWith Q (then_session r f)
EndsWith-then P Q (ok (a, se)) f h k = k se h
EndsWith-then P Q exited f h k = tt
EndsWith-then P Q fatal f h k = h
EndsWith-then P Q fault f h k = h
EndsWith-then P Q out_of_fuel f h k = h

pub put_store-EndsWith :
    {O : Os} (P : State O → Type 0) (se : Session O) (r : Result (Unit {0} × State O))
    → Ends P r
    → EndsWith
        (λ se'. P se'.store × (se'.connections ≡ se.connections) × (se'.listeners ≡ se.listeners))
        (put_store se r)
put_store-EndsWith P se (ok (a, st)) h = (h, refl, refl)
put_store-EndsWith P se exited h = tt
put_store-EndsWith P se fatal h = h
put_store-EndsWith P se fault h = h
put_store-EndsWith P se out_of_fuel h = h

module _ {O : Os} where
  abbrev pub Good : Session O → Type 0
  Good se = IsWellFormed se.store

  pub in_store-Good :
      (m : M O (Unit {0})) (se : Session O)
      → Ends IsWellFormed (m se.store)
      → EndsWith Good (in_store m se)
  in_store-Good m se h = go (m se.store) h
    where
      go : (r : Result (Unit {0} × State O)) → Ends IsWellFormed r → EndsWith Good (put_store se r)
      go (ok (a, st)) h = h
      go exited h = tt
      go fatal h = h
      go fault h = h
      go out_of_fuel h = h

  pub put_connection-Good :
      (t : ℕ) (c : Connection) (se : Session O) → Good se → Good (put_connection t c se)
  put_connection-Good t c se w = record {
    paired = w.paired;
    sound = w.sound;
    listed = w.listed;
    unused = w.unused;
  }

  pub send_packet-Ends :
      (p : Packet) (t : ℕ) (st : State O)
      → IsWellFormed st
      → Ends IsWellFormed (send_packet p (some t) st)
  unfolding send_packet
  send_packet-Ends p t st w = same-IsWellFormed st w st.world _

  pub send_option-Ends :
      (t : ℕ) (o : Option Packet) (st : State O)
      → IsWellFormed st
      → Ends IsWellFormed (send_option t o st)
  send_option-Ends t none st w = w
  send_option-Ends t (some p) st w = send_packet-Ends p t st w

  pub send_or_fatal-Ends :
      (t : ℕ) (o : Option Packet) (st : State O)
      → o ≢ none
      → IsWellFormed st
      → Ends IsWellFormed (send_or_fatal t o st)
  send_or_fatal-Ends t none st some_packet w = absurd (some_packet refl)
  send_or_fatal-Ends t (some q) st some_packet w = send_packet-Ends q t st w

module _ {O : Os} (env : Env O) (fails : SendFailReturns O env.send_fuel) (t : ℕ) where
  -- What handle_offline leaves: no listed socket uses the transport, it is not online, and its
  -- callbacks have run.
  pub record IsOffline (se se' : Session O) : Type 0 where
    pub good : Good se'
    pub unused : NoneUses se'.store t se'.store.local_socket_list
    pub connection : se'.connections t ≡ record (se.connections t) { online = false }
    pub others : (u : ℕ) → u ≢ t → se'.connections u ≡ se.connections u
    pub listeners : se'.listeners ≡ run_disconnects t se.listeners

  pub handle_offline-IsOffline :
      (se : Session O) → Good se → EndsWith (IsOffline se) (handle_offline env t se)
  unfolding handle_offline
  handle_offline-IsOffline se w =
      let off = put_connection t (record (se.connections t) { online = false }) se in
      let closed =
        close_all_sockets-NoneUses env.send_fuel fails t (suc (length off.store.local_socket_list))
          off.store (put_connection-Good t (record (se.connections t) { online = false }) se w)
          (omega arith) in
      EndsWith-then _ (IsOffline se)
        (put_store off
          (close_all_sockets env.send_fuel (suc (length off.store.local_socket_list)) t off.store))
        (λ se'. ok (tt, disconnected t se')) (put_store-EndsWith _ off _ closed)
        (λ se' h. record {
          good = h.0.0;
          unused = h.0.1;
          connection = ap (λ c. c t) h.1 ∙ here (record (se.connections t) { online = false });
          others = λ u differ. ap (λ c. c u) h.1 ∙ elsewhere u _ differ;
          listeners = ap (run_disconnects t) h.2;
        })
    where
      here : (c : Connection) → (if t == t then c else se.connections t) ≡ c
      here c = rw (==_refl t) refl

      elsewhere :
          (u : ℕ) (c : Connection)
          → u ≢ t
          → (if u == t then c else se.connections u) ≡ se.connections u
      elsewhere u c differ = let x : (u == t) ≡ false = ground (arith, differ) in rw x refl

  pub EndsWith-mono :
      (P Q : Session O → Type 0) (r : Result (Unit {0} × Session O))
      → ((se : Session O) → P se → Q se)
      → EndsWith P r
      → EndsWith Q r
  EndsWith-mono P Q (ok (a, se)) f h = f se h
  EndsWith-mono P Q exited f h = tt
  EndsWith-mono P Q fatal f h = h
  EndsWith-mono P Q fault f h = h
  EndsWith-mono P Q out_of_fuel f h = h

  pub go_offline-Good : (se : Session O) → Good se → EndsWith Good (go_offline env t se)
  go_offline-Good se w =
      let c = set_connection_state cs_offline (se.connections t) in
      let off = put_connection t c se in
      EndsWith-mono (IsOffline off) Good (go_offline env t se) (λ se' h. h.good)
        (handle_offline-IsOffline off (put_connection-Good t c se w))
