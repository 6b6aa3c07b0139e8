-- ===== src/Lifecycle/Alive.antt =====
-- A transport outlives its threads: it is freed once, after both are through with it.
use adb_src.Base.{
  ℕ, zero, suc, ◌+◌, ◌≤◌, ◌<◌, ◌≡◌, refl, ap, Bool, true, false, some, List, [], ◌∷◌, ◌++◌, arith,
  ◌==◌, if◌then◌else◌,
}
use adb_src.Packet.{Packet}
use adb_src.Lifecycle.{
  Thread, read_thread, write_thread, Phase, idle, working, kicking, unreffing, closing, Action,
  action_remove, action_register, RemoteRead, received, failed, Life, registered, phase_of,
  set_phase, reader_sync, reader_read, reader_offline, writer_packet, kick as kick_once,
  kick_transport, unref_from, transport_unref, close_and_remove, registration,
}
use adb_src.Lifecycle.Reach.{
  Step, register_or_remove, handle, send, sync, read, offline, write, write_failed, kick, unref,
  close, kick_other, Reach, here, next,
}

-- What a phase counts for: a reference, the removal to come, and a thread that was not started.
abbrev pub holds : Phase → ℕ
holds working = 1
holds kicking = 1
holds unreffing = 1
holds _ = 0

abbrev pub closers : Phase → ℕ
closers closing = 1
closers _ = 0

abbrev pub unstarted : Phase → ℕ
unstarted idle = 1
unstarted _ = 0

abbrev pub bit : Bool → ℕ
bit true = 1
bit false = 0

abbrev pub removals : List Action → ℕ
removals [] = 0
removals (action_remove ∷ l) = suc (removals l)
removals (action_register ∷ l) = removals l

abbrev pub registrations : List Action → ℕ
registrations [] = 0
registrations (action_remove ∷ l) = registrations l
registrations (action_register ∷ l) = suc (registrations l)

-- The ways to the end of the transport: a thread about to remove it, a message to remove it, and
-- that it is freed. There is one from the moment that the last reference is dropped.
pub record IsAlive (l : Life) : Type 0 where
  pub counted : l.ref_count ≡ holds l.reader + holds l.writer
  pub together : unstarted l.reader ≡ unstarted l.writer
  pub one_end :
      closers l.reader
        + closers l.writer
        + removals l.messages
        + bit l.freed
        + (if l.ref_count == 0 then 0 else 1)
        + unstarted l.reader
      ≡ 1
  pub registering : registrations l.messages ≤ unstarted l.reader
  pub closed_once : l.closes ≡ removals l.messages + bit l.freed
  pub kicked_once : l.kicks ≡ bit l.kicked
  pub unlisted : bit l.freed + bit l.listed ≤ 1

removals-append : (l : List Action) → removals (l ++ (action_remove ∷ [])) ≡ suc (removals l)
removals-append [] = refl
removals-append (action_remove ∷ l) = ap suc (removals-append l)
removals-append (action_register ∷ l) = removals-append l

registrations-append :
    (l : List Action) → registrations (l ++ (action_remove ∷ [])) ≡ registrations l
registrations-append [] = refl
registrations-append (action_remove ∷ l) = registrations-append l
registrations-append (action_register ∷ l) = ap suc (registrations-append l)

registered-IsAlive : (no_perm : Bool) → IsAlive (registered no_perm)
registered-IsAlive no_perm = ground arith

registration-IsAlive :
    (a : Action) (rest : List Action) (l : Life)
    → l.messages ≡ a ∷ rest
    → IsAlive l
    → IsAlive (registration a (record l { messages = rest }))
unfolding registration
registration-IsAlive action_remove rest l e v = ground (arith, ap removals e, ap registrations e)
registration-IsAlive action_register rest l e v = ground (arith, ap removals e, ap registrations e)

reader_sync-IsAlive :
    (sent : Bool) (l : Life) → l.reader ≡ working → IsAlive l → IsAlive (reader_sync sent l)
unfolding reader_sync
reader_sync-IsAlive true l w v = ground arith
reader_sync-IsAlive false l w v = ground arith

reader_read-IsAlive :
    (sent : Bool) (r : RemoteRead) (l : Life)
    → l.reader ≡ working
    → IsAlive l
    → IsAlive (reader_read sent r l)
unfolding reader_read
reader_read-IsAlive sent failed l w v = ground arith
reader_read-IsAlive sent (received p) l w v = ground arith

reader_offline-IsAlive :
    (sent : Bool) (l : Life) → l.reader ≡ working → IsAlive l → IsAlive (reader_offline sent l)
unfolding reader_offline
reader_offline-IsAlive sent l w v = ground arith

writer_packet-IsAlive :
    (sent : Bool) (p : Packet) (l : Life)
    → l.writer ≡ working
    → IsAlive l
    → IsAlive (writer_packet sent p l)
unfolding writer_packet
writer_packet-IsAlive sent p l w v = ground arith

kick_transport-IsAlive : (l : Life) → IsAlive l → IsAlive (kick_transport l)
unfolding kick_transport kick_once
kick_transport-IsAlive l v = ground arith

kicked-IsAlive :
    (t : Thread) (l : Life)
    → phase_of t l ≡ kicking
    → IsAlive l
    → IsAlive (set_phase t unreffing (kick_transport l))
unfolding kick_transport kick_once
kicked-IsAlive read_thread l w v = ground arith
kicked-IsAlive write_thread l w v = ground arith

unref_from-IsAlive :
    (t : Thread) (n : ℕ) (l l' : Life)
    → phase_of t l ≡ unreffing
    → l.ref_count ≡ n
    → IsAlive l
    → unref_from t n l ≡ some l'
    → IsAlive l'
unfolding unref_from
unref_from-IsAlive t zero l l' w e v h = cc
unref_from-IsAlive read_thread (suc zero) l l' w e v h = ground arith
unref_from-IsAlive write_thread (suc zero) l l' w e v h = ground arith
unref_from-IsAlive read_thread (suc (suc n)) l l' w e v h = ground arith
unref_from-IsAlive write_thread (suc (suc n)) l l' w e v h = ground arith

close_and_remove-IsAlive :
    (t : Thread) (l : Life) → phase_of t l ≡ closing → IsAlive l → IsAlive (close_and_remove t l)
unfolding close_and_remove
close_and_remove-IsAlive read_thread l w v =
    ground (arith, removals-append l.messages, registrations-append l.messages)
close_and_remove-IsAlive write_thread l w v =
    ground (arith, removals-append l.messages, registrations-append l.messages)

Step-IsAlive : {l l' : Life} → Step l l' → IsAlive l → IsAlive l'
unfolding transport_unref
Step-IsAlive (register_or_remove {l} a rest e) v = registration-IsAlive a rest l e v
Step-IsAlive (handle p rest e) v = ground arith
Step-IsAlive (send p) v = ground arith
Step-IsAlive (sync {l} sent w s) v = reader_sync-IsAlive sent l w v
Step-IsAlive (read {l} sent r w s) v = reader_read-IsAlive sent r l w v
Step-IsAlive (offline {l} sent w s) v = reader_offline-IsAlive sent l w v
Step-IsAlive (write {l} sent p rest w e) v =
    writer_packet-IsAlive sent p (record l { to_writer = rest }) w (ground arith)
Step-IsAlive (write_failed w) v = ground arith
Step-IsAlive (kick {l} t w) v = kicked-IsAlive t l w v
Step-IsAlive (unref {l} {l'} t w e) v = unref_from-IsAlive t l.ref_count l l' w refl v e
Step-IsAlive (close {l} t w) v = close_and_remove-IsAlive t l w v
Step-IsAlive (kick_other {l}) v = kick_transport-IsAlive l v

Reach-IsAlive : {s l : Life} → IsAlive s → Reach s l → IsAlive l
Reach-IsAlive v here = v
Reach-IsAlive v (next r s) = Step-IsAlive s (Reach-IsAlive v r)

-- A thread that is between its start and its last use of the transport.
abbrev pub Runs : Phase → Type 0
Runs working = Unit {0}
Runs kicking = Unit {0}
Runs unreffing = Unit {0}
Runs closing = Unit {0}
Runs _ = ⊥

-- What an interleaving can do to the transport: while a thread runs, the transport is not freed;
-- its transport_unref does not fail its CHECK; and `close` and `kick_func_` are called once at
-- most, `close` only when both threads have dropped their reference.
pub record IsSafe (l : Life) : Type 0 where
  pub in_use : (t : Thread) → Runs (phase_of t l) → l.freed ≡ false
  pub unrefs :
      (t : Thread) → phase_of t l ≡ unreffing → (l' : Life) × (transport_unref t l ≡ some l')
  pub closes_once : l.closes ≤ 1
  pub kicks_once : l.kicks ≤ 1
  pub unused : 0 < l.closes → l.ref_count ≡ 0

IsAlive-in_use : (t : Thread) (l : Life) → IsAlive l → Runs (phase_of t l) → l.freed ≡ false
IsAlive-in_use read_thread l v h = ground arith
IsAlive-in_use write_thread l v h = ground arith

unref_from-total :
    (t : Thread) (n : ℕ) (l : Life) → 0 < n → (l' : Life) × (unref_from t n l ≡ some l')
unfolding unref_from
unref_from-total t zero l h = elim h [ ]
unref_from-total t (suc zero) l h = (_, refl)
unref_from-total t (suc (suc n)) l h = (_, refl)

IsAlive-counts : (t : Thread) (l : Life) → IsAlive l → phase_of t l ≡ unreffing → 0 < l.ref_count
IsAlive-counts read_thread l v h = ground arith
IsAlive-counts write_thread l v h = ground arith

IsAlive-unused : (l : Life) → IsAlive l → 0 < l.closes → l.ref_count ≡ 0
IsAlive-unused l v h = ground arith

-- In every interleaving from the registration on: while a thread runs, the transport is not
-- freed; transport_unref passes its CHECK; `close` and `kick_func_` are called at most once, and
-- `close` only when no thread holds a reference.
pub Reach-IsSafe : (no_perm : Bool) (l : Life) → Reach (registered no_perm) l → IsSafe l
unfolding transport_unref
Reach-IsSafe no_perm l r =
    let v = Reach-IsAlive (registered-IsAlive no_perm) r in
    record {
      in_use = λ t h. IsAlive-in_use t l v h;
      unrefs = λ t h. unref_from-total t l.ref_count l (IsAlive-counts t l v h);
      closes_once = ground arith;
      kicks_once = ground arith;
      unused = IsAlive-unused l v;
    }
