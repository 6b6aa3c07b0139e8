-- ===== src/Socket/Close/Finish.antt =====
-- How one socket ends: what remove_socket, local_socket_destroy and the rest of
-- local_socket_close leave of the store.
use mathlib.Core.Path.{fun_ext}
use mathlib.Core.Option.{some-injective}
use adb_src.Fdevent.Keep.{member-erase_other}
use adb_src.Base.{
  ℕ, ◌≤◌, ◌<◌, Bool, true, false, ◌||◌, Option, none, some, List, [], ◌∷◌, ◌++◌, ◌==◌,
  if◌then◌else◌, ◌≡◌, ◌≢◌, ◌⊎◌, inl, inr, refl, sym, ap, subst, ◌∙◌, arith, Bool-cases, ==_refl,
  length,
}
use adb_src.Socket.Store.{
  Os, Socket, State, M, Result, ok, fatal, exited, fault, out_of_fuel, bind_result, update,
  CloseFunction, local_close, local_close_notify, remote_close, smart_close, remote_shutdown,
  ReadyFunction, local_ready, local_ready_notify, remote_ready, smart_ready, local_enqueue,
  remote_enqueue, member, erase,
}
use adb_src.Socket.Registry.{remove_socket}
use adb_src.Socket.Close.{
  local_socket_destroy, put_on_closing_list, finish_local_close, is_empty, exit_if, restore_local,
}

-- The call returned, in a state that has the property, or ended the process by exit.
abbrev pub Ends : {O : Os} → (State O → Type 0) → Result (Unit {0} × State O) → Type 0
Ends P (ok (a, st)) = P st
Ends P exited = Unit {0}
Ends P fatal = ⊥
Ends P fault = ⊥
Ends P out_of_fuel = ⊥

pub Ends-mono :
    {O : Os} (P Q : State O → Type 0) (r : Result (Unit {0} × State O))
    → ((st : State O) → P st → Q st)
    → Ends P r
    → Ends Q r
Ends-mono P Q (ok (a, st)) f h = f st h
Ends-mono P Q exited f h = tt
Ends-mono P Q fatal f h = h
Ends-mono P Q fault f h = h
Ends-mono P Q out_of_fuel f h = h

pub Ends-bind :
    {O : Os} (P Q : State O → Type 0) (r : Result (Unit {0} × State O)) (k : M O (Unit {0}))
    → Ends P r
    → ((st : State O) → P st → Ends Q (k st))
    → Ends Q (bind_result r (λ _. k))
Ends-bind P Q (ok (a, st)) k h f = f st h
Ends-bind P Q exited k h f = tt
Ends-bind P Q fatal k h f = h
Ends-bind P Q fault k h f = h
Ends-bind P Q out_of_fuel k h f = h

abbrev pub IsLocalClose : CloseFunction → Type 0
IsLocalClose local_close = Unit {0}
IsLocalClose local_close_notify = Unit {0}
IsLocalClose remote_close = ⊥
IsLocalClose smart_close = ⊥

abbrev pub IsLocalReady : ReadyFunction → Type 0
IsLocalReady local_ready = Unit {0}
IsLocalReady local_ready_notify = Unit {0}
IsLocalReady remote_ready = ⊥
IsLocalReady smart_ready = ⊥

-- What the file keeps of every socket by itself: a socket that closes as a local one is watched
-- for writing while packets wait, and has the other functions of a local one; one with a function
-- that sends to the other side has a transport.
pub record IsSound (s : Socket) : Type 0 where
  pub watched : IsLocalClose s.close → (s.packets ≡ []) ⊎ (s.fde_write ≡ true)
  pub bound : s.shutdown ≡ remote_shutdown → (t : ℕ) × (s.transport ≡ some t)
  pub kind : IsLocalClose s.close → (s.enqueue ≡ local_enqueue) × IsLocalReady s.ready
  pub talks :
      (s.ready ≡ remote_ready) ⊎ (s.enqueue ≡ remote_enqueue) → (t : ℕ) × (s.transport ≡ some t)

pub restore_local-IsSound :
    (s : Socket) → IsSound s → IsLocalClose s.close → IsSound (restore_local s)
restore_local-IsSound s sound isl = record {
  watched = λ _. sound.watched isl;
  bound = λ x. cc;
  kind = λ _. ((sound.kind isl).0, tt);
  talks = λ x. talks x;
}
  where
    talks :
        (local_ready ≡ remote_ready) ⊎ (s.enqueue ≡ remote_enqueue)
        → (t : ℕ) × (s.transport ≡ some t)
    talks (inl x) = cc
    talks (inr x) = sound.talks (inr x)

-- A cell that is free, or holds a socket with no peer.
pub data IsQuiet : Option Socket → Type 0 where
  freed : {c : Option Socket} → c ≡ none → IsQuiet c
  alone : {c : Option Socket} (s : Socket) → c ≡ some s → s.peer ≡ none → IsSound s → IsQuiet c

-- Why a local socket may be destroyed at once: it was closing before, a write failed, or no packet
-- waits.
abbrev pub MayDrop : Socket → Type 0
MayDrop s = (s.closing ≡ true) ⊎ (s.has_write_error ≡ true) ⊎ (s.packets ≡ [])

-- The socket that was `s` waits as `u` until its packets are out: it is marked as closing and not
-- watched for reading, and has the packets and the descriptor that it had.
abbrev pub IsWaiting : Socket → Socket → Type 0
IsWaiting s u =
    IsLocalClose s.close
    × (u.closing ≡ true)
    × (u.fde_read ≡ false)
    × (u.packets ≡ s.packets)
    × (u.fd ≡ s.fd)

-- What became of the socket `s` at `p`: it is freed, and if it was local, its descriptor is closed
-- and it was one that may be dropped; or it waits on the closing list.
pub data Released {O : Os} (p : ℕ) (s : Socket) (st' : State O) : Type 0 where
  gone :
      st'.heap p ≡ none
      → (IsLocalClose s.close → (member s.fd st'.closed_fds ≡ true) × MayDrop s)
      → Released p s st'
  waits :
      (u : Socket)
      → st'.heap p ≡ some u
      → IsWaiting s u
      → member p st'.local_socket_closing_list ≡ true
      → Released p s st'

-- From `st` to `st'` only the cell at `p` changed, it is quiet now and its socket released, and `p`
-- left the local list; what was closed or waits, still is or does.
pub record Ended {O : Os} (p : ℕ) (st st' : State O) : Type 0 where
  pub released : (s : Socket) → st.heap p ≡ some s → Released p s st'
  pub kept_fds : (d : ℕ) → member d st.closed_fds ≡ true → member d st'.closed_fds ≡ true
  pub kept_waiting :
      (r : ℕ)
      → r ≢ p
      → member r st.local_socket_closing_list ≡ true
      → member r st'.local_socket_closing_list ≡ true
  pub others : (r : ℕ) → r ≢ p → st'.heap r ≡ st.heap r
  pub quiet : IsQuiet (st'.heap p)
  pub list : st'.local_socket_list ≡ erase p st.local_socket_list
  pub fresh : st'.next_address ≡ st.next_address

-- The same for a socket that differs only in its functions and its peer.
pub Released-as :
    {O : Os} (p : ℕ) (s s₁ : Socket) (st : State O)
    → (s₁.fd ≡ s.fd)
      × (s₁.closing ≡ s.closing)
      × (s₁.has_write_error ≡ s.has_write_error)
      × (s₁.packets ≡ s.packets)
    → (IsLocalClose s.close → IsLocalClose s₁.close)
    → (IsLocalClose s₁.close → IsLocalClose s.close)
    → Released p s₁ st
    → Released p s st
Released-as p s s₁ st (fd, closing, error, packets) there back (gone e h) = gone e (λ isl.
    let (closed, why) = h (there isl) in
    (sym (ap (λ d. member d st.closed_fds) fd) ∙ closed, drop why))
  where
    drop : MayDrop s₁ → MayDrop s
    drop (inl x) = inl (sym closing ∙ x)
    drop (inr (inl x)) = inr (inl (sym error ∙ x))
    drop (inr (inr x)) = inr (inr (sym packets ∙ x))
Released-as p s s₁ st (fd, closing, error, packets) there back (waits u e (isl, c, r, q, d) m) =
    waits u e (back isl, c, r, q ∙ packets, d ∙ fd) m

pub Released-at :
    {O : Os} (p : ℕ) (s : Socket) (st st' : State O)
    → st.heap p ≡ some s
    → Released p s st'
    → (u : Socket) → st.heap p ≡ some u
    → Released p u st'
Released-at p s st st' e h u at = subst (λ x. Released p x st') (some-injective _ _ (sym e ∙ at)) h

-- Another socket's end leaves it so.
pub Released-after :
    {O : Os} (p q : ℕ) (t : Socket) (st st' : State O)
    → q ≢ p
    → Ended p st st'
    → Released q t st
    → Released q t st'
Released-after p q t st st' apart d (gone e h) =
    gone (d.others q apart ∙ e) (λ isl. let (closed, why) = h isl in (d.kept_fds t.fd closed, why))
Released-after p q t st st' apart d (waits u e w m) =
    waits u (d.others q apart ∙ e) w (d.kept_waiting q apart m)

member-append : (d : ℕ) (l m : List ℕ) → member d l ≡ true → member d (l ++ m) ≡ true
unfolding member
member-append d [] m h = cc
member-append d (x ∷ l) m h = ground (arith, member-append d l m)

member-last : (d : ℕ) (l : List ℕ) → member d (l ++ (d ∷ [])) ≡ true
unfolding member
member-last d [] = ground arith
member-last d (x ∷ l) = ground (arith, member-last d l)

pub erase_absent : (p : ℕ) (l : List ℕ) → member p l ≡ false → erase p l ≡ l
unfolding member erase
erase_absent p [] h = refl
erase_absent p (q ∷ l) h = ground (arith, erase_absent p l)

abbrev removed : {O : Os} → ℕ → Socket → Bool → State O → State O
removed p s linked st = record st {
  heap = update st.heap p (some (record s { id = if linked then 0 else s.id }));
  local_socket_list = erase p st.local_socket_list;
  local_socket_closing_list = erase p st.local_socket_closing_list;
}

update_same : (h : ℕ → Option Socket) (p : ℕ) (s : Socket) → h p ≡ some s → update h p (some s) ≡ h
update_same h p s e = fun_ext (λ r. pointwise r)
  where
    pointwise : (r : ℕ) → update h p (some s) r ≡ h r
    pointwise r = elim (Bool-cases (r == p)) [
      | inl same ↦ rw same (let at : r ≡ p = ground arith in sym e ∙ ap h (sym at))
      | inr other ↦ rw other refl
    ]

remove_socket-removed :
    {O : Os} (p : ℕ) (s : Socket) (st : State O)
    → st.heap p ≡ some s
    → (linked : Bool) × (remove_socket p st ≡ ok (tt, removed p s linked st))
unfolding remove_socket
remove_socket-removed p s st e =
    elim (Bool-cases (member p st.local_socket_list || member p st.local_socket_closing_list)) [
      | inl linked ↦ (true, rw (linked, e) refl)
      | inr free_of ↦ (
        false,
        rw free_of (
            let a = erase_absent p st.local_socket_list (ground arith) in
            let b = erase_absent p st.local_socket_closing_list (ground arith) in
            λ i. ok (
              tt,
              record st {
                heap = sym (update_same st.heap p s e) i;
                local_socket_list = sym a i;
                local_socket_closing_list = sym b i;
              },
            )),
      )
    ]

Ends-exit_if :
    {O : Os} (P : State O → Type 0) (b : Bool) (st : State O) → P st → Ends P (exit_if b st)
Ends-exit_if P true st h = tt
Ends-exit_if P false st h = h

Ends-if_fatal :
    {O : Os} (P : State O → Type 0) (b : Bool) (st : State O)
    → b ≡ true
    → P st
    → Ends P (if b then ok (tt, st) else fatal)
Ends-if_fatal P true st e h = h
Ends-if_fatal P false st e h = cc

local_socket_destroy-Ended :
    {O : Os} (p : ℕ) (s : Socket) (st : State O)
    → st.heap p ≡ some s
    → MayDrop s
    → Ends (Ended p st) (local_socket_destroy p st)
unfolding local_socket_destroy
local_socket_destroy-Ended p s st e why =
    let st₁ = record st { closed_fds = st.closed_fds ++ (s.fd ∷ []) } in
    let (linked, r) = remove_socket-removed p s st₁ e in
    rw (e, r)
      (Ends-exit_if (Ended p st) s.exit_on_close _ (record {
        released =
            Released-at p s st _ e
              (gone (rw (==_refl p) refl) (λ isl. (member-last s.fd st.closed_fds, why)));
        kept_fds = λ d h. member-append d st.closed_fds (s.fd ∷ []) h;
        kept_waiting = λ r ne h. member-erase_other r p st.local_socket_closing_list ne ∙ h;
        others = λ r ne. let t : (r == p) ≡ false = ground arith in rw t refl;
        quiet = freed (rw (==_refl p) refl);
        list = refl;
        fresh = refl;
      }))

put_on_closing_list-Ended :
    {O : Os} (p : ℕ) (s : Socket) (st : State O)
    → st.heap p ≡ some s
    → s.peer ≡ none
    → IsSound s
    → s.fde_write ≡ true
    → IsLocalClose s.close
    → Ends (Ended p st) (put_on_closing_list p s st)
unfolding put_on_closing_list
put_on_closing_list-Ended p s st e lone sound w isl =
    let s₁ : Socket = record s { closing = true; fde_read = false } in
    let st₁ = record st { heap = update st.heap p (some s₁) } in
    let (linked, r) = remove_socket-removed p s₁ st₁ (rw (==_refl p) refl) in
    rw (r, ==_refl p)
      (Ends-if_fatal (Ended p st) s.fde_write _ w (record {
        released = Released-at p s st _ e (
            waits (record s₁ { id = if linked then 0 else s₁.id }) (rw (==_refl p) refl)
              (isl, refl, refl, refl, refl) (member-last p (erase p st.local_socket_closing_list)));
        kept_fds = λ d h. h;
        kept_waiting = λ r ne h.
            member-append r (erase p st.local_socket_closing_list) (p ∷ [])
              (member-erase_other r p st.local_socket_closing_list ne ∙ h);
        others = λ r ne. let t : (r == p) ≡ false = ground arith in rw t refl;
        quiet =
            alone (record s₁ { id = if linked then 0 else s₁.id }) (rw (==_refl p) refl) lone
              (record {
                watched = sound.watched;
                bound = sound.bound;
                kind = sound.kind;
                talks = sound.talks;
              });
        list = refl;
        fresh = refl;
      }))

empty_list : {A : Type 0} (l : List A) → is_empty l ≡ true → l ≡ []
empty_list [] h = refl
empty_list (x ∷ l) h = cc

is_empty-true : {A : Type 0} (l : List A) → is_empty l ≡ false → l ≢ []
is_empty-true [] h e = cc
is_empty-true (x ∷ l) h e = cc

-- Once a sound local socket has no peer, the rest of its close returns: the socket is destroyed
-- or waits on the closing list, and no other socket is touched.
pub finish_local_close-Ended :
    {O : Os} (p : ℕ) (s : Socket) (st : State O)
    → st.heap p ≡ some s
    → s.peer ≡ none
    → IsSound s
    → IsLocalClose s.close
    → Ends (Ended p st) (finish_local_close p st)
unfolding finish_local_close
finish_local_close-Ended p s st e lone sound isl =
    rw e (elim (Bool-cases (s.closing || s.has_write_error || is_empty s.packets)) [
      | inl now ↦ rw now (local_socket_destroy-Ended p s st e (may_drop now))
      | inr later ↦ rw later (
          put_on_closing_list-Ended p s st e lone sound
            (written (sound.watched isl) (is_empty-true s.packets (ground arith))) isl)
    ])
  where
    may_drop : (s.closing || s.has_write_error || is_empty s.packets) ≡ true → MayDrop s
    may_drop h = elim (Bool-cases s.closing) [
      | inl x ↦ inl x
      | inr x ↦ elim (Bool-cases s.has_write_error) [
        | inl y ↦ inr (inl y)
        | inr y ↦ inr (inr (empty_list s.packets (ground arith)))
      ]
    ]

    written : (s.packets ≡ []) ⊎ (s.fde_write ≡ true) → s.packets ≢ [] → s.fde_write ≡ true
    written (inl none_left) ne = absurd (ne none_left)
    written (inr w) ne = w

pub member-erase_absent : (p q : ℕ) (l : List ℕ) → member p l ≡ false → member p (erase q l) ≡ false
unfolding member erase
member-erase_absent p q [] h = refl
member-erase_absent p q (r ∷ l) h = ground (arith, member-erase_absent p q l)

pub member-erase :
    (r p : ℕ) (l : List ℕ) → member r (erase p l) ≡ true → (member r l ≡ true) × (r ≢ p)
unfolding member erase
member-erase r p [] h = cc
member-erase r p (q ∷ l) h = ground (arith, member-erase r p l)

pub length-erase : (p : ℕ) (l : List ℕ) → length (erase p l) ≤ length l
unfolding erase
length-erase p [] = omega arith
length-erase p (q ∷ l) = ground (arith, length-erase p l)

pub length-erase-member : (p : ℕ) (l : List ℕ) → member p l ≡ true → length (erase p l) < length l
unfolding member erase
length-erase-member p [] h = cc
length-erase-member p (q ∷ l) h = ground (arith, length-erase-member p l, length-erase p l)

pub erase_comm : (p q : ℕ) (l : List ℕ) → erase p (erase q l) ≡ erase q (erase p l)
unfolding erase
erase_comm p q [] = refl
erase_comm p q (r ∷ l) = ground (arith, erase_comm p q l)
