-- ===== src/Socket/Keep/Open.antt =====
-- New sockets on a well-formed store: create_local_socket, and create_remote_socket with the two
-- writes that join it to a local socket, as the cases A_OPEN and A_OKAY of handle_packet make them.
use mathlib.Core.Option.{some-injective}
use native.Mathlib.Decide.{ℕ_discrete}
use adb_src.Base.{
  ℕ, suc, ◌+◌, ◌%◌, ◌^◌, ◌≤◌, true, false, none, some, List, [], ◌∷◌, ◌++◌, ◌==◌, ◌≡◌, ◌≢◌, ◌⊎◌,
  inl, inr, refl, sym, ap, subst, ◌∙◌, arith, ==_refl,
}
use adb_src.Socket.Store.{
  Os, Socket, State, ok, update, member, local_ready, remote_ready, local_enqueue, remote_enqueue,
  M, ◌>>=◌, ◌>>◌, load, store,
}
use adb_src.Socket.Registry.{create_local_socket, new_local_socket, install_local_socket}
use adb_src.Socket.Remote.{create_remote_socket, new_remote_socket}
use adb_src.Socket.Close.Finish.{IsLocalClose, IsSound}
use adb_src.Socket.Close.Lone.{IsWellFormed}
use adb_src.Socket.Keep.Join.{Joined-IsWellFormed}

abbrev pub local_at : ℕ → ℕ → Socket
local_at fd id = record (new_local_socket fd) { id = id }

-- The store behind a successful create_local_socket.
abbrev pub opened : {O : Os} → ℕ → State O → State O
opened fd st = record st {
  heap =
      update (update st.heap st.next_address (some (new_local_socket fd))) st.next_address
        (some (local_at fd st.local_socket_next_id));
  next_address = suc st.next_address;
  local_socket_list = st.local_socket_list ++ (st.next_address ∷ []);
  local_socket_next_id = (st.local_socket_next_id + 1) % 2 ^ 32;
}

abbrev pub IdsLeft : {O : Os} → State O → Type 0
IdsLeft st = ((st.local_socket_next_id + 1) % 2 ^ 32) ≢ 0

local_at-IsSound : (fd id : ℕ) → IsSound (local_at fd id)
local_at-IsSound fd id = record {
  watched = λ h. inl refl;
  bound = λ e. cc;
  kind = λ h. (refl, tt);
  talks = talks;
}
  where
    talks :
        (local_ready ≡ remote_ready) ⊎ (local_enqueue ≡ remote_enqueue) → (t : ℕ) × (none ≡ some t)
    talks (inl e) = cc
    talks (inr e) = cc

member-end :
    (a q : ℕ) (l : List ℕ) → member a (l ++ (q ∷ [])) ≡ true → (member a l ≡ true) ⊎ (a ≡ q)
unfolding member
member-end a q [] h = ground arith
member-end a q (r ∷ l) h = ground (arith, member-end a q l)

module _ {O : Os} (fd : ℕ) (st : State O) where
  pub create_local_socket-opened :
      IdsLeft st → create_local_socket fd st ≡ ok (st.next_address, opened fd st)
  unfolding create_local_socket install_local_socket
  create_local_socket-opened left =
      let x : ((st.local_socket_next_id + 1) % 2 ^ 32 == 0) ≡ false = ground (arith, left) in
      rw (==_refl st.next_address, x) refl

  pub opened-at : (opened fd st).heap st.next_address ≡ some (local_at fd st.local_socket_next_id)
  opened-at = rw (==_refl st.next_address) refl

  old : (a : ℕ) → a ≢ st.next_address → (opened fd st).heap a ≡ st.heap a
  old a apart = let x : (a == st.next_address) ≡ false = ground (arith, apart) in rw x refl

  module _ (w : IsWellFormed st) where
    used : (a : ℕ) (u : Socket) → st.heap a ≡ some u → a ≢ st.next_address
    used a u e is = let x : none ≡ some u = sym (w.unused a (omega (arith, is))) ∙ e in cc

    pub opened-IsWellFormed : IsWellFormed (opened fd st)
    opened-IsWellFormed = record {
      paired = paired;
      sound = sound;
      listed = listed;
      unused = unused;
    }
      where
        paired :
            (a b : ℕ) (u : Socket)
            → (opened fd st).heap a ≡ some u
            → u.peer ≡ some b
            → (b ≢ a) × ((v : Socket) × ((opened fd st).heap b ≡ some v) × (v.peer ≡ some a))
        paired a b u e forth = elim (ℕ_discrete a st.next_address) [
          | yes is ↦
              let same = some-injective _ _ (sym opened-at ∙ ap (opened fd st).heap (sym is) ∙ e) in
              let x : none ≡ some b = ap (λ v. v.peer) same ∙ forth in cc
          | no apart ↦
              let (differ, (v, there, back)) = w.paired a b u (sym (old a apart) ∙ e) forth in
              (differ, (v, old b (used b v there) ∙ there, back))
        ]

        sound : (a : ℕ) (u : Socket) → (opened fd st).heap a ≡ some u → IsSound u
        sound a u e = elim (ℕ_discrete a st.next_address) [
          | yes is ↦
              subst IsSound
                (some-injective _ _ (sym opened-at ∙ ap (opened fd st).heap (sym is) ∙ e))
                (local_at-IsSound fd st.local_socket_next_id)
          | no apart ↦ w.sound a u (sym (old a apart) ∙ e)
        ]

        listed :
            (a : ℕ)
            → member a (st.local_socket_list ++ (st.next_address ∷ [])) ≡ true
            → (u : Socket) × ((opened fd st).heap a ≡ some u) × IsLocalClose u.close
        listed a m = elim (member-end a st.next_address st.local_socket_list m) [
          | inl before ↦ let (u, e, loc) = w.listed a before in (u, old a (used a u e) ∙ e, loc)
          | inr is ↦
              (local_at fd st.local_socket_next_id, ap (opened fd st).heap is ∙ opened-at, tt)
        ]

        unused : (a : ℕ) → suc st.next_address ≤ a → (opened fd st).heap a ≡ none
        unused a n = old a (λ is. absurd (omega (arith, is, n))) ∙ w.unused a (omega (arith, n))

-- The remote socket, and the store, once the two are joined.
abbrev pub remote_at : ℕ → ℕ → ℕ → Socket
remote_at id t p = record (new_remote_socket id t) { peer = some p }

abbrev pub joined : {O : Os} → ℕ → Socket → ℕ → ℕ → State O → State O
joined p s id t st = record st {
  heap =
      update
        (update (update st.heap st.next_address (some (new_remote_socket id t))) p
          (some (record s { peer = some st.next_address })))
        st.next_address (some (remote_at id t p));
  next_address = suc st.next_address;
}

module _ {O : Os} (p : ℕ) (s : Socket) (id t : ℕ) (st : State O) (w : IsWellFormed st)
    (at : st.heap p ≡ some s) (lone : s.peer ≡ none) where
  apart : p ≢ st.next_address
  apart is = let x : none ≡ some s = sym (w.unused p (omega (arith, is))) ∙ at in cc

  pub joined-here : (joined p s id t st).heap p ≡ some (record s { peer = some st.next_address })
  joined-here =
      let x : (p == st.next_address) ≡ false = ground (arith, apart) in rw (x, ==_refl p) refl

  pub joined-there : (joined p s id t st).heap st.next_address ≡ some (remote_at id t p)
  joined-there = rw (==_refl st.next_address) refl

  pub joined-IsWellFormed : IsWellFormed (joined p s id t st)
  joined-IsWellFormed =
      let sound = w.sound p s at in
      Joined-IsWellFormed p st.next_address s (remote_at id t p) st (joined p s id t st) w (record {
        at = at;
        lone = lone;
        new = refl;
        here = (
          record s { peer = some st.next_address },
          joined-here,
          refl,
          record {
            watched = sound.watched;
            bound = sound.bound;
            kind = sound.kind;
            talks = sound.talks;
          },
          λ l. l,
        );
        there = joined-there;
        back = refl;
        sound = record {
          watched = λ h. elim h [ ];
          bound = λ e. (t, refl);
          kind = λ h. elim h [ ];
          talks = λ e. (t, refl);
        };
        others = λ r np nq.
            let x : (r == p) ≡ false = ground (arith, np) in
            let y : (r == st.next_address) ≡ false = ground (arith, nq) in rw (y, x) refl;
        list = refl;
        next = refl;
      })

  -- The three steps that join a new remote socket to the socket at `p`, with what follows.
  pub join-run :
      {B : Type 0} (k : ℕ → Socket → Socket → M O B)
      → id ≢ 0
      → (do
        q ← create_remote_socket id t
        u ← load p
        store p (record u { peer = some q })
        r ← load q
        store q (record r { peer = some p })
        k q u r)
          st
        ≡ k st.next_address s (new_remote_socket id t) (joined p s id t st)
  unfolding create_remote_socket
  join-run k nonzero =
      let x : (id == 0) ≡ false = ground (arith, nonzero) in
      let y : (p == st.next_address) ≡ false = ground (arith, apart) in
      let z : (st.next_address == p) ≡ false = ground (arith, apart) in
      rw (x, y, at, z, ==_refl st.next_address) refl
