-- ===== src/Fdevent/Pending.antt =====
-- The invariant of the event loop: an object is on the pending list exactly when its flag says so,
-- and the node of its descriptor asks poll for what it wants.
use adb_src.Base.{
  ℕ, true, false, Option, some, List, ◌==◌, ◌≡◌, ◌≢◌, ◌⊎◌, inl, inr, refl, sym, ap, subst, ◌∙◌,
  arith, Bool-cases, ==_iff,
}
use mathlib.Core.Option.{some-injective}
use adb_src.Socket.Store.{member}
use adb_src.Fdevent.{any_flag, Fdevent, PollNode, Loop, put}

-- The node of an active object: its own, asking for what the object wants.
pub record IsNoded (nodes : ℕ → Option PollNode) (p : ℕ) (f : Fdevent) : Type 0 where
  pub descriptor : ℕ
  pub open_fd : f.fd ≡ some descriptor
  pub node : PollNode
  pub found : nodes descriptor ≡ some node
  pub own : node.fde ≡ p
  pub wants_read : node.poll_in ≡ f.flags.read
  pub wants_write : node.poll_out ≡ f.flags.write

pub record IsConsistent (st : Loop) : Type 0 where
  pub listed : (p : ℕ) (f : Fdevent) → st.fdes p ≡ some f → member p st.pending_list ≡ f.pending
  pub live : (p : ℕ) → member p st.pending_list ≡ true → (f : Fdevent) × (st.fdes p ≡ some f)
  pub signalled :
      (p : ℕ) (f : Fdevent)
      → st.fdes p ≡ some f
      → f.pending ≡ true
      → (f.active ≡ true) × (any_flag f.events ≡ true)
  pub noded :
      (p : ℕ) (f : Fdevent) → st.fdes p ≡ some f → f.active ≡ true → IsNoded st.poll_node_map p f

-- Every node is that of an object which is active on its descriptor.
abbrev pub IsOwned : Loop → Type 0
IsOwned st =
    (d : ℕ) (n : PollNode)
    → st.poll_node_map d ≡ some n
    → (f : Fdevent) × (st.fdes n.fde ≡ some f) × (f.active ≡ true) × (f.fd ≡ some d)

-- The conditions under which a write to one object keeps the invariant.
pub record Keeps (st : Loop) (p : ℕ) (f : Fdevent) (nodes : ℕ → Option PollNode) (list : List ℕ)
    : Type 0 where
  pub same_list : (r : ℕ) → r ≢ p → member r list ≡ member r st.pending_list
  pub own_list : member p list ≡ f.pending
  pub own_signal : f.pending ≡ true → (f.active ≡ true) × (any_flag f.events ≡ true)
  pub own_node : f.active ≡ true → IsNoded nodes p f
  pub same_nodes :
      (d : ℕ) (n : PollNode) → st.poll_node_map d ≡ some n → n.fde ≢ p → nodes d ≡ some n

module _ (st : Loop) (c : IsConsistent st) (p : ℕ) (f : Fdevent) (nodes : ℕ → Option PollNode)
    (list closed : List ℕ) (k : Keeps st p f nodes list) where
  cell :
      (r : ℕ) (u : Fdevent)
      → put st.fdes p (some f) r ≡ some u
      → ((r ≡ p) × (u ≡ f)) ⊎ ((r ≢ p) × (st.fdes r ≡ some u))
  cell r u e = elim (Bool-cases (r == p)) [
    | inl same ↦ inl ((==_iff r p).0 same, some-injective _ _ (sym e ∙ rw same refl))
    | inr apart ↦ inr (ground arith, sym (rw apart refl) ∙ e)
  ]

  pub Keeps-IsConsistent : IsConsistent (record {
    fdes = put st.fdes p (some f);
    poll_node_map = nodes;
    pending_list = list;
    closed_fds = closed;
  })
  Keeps-IsConsistent = record {
    listed = λ r u e. listed r u (cell r u e);
    live = λ r m. live r m (Bool-cases (r == p));
    signalled = λ r u e. signalled r u (cell r u e);
    noded = λ r u e. noded r u (cell r u e);
  }
    where
      listed :
          (r : ℕ) (u : Fdevent)
          → ((r ≡ p) × (u ≡ f)) ⊎ ((r ≢ p) × (st.fdes r ≡ some u))
          → member r list ≡ u.pending
      listed r u (inl (here, same)) =
          ap (λ x. member x list) here ∙ k.own_list ∙ ap (λ x. x.pending) (sym same)
      listed r u (inr (apart, old)) = k.same_list r apart ∙ c.listed r u old

      live :
          (r : ℕ)
          → member r list ≡ true
          → ((r == p) ≡ true) ⊎ ((r == p) ≡ false)
          → (u : Fdevent) × (put st.fdes p (some f) r ≡ some u)
      live r m (inl same) = (f, rw same refl)
      live r m (inr apart) =
          let (u, e) = c.live r (sym (k.same_list r (ground arith)) ∙ m) in (u, rw apart e)

      signalled :
          (r : ℕ) (u : Fdevent)
          → ((r ≡ p) × (u ≡ f)) ⊎ ((r ≢ p) × (st.fdes r ≡ some u))
          → u.pending ≡ true
          → (u.active ≡ true) × (any_flag u.events ≡ true)
      signalled r u (inl (here, same)) h =
          subst (λ x. (x.active ≡ true) × (any_flag x.events ≡ true)) (sym same)
            (k.own_signal (ap (λ x. x.pending) (sym same) ∙ h))
      signalled r u (inr (apart, old)) h = c.signalled r u old h

      noded :
          (r : ℕ) (u : Fdevent)
          → ((r ≡ p) × (u ≡ f)) ⊎ ((r ≢ p) × (st.fdes r ≡ some u))
          → u.active ≡ true
          → IsNoded nodes r u
      noded r u (inl (here, same)) h =
          subst (λ x. IsNoded nodes x u) (sym here)
            (subst (IsNoded nodes p) (sym same) (k.own_node (ap (λ x. x.active) (sym same) ∙ h)))
      noded r u (inr (apart, old)) h =
          let n = c.noded r u old h in
          record {
            descriptor = n.descriptor;
            open_fd = n.open_fd;
            node = n.node;
            found = k.same_nodes n.descriptor n.node n.found (λ e. apart (sym n.own ∙ e));
            own = n.own;
            wants_read = n.wants_read;
            wants_write = n.wants_write;
          }
