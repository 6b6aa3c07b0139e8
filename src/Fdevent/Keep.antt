-- ===== src/Fdevent/Keep.antt =====
-- Every operation on an object of the event loop keeps the invariant of Fdevent/Pending.
use adb_src.Base.{
  ℕ, false, Option, none, some, List, [], ◌∷◌, ◌==◌, if◌then◌else◌, ◌≡◌, ◌≢◌, ◌⊎◌, true, inl, inr,
  refl, sym, ap, ◌∙◌, arith, Bool-cases, ==_refl, ==_iff,
}
use mathlib.Core.Option.{some-injective}
use adb_src.Socket.Store.{member, erase}
use adb_src.Fdevent.{
  Fdevent, PollNode, Loop, put, put_node, installed, install_at, fdevent_install, removed,
  close_unless_kept, remove_found, fdevent_remove,
}
use adb_src.Fdevent.Pending.{IsNoded, IsConsistent, IsOwned, Keeps-IsConsistent}

pub member-erase_other : (r p : ℕ) (l : List ℕ) → r ≢ p → member r (erase p l) ≡ member r l
unfolding member erase
member-erase_other r p [] h = refl
member-erase_other r p (q ∷ l) h = ground (arith, member-erase_other r p l h)

pub member-erase_self : (p : ℕ) (l : List ℕ) → member p (erase p l) ≡ false
unfolding member erase
member-erase_self p [] = refl
member-erase_self p (q ∷ l) = ground (arith, member-erase_self p l)

-- A write to the node of the object leaves the nodes of the others.
pub same_nodes-put :
    (nodes : ℕ → Option PollNode) (p : ℕ) (f : Fdevent) (v : Option PollNode)
    → IsNoded nodes p f
    → (d : ℕ) (n : PollNode) → nodes d ≡ some n
    → n.fde ≢ p
    → put_node nodes f.fd v d ≡ some n
same_nodes-put nodes p f v i d n at foreign =
    ap (λ x. put_node nodes x v d) i.open_fd ∙ elim (Bool-cases (d == i.descriptor)) [
      | inl same ↦
          let here : d ≡ i.descriptor = (==_iff d i.descriptor).0 same in
          let this : n ≡ i.node = some-injective _ _ (sym at ∙ ap nodes here ∙ i.found) in
          absurd (foreign (ap (λ x. x.fde) this ∙ i.own))
      | inr apart ↦ rw apart at
    ]

pub IsNoded-put :
    (nodes : ℕ → Option PollNode) (p : ℕ) (f g : Fdevent) (node : PollNode)
    → IsNoded nodes p f
    → g.fd ≡ f.fd
    → node.fde ≡ p
    → node.poll_in ≡ g.flags.read
    → node.poll_out ≡ g.flags.write
    → IsNoded (put_node nodes f.fd (some node)) p g
IsNoded-put nodes p f g node i same own reads writes = record {
  descriptor = i.descriptor;
  open_fd = same ∙ i.open_fd;
  node = node;
  found =
      ap (λ x. put_node nodes x (some node) i.descriptor) i.open_fd
      ∙ rw (==_refl i.descriptor) refl;
  own = own;
  wants_read = reads;
  wants_write = writes;
}

module _ (st : Loop) (c : IsConsistent st) (o : IsOwned st) (p : ℕ) (f : Fdevent)
    (e : st.fdes p ≡ some f) where
  -- Without the node of an active object, every node is still that of an active object, and none
  -- is this one's.
  removed-IsOwned :
      (i : IsNoded st.poll_node_map p f) (d : ℕ) (n : PollNode)
      → put_node st.poll_node_map f.fd none d ≡ some n
      → (n.fde ≢ p) × (st.poll_node_map d ≡ some n)
  removed-IsOwned i d n at = go (Bool-cases (d == i.descriptor))
    where
      at' : put st.poll_node_map i.descriptor none d ≡ some n
      at' = ap (λ x. put_node st.poll_node_map x none d) (sym i.open_fd) ∙ at

      go :
          ((d == i.descriptor) ≡ true) ⊎ ((d == i.descriptor) ≡ false)
          → (n.fde ≢ p) × (st.poll_node_map d ≡ some n)
      go (inl same) = let x = rw same at at' in cc
      go (inr apart) =
          let old : st.poll_node_map d ≡ some n = rw apart at at' in
          (
            λ own.
                let (g, there, active, fd) = o d n old in
                let is : g ≡ f = some-injective _ _ (sym there ∙ ap st.fdes own ∙ e) in
                let same : d ≡ i.descriptor =
                  some-injective _ _ (sym fd ∙ ap (λ x. x.fd) is ∙ i.open_fd) in
                let differ : (d == i.descriptor) ≡ true = (==_iff d i.descriptor).1 same in cc,
            old,
          )

  idle_unowned : f.active ≡ false → (d : ℕ) (n : PollNode) → st.poll_node_map d ≡ some n → n.fde ≢ p
  idle_unowned idle d n at own =
      let (g, there, active, fd) = o d n at in
      let is : g ≡ f = some-injective _ _ (sym there ∙ ap st.fdes own ∙ e) in
      let x : true ≡ false = sym active ∙ ap (λ x. x.active) is ∙ idle in cc

  -- fdevent_remove of an object returns in a consistent loop, in which the object is inactive and
  -- not on the pending list: its callback is not called for events from before. Where every node
  -- was that of an active object, so it is after it, and no node is this object's.
  pub fdevent_remove-IsConsistent :
      (st' : Loop) × (fdevent_remove p st ≡ some st')
      × IsConsistent st'
      × IsOwned st'
      × ((d : ℕ) (n : PollNode) → st'.poll_node_map d ≡ some n → n.fde ≢ p)
      × (member p st'.pending_list ≡ false)
      × ((f' : Fdevent) × (st'.fdes p ≡ some f') × (f'.active ≡ false))
  unfolding fdevent_remove remove_found
  fdevent_remove-IsConsistent = elim (Bool-cases f.active) [
    | inr idle ↦ (st, rw (e, idle) refl, c, o, idle_unowned idle, idle_unlisted idle, (f, e, idle))
    | inl active ↦ (
      _,
      rw (e, active) refl,
      Keeps-IsConsistent st c p (removed f) (put_node st.poll_node_map f.fd none) rest
          (close_unless_kept f st.closed_fds)
          (record {
            same_list = others;
            own_list = self;
            own_signal = λ h. cc;
            own_node = λ h. cc;
            same_nodes = same_nodes-put st.poll_node_map p f none (c.noded p f e active);
          }),
      (λ d n at.
          let (foreign, old) = removed-IsOwned (c.noded p f e active) d n at in
          let (g, there, lives, fd) = o d n old in
          let apart : (n.fde == p) ≡ false = ground (arith, foreign) in
          (g, rw apart there, lives, fd)),
      (λ d n at. (removed-IsOwned (c.noded p f e active) d n at).0),
      self,
      (removed f, rw (==_refl p) refl, refl),
    )
  ]
    where
      idle_unlisted : f.active ≡ false → member p st.pending_list ≡ false
      idle_unlisted idle = elim (Bool-cases f.pending) [
        | inl waits ↦ let x = (c.signalled p f e waits).0 in cc
        | inr quiet ↦ c.listed p f e ∙ quiet
      ]

      rest : List ℕ
      rest = if f.pending then erase p st.pending_list else st.pending_list

      others : (r : ℕ) → r ≢ p → member r rest ≡ member r st.pending_list
      others r apart = elim (Bool-cases f.pending) [
        | inl waits ↦ rw waits (member-erase_other r p st.pending_list apart)
        | inr quiet ↦ rw quiet refl
      ]

      self : member p rest ≡ false
      self = elim (Bool-cases f.pending) [
        | inl waits ↦ rw waits (member-erase_self p st.pending_list)
        | inr quiet ↦ rw quiet (c.listed p f e ∙ quiet)
      ]

-- fdevent_install on a descriptor that is not in use, of an object that is not pending, returns in
-- a consistent loop in which the object is active and wants nothing.
pub fdevent_install-IsConsistent :
    (st : Loop) (p fd : ℕ)
    → IsConsistent st
    → member p st.pending_list ≡ false
    → st.poll_node_map fd ≡ none
    → (st' : Loop) × (fdevent_install p fd st ≡ some st')
      × IsConsistent st'
      × (st'.fdes p ≡ some (installed fd))
unfolding fdevent_install install_at
fdevent_install-IsConsistent st p fd c quiet unused = (
  _,
  ap (λ n. install_at p fd n st) unused,
  Keeps-IsConsistent st c p (installed fd) (put st.poll_node_map fd (some node)) st.pending_list
      st.closed_fds
      (record {
        same_list = λ r h. refl;
        own_list = quiet;
        own_signal = λ h. cc;
        own_node = λ h. record {
          descriptor = fd;
          open_fd = refl;
          node = node;
          found = rw (==_refl fd) refl;
          own = refl;
          wants_read = refl;
          wants_write = refl;
        };
        same_nodes = others;
      }),
  rw (==_refl p) refl,
)
  where
    node : PollNode
    node = record { fde = p; poll_in = false; poll_out = false }

    others :
        (d : ℕ) (n : PollNode)
        → st.poll_node_map d ≡ some n
        → n.fde ≢ p
        → put st.poll_node_map fd (some node) d ≡ some n
    others d n at foreign = elim (Bool-cases (d == fd)) [
      | inl same ↦
          let x : none ≡ some n =
            sym unused ∙ ap st.poll_node_map (sym ((==_iff d fd).0 same)) ∙ at in
          cc
      | inr apart ↦ rw apart at
    ]
