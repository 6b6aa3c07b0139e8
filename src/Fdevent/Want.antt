-- ===== src/Fdevent/Want.antt =====
-- fdevent_set keeps the invariant of the event loop, and a poll that is under way: an object
-- that is pending stays so only for events that are still wanted.
use adb_src.Base.{
  ℕ, Bool, true, false, ◌&&◌, Option, some, List, ◌≡◌, ◌≢◌, inl, inr, refl, sym, ap, ◌∙◌,
  Bool-cases, ==_refl,
}
use adb_src.Socket.Store.{member, erase}
use adb_src.Fdevent.{
  Flags, both_flags, any_flag, same_bool, same_flags, Fdevent, PollNode, Loop, put, node_at,
  put_node, trim_by, trim_pending, update_node, set_by, set_found, fdevent_set,
}
use adb_src.Fdevent.Pending.{IsNoded, IsConsistent, Keeps-IsConsistent}
use adb_src.Fdevent.Keep.{member-erase_other, member-erase_self, same_nodes-put, IsNoded-put}

same_bool-eq : (a b : Bool) → same_bool a b ≡ true → a ≡ b
same_bool-eq true true h = refl
same_bool-eq true false h = cc
same_bool-eq false true h = cc
same_bool-eq false false h = refl

and_true : (a b : Bool) → (a && b) ≡ true → (a ≡ true) × (b ≡ true)
and_true true b h = (refl, h)
and_true false b h = cc

same_flags-eq : (a b : Flags) → same_flags a b ≡ true → a ≡ b
same_flags-eq a b h =
    let read = same_bool a.read b.read in
    let write = same_bool a.write b.write in
    let error = same_bool a.error b.error in
    let (h₂, d) = and_true (read && write && error) (same_bool a.dont_close b.dont_close) h in
    let (h₁, e) = and_true (read && write) error h₂ in
    let (r, w) = and_true read write h₁ in
    λ i. record {
      read = same_bool-eq a.read b.read r i;
      write = same_bool-eq a.write b.write w i;
      error = same_bool-eq a.error b.error e i;
      dont_close = same_bool-eq a.dont_close b.dont_close d i;
    }

-- What fdevent_set leaves: the loop is consistent, the object is active and wants the events, and
-- the node of its descriptor, which is its own, asks poll for them.
abbrev pub Wants : ℕ → Flags → Loop → Type 0
Wants p events st =
    IsConsistent st
    × ((f : Fdevent) × (st.fdes p ≡ some f)
        × (f.flags ≡ events)
        × (f.active ≡ true)
        × IsNoded st.poll_node_map p f)

module _ (st : Loop) (c : IsConsistent st) (p : ℕ) (f : Fdevent) (e : st.fdes p ≡ some f)
    (active : f.active ≡ true) (events : Flags) where
  abbrev nodes : ℕ → Option PollNode
  nodes =
      put_node st.poll_node_map f.fd
        (some (record node { poll_in = events.read; poll_out = events.write }))
    where
      open c.noded p f e active use {node}

  own_node : (g : Fdevent) → g.fd ≡ f.fd → g.flags ≡ events → IsNoded nodes p g
  own_node g same wants =
      let i = c.noded p f e active in
      IsNoded-put st.poll_node_map p f g
        (record (i.node) { poll_in = events.read; poll_out = events.write }) i same i.own
        (ap (λ x. x.read) (sym wants)) (ap (λ x. x.write) (sym wants))

  others : (d : ℕ) (n : PollNode) → st.poll_node_map d ≡ some n → n.fde ≢ p → nodes d ≡ some n
  others = same_nodes-put st.poll_node_map p f _ (c.noded p f e active)

  -- The write of one object by fdevent_set, with what is left of the pending list.
  written-Wants :
      (g : Fdevent) (list : List ℕ)
      → g.fd ≡ f.fd
      → g.flags ≡ events
      → g.active ≡ true
      → ((r : ℕ) → r ≢ p → member r list ≡ member r st.pending_list)
      → member p list ≡ g.pending
      → (g.pending ≡ true → (g.active ≡ true) × (any_flag g.events ≡ true))
      → Wants p events
          (record st { fdes = put st.fdes p (some g); poll_node_map = nodes; pending_list = list })
  written-Wants g list same wants alive apart self signal = (
    Keeps-IsConsistent st c p g nodes list st.closed_fds (record {
      same_list = apart;
      own_list = self;
      own_signal = signal;
      own_node = λ h. own_node g same wants;
      same_nodes = others;
    }),
    (g, rw (==_refl p) refl, wants, alive, own_node g same wants),
  )

  trim_by-Wants :
      (b a : Bool)
      → f.pending ≡ b
      → any_flag (both_flags f.events events) ≡ a
      → Wants p events (
          trim_by b a p
            (both_flags f.events events)
            (record f { flags = events })
            (record st { poll_node_map = nodes }))
  unfolding trim_by
  trim_by-Wants false a quiet some_left =
      let g = record f { flags = events } in
      written-Wants g st.pending_list refl refl active (λ r h. refl) (c.listed p f e) (λ h. cc)
  trim_by-Wants true true waits some_left =
      let g = record f { flags = events; events = both_flags f.events events } in
      written-Wants g st.pending_list refl refl active (λ r h. refl) (c.listed p f e)
        (λ h. (active, some_left))
  trim_by-Wants true false waits none_left =
      let g = record f { flags = events; events = both_flags f.events events; pending = false } in
      written-Wants g (erase p st.pending_list) refl refl active
        (λ r h. member-erase_other r p st.pending_list h) (member-erase_self p st.pending_list)
        (λ h. cc)

  -- From a consistent loop, fdevent_set of an active object returns, in a consistent loop in which
  -- the object is still active and wants exactly these events: its node asks poll for them, and the
  -- object is on the pending list only with an event to report.
  pub fdevent_set-Wants : (st' : Loop) × (fdevent_set p events st ≡ some st') × Wants p events st'
  unfolding fdevent_set set_found set_by update_node trim_pending
  fdevent_set-Wants = elim (Bool-cases (same_flags f.flags events)) [
    | inl same ↦ (
      st,
      ap (λ x. set_found p events x st) e ∙ ap (λ b. set_by b f.active p events f st) same,
      (c, (f, e, same_flags-eq f.flags events same, active, c.noded p f e active)),
    )
    | inr differ ↦
        let i = c.noded p f e active in
        let found : node_at st f.fd ≡ some i.node = ap (node_at st) i.open_fd ∙ i.found in
        (
          _,
          ap (λ x. set_found p events x st) e
              ∙ ap (λ b. set_by b f.active p events f st) differ
              ∙ ap (λ b. set_by false b p events f st) active
              ∙ ap (λ n. update_node p events f n st) found,
          trim_by-Wants f.pending (any_flag (both_flags f.events events)) refl refl,
        )
  ]
