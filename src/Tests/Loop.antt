-- ===== src/Tests/Loop.antt =====
-- Runs of the event loop: one object, at 4, installed on the descriptor 7 and pending.
use adb_src.Base.{
  ℕ, true, false, Option, none, some, [], ◌∷◌, ◌==◌, if◌then◌else◌, ◌≡◌, ◌≢◌, refl, ap, sym, ◌∙◌,
  arith, subst, inl, inr, Bool-cases, ==_iff,
}
use mathlib.Core.Option.{some-injective}
use adb_src.Socket.Store.{member}
use adb_src.Fdevent.{
  Flags, no_flags, Fdevent, PollNode, Loop, installed, fdevent_install, fdevent_remove, fdevent_set,
}
use adb_src.Fdevent.Pending.{IsNoded, IsConsistent, IsOwned}
use adb_src.Fdevent.Keep.{fdevent_remove-IsConsistent, fdevent_install-IsConsistent}
use adb_src.Fdevent.Want.{Wants, fdevent_set-Wants}

abbrev idle : Loop
idle = record { fdes = λ p. none; poll_node_map = λ d. none; pending_list = []; closed_fds = [] }

idle-IsConsistent : IsConsistent idle
unfolding member
idle-IsConsistent = record {
  listed = λ p f e. cc;
  live = λ p m. cc;
  signalled = λ p f e h. cc;
  noded = λ p f e h. cc;
}

abbrev reading : Flags
reading = record no_flags { read = true }

abbrev busy : Fdevent
busy = record (installed 7) { pending = true; flags = reading; events = reading }

abbrev one_cell : ℕ → Option Fdevent
one_cell p = if p == 4 then some busy else none

abbrev one_node : ℕ → Option PollNode
one_node d = if d == 7 then some (record { fde = 4; poll_in = true; poll_out = false }) else none

abbrev waiting : Loop
waiting = record {
  fdes = one_cell;
  poll_node_map = one_node;
  pending_list = 4 ∷ [];
  closed_fds = [];
}

only_cell : (p : ℕ) (f : Fdevent) → one_cell p ≡ some f → (p ≡ 4) × (busy ≡ f)
only_cell p f e = elim (Bool-cases (p == 4)) [
  | inl same ↦ ((==_iff p 4).0 same, some-injective _ _ (rw same at e))
  | inr apart ↦ let x : none ≡ some f = rw apart at e in cc
]

waiting-IsConsistent : IsConsistent waiting
unfolding member
waiting-IsConsistent = record {
  listed = λ p f e.
      let (here, same) = only_cell p f e in
      ap (λ x. member x (4 ∷ [])) here ∙ ap (λ x. x.pending) same;
  live = λ p m. (busy, let t : (p == 4) ≡ true = ground arith in rw t refl);
  signalled = λ p f e h.
      subst (λ x. (x.active ≡ true) × (adb_src.Fdevent.any_flag x.events ≡ true))
        (only_cell p f e).1 (refl, refl);
  noded = λ p f e h.
      let (here, same) = only_cell p f e in
      subst (λ x. IsNoded one_node p x) same (subst (λ x. IsNoded one_node x busy) (sym here) node);
}
  where
    node : IsNoded one_node 4 busy
    node = record {
      descriptor = 7;
      open_fd = refl;
      node = record { fde = 4; poll_in = true; poll_out = false };
      found = refl;
      own = refl;
      wants_read = refl;
      wants_write = refl;
    }

fdevent_install-IsConsistent_example :
    (st' : Loop) × (fdevent_install 4 7 idle ≡ some st')
    × IsConsistent st'
    × (st'.fdes 4 ≡ some (installed 7))
unfolding member
fdevent_install-IsConsistent_example =
    fdevent_install-IsConsistent idle 4 7 idle-IsConsistent refl refl

waiting-IsOwned : IsOwned waiting
waiting-IsOwned d n at = elim (Bool-cases (d == 7)) [
  | inl same ↦
      let here : d ≡ 7 = (==_iff d 7).0 same in
      let is : record { fde = 4; poll_in = true; poll_out = false } ≡ n =
        some-injective _ _ (rw same at at) in
      (busy, subst (λ x. one_cell (x.fde) ≡ some busy) is refl, refl, ap some (sym here))
  | inr apart ↦ let x : none ≡ some n = rw apart at at in cc
]

fdevent_remove-IsConsistent_example :
    (st' : Loop) × (fdevent_remove 4 waiting ≡ some st')
    × IsConsistent st'
    × IsOwned st'
    × ((d : ℕ) (n : PollNode) → st'.poll_node_map d ≡ some n → n.fde ≢ 4)
    × (member 4 st'.pending_list ≡ false)
    × ((f' : Fdevent) × (st'.fdes 4 ≡ some f') × (f'.active ≡ false))
fdevent_remove-IsConsistent_example =
    fdevent_remove-IsConsistent waiting waiting-IsConsistent waiting-IsOwned 4 busy refl

fdevent_set-Wants_example :
    (st' : Loop) × (fdevent_set 4 no_flags waiting ≡ some st') × Wants 4 no_flags st'
fdevent_set-Wants_example = fdevent_set-Wants waiting waiting-IsConsistent 4 busy refl refl no_flags
