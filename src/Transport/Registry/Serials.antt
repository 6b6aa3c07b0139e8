-- ===== src/Transport/Registry/Serials.antt =====
-- The search of a list of transports for a serial, and what init_socket_transport leaves alone.
use adb_src.Base.{
  ℕ, Bool, true, false, Option, none, some, List, [], ◌∷◌, ◌==◌, ◌≡◌, ◌≢◌, ◌⊎◌, inl, inr, refl, sym,
  ap, ◌∙◌, arith, Bool-cases, Bytes, All,
}
use adb_src.Transport.Registry.{
  Entry, Registry, set_cell, Outcome, success, failure, fault, has_serial, check_serial,
  find_serial, get_local_port_for_emulator, use_first_slot,
}

-- Every transport of the list is live.
abbrev pub AreLive : (ℕ → Option Entry) → List ℕ → Type 0
AreLive heap = All (λ a. (e : Entry) × (heap a ≡ some e))

-- No transport of the list has the serial.
abbrev pub NoneHas : Bytes → (ℕ → Option Entry) → List ℕ → Type 0
NoneHas serial heap =
    All (λ a. (e : Entry) × (heap a ≡ some e) × (has_serial serial e.transport.serial ≡ false))

-- A transport of the list has the serial.
abbrev pub OneHas : Bytes → (ℕ → Option Entry) → List ℕ → Type 0
OneHas serial heap [] = ⊥
OneHas serial heap (a ∷ l) =
    ((e : Entry) × (heap a ≡ some e) × (has_serial serial e.transport.serial ≡ true))
    ⊎ OneHas serial heap l

pub find_serial-cases :
    (serial : Bytes) (heap : ℕ → Option Entry) (l : List ℕ)
    → AreLive heap l
    → ((find_serial serial heap l ≡ some none) × NoneHas serial heap l)
      ⊎ ((a : ℕ) × (find_serial serial heap l ≡ some (some a)) × OneHas serial heap l)
unfolding find_serial check_serial
find_serial-cases serial heap [] live = inl (refl, tt)
find_serial-cases serial heap (a ∷ l) ((e, at), live) =
    elim (Bool-cases (has_serial serial e.transport.serial)) [
      | inl has ↦ inr (a, rw (at, has) refl, inl (e, at, has))
      | inr lacks ↦ elim (find_serial-cases serial heap l live) [
        | inl (stops, rest) ↦ inl (rw (at, lacks) stops, ((e, at, lacks), rest))
        | inr (b, found, there) ↦ inr (b, rw (at, lacks) found, inr there)
      ]
    ]

-- Cells other than `a` are as they were.
abbrev pub SameBut : ℕ → (ℕ → Option Entry) → (ℕ → Option Entry) → Type 0
SameBut a h h' = (b : ℕ) → b ≢ a → h' b ≡ h b

pub set_cell-SameBut :
    (a : ℕ) (e : Option Entry) (h : ℕ → Option Entry) → SameBut a h (set_cell a e h)
set_cell-SameBut a e h b differ = let x : (b == a) ≡ false = ground (arith, differ) in rw x refl

pub AreLive-same :
    (a : ℕ) (h h' : ℕ → Option Entry) (l : List ℕ)
    → SameBut a h h'
    → h a ≡ none
    → AreLive h l
    → AreLive h' l
AreLive-same a h h' [] same free live = tt
AreLive-same a h h' (b ∷ l) same free ((e, at), live) = (
  (e, same b (λ is. let x : none ≡ some e = sym free ∙ ap h (sym is) ∙ at in cc) ∙ at),
  AreLive-same a h h' l same free live,
)

pub NoneHas-same :
    (serial : Bytes) (a : ℕ) (h h' : ℕ → Option Entry) (l : List ℕ)
    → SameBut a h h'
    → h a ≡ none
    → AreLive h l
    → NoneHas serial h' l
    → NoneHas serial h l
NoneHas-same serial a h h' [] same free live none_has = tt
NoneHas-same serial a h h' (b ∷ l) same free ((e, at), live) ((f, at', lacks), rest) = (
  (
    f,
    sym (same b (λ is. let x : none ≡ some e = sym free ∙ ap h (sym is) ∙ at in cc)) ∙ at',
    lacks,
  ),
  NoneHas-same serial a h h' l same free live rest,
)

pub OneHas-same :
    (serial : Bytes) (a : ℕ) (h h' : ℕ → Option Entry) (l : List ℕ)
    → SameBut a h h'
    → h a ≡ none
    → AreLive h l
    → OneHas serial h' l
    → OneHas serial h l
OneHas-same serial a h h' (b ∷ l) same free ((e, at), live) (inl (f, at', has)) =
    inl (
      f,
      sym (same b (λ is. let x : none ≡ some e = sym free ∙ ap h (sym is) ∙ at in cc)) ∙ at',
      has,
    )
OneHas-same serial a h h' (b ∷ l) same free ((e, at), live) (inr rest) =
    inr (OneHas-same serial a h h' l same free live rest)
OneHas-same serial a h h' [] same free live h1 = h1

-- What init_socket_transport leaves of a table that it can search: the lists, and every cell but
-- the new one, whose entry has no serial yet.
pub record Initialized (a : ℕ) (st st' : Registry) : Type 0 where
  pub same : SameBut a st.heap st'.heap
  pub new : (e : Entry) × (st'.heap a ≡ some e)
  pub transport_list : st'.transport_list ≡ st.transport_list
  pub pending_list : st'.pending_list ≡ st.pending_list

-- A transport of the table has the port.
abbrev pub HasPort : ℕ → (ℕ → Option Entry) → List (Option ℕ) → Type 0
HasPort port heap [] = ⊥
HasPort port heap (none ∷ slots) = HasPort port heap slots
HasPort port heap (some a ∷ slots) =
    ((e : Entry) × (heap a ≡ some e) × (get_local_port_for_emulator e ≡ some port))
    ⊎ HasPort port heap slots

-- Every slot is taken.
abbrev pub IsFull : List (Option ℕ) → Type 0
IsFull = All (λ slot. (a : ℕ) × (slot ≡ some a))

-- Why the table refuses an emulator.
abbrev pub Refuses : ℕ → Registry → Type 0
Refuses port st = HasPort port st.heap st.local_transports ⊎ IsFull st.local_transports

-- Only an emulator can be refused.
abbrev pub InitEnds : ℕ → Bool → ℕ → Registry → Outcome → Type 0
InitEnds port local a st (success st') = Initialized a st st'
InitEnds port local a st (failure st') = Initialized a st st' × (local ≡ true) × Refuses port st
InitEnds port local a st fault = ⊥

pub use_first_slot-cases :
    (a : ℕ) (slots : List (Option ℕ))
    → ((slots' : List (Option ℕ)) × (use_first_slot a slots ≡ some slots'))
      ⊎ ((use_first_slot a slots ≡ none) × IsFull slots)
unfolding use_first_slot
use_first_slot-cases a [] = inr (refl, tt)
use_first_slot-cases a (none ∷ slots) = inl (some a ∷ slots, refl)
use_first_slot-cases a (some b ∷ slots) = elim (use_first_slot-cases a slots) [
  | inl (slots', e) ↦ inl (some b ∷ slots', rw e refl)
  | inr (e, full) ↦ inr (rw e refl, ((b, refl), full))
]

pub take_slot-Initialized :
    (a : ℕ) (st st' : Registry) (slots : List (Option ℕ))
    → Initialized a st st'
    → Initialized a st (record st' { local_transports = slots })
take_slot-Initialized a st st' slots i = record {
  same = i.same;
  new = i.new;
  transport_list = i.transport_list;
  pending_list = i.pending_list;
}
