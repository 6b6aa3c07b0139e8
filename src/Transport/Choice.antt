-- ===== src/Transport/Choice.antt =====
-- acquire_one_transport is the choice of the only transport that fits, and qual_match a comparison
-- of whole strings.
use adb_src.Base.{
  ℕ, Bool, true, false, not, ◌&&◌, ◌||◌, Option, none, some, List, [], ◌∷◌, ◌++◌, map, ◌==◌,
  if◌then◌else◌, Bytes, bytes_eq, ◌≡◌, refl, ap, ◌∙◌, inl, inr, Bool-cases, arith,
}
use adb_src.Transport.{
  Transport, TransportType, match_prefix, match_rest, match_behind, sanitize, qual_match,
  AcquireError, Acquired, has_no_permission, is_unauthorized, is_offline, finish_acquire, hand_out,
  is_candidate, consider, scan, acquire_one_transport, more_error, not_found_error,
}

match_rest-bytes_eq :
    (san : Bool) (qual s : Bytes) → match_rest san qual s ≡ bytes_eq (map (sanitize san) qual) s
unfolding match_rest bytes_eq
match_rest-bytes_eq san [] [] = refl
match_rest-bytes_eq san [] (d ∷ s) = refl
match_rest-bytes_eq san (c ∷ qual) [] = refl
match_rest-bytes_eq san (c ∷ qual) (d ∷ s) = elim (Bool-cases (sanitize san c == d)) [
  | inl same ↦ rw same (match_rest-bytes_eq san qual s)
  | inr differ ↦ rw differ refl
]

match_behind-bytes_eq :
    (san : Bool) (prefix qual s : Bytes)
    → match_behind san qual (match_prefix prefix s) ≡ bytes_eq (prefix ++ map (sanitize san) qual) s
unfolding match_prefix match_behind bytes_eq
match_behind-bytes_eq san [] qual s = match_rest-bytes_eq san qual s
match_behind-bytes_eq san (c ∷ prefix) qual [] = refl
match_behind-bytes_eq san (c ∷ prefix) qual (d ∷ s) = elim (Bool-cases (c == d)) [
  | inl same ↦ rw same (match_behind-bytes_eq san prefix qual s)
  | inr differ ↦ rw differ refl
]

-- The transports that the choice is among.
abbrev pub eligible :
    (Bytes → Option (Bytes × Option ℕ))
    → TransportType
    → Option Bytes
    → List Transport
    → List Transport
eligible parse type serial [] = []
eligible parse type serial (t ∷ list) =
    if not (has_no_permission t) && is_candidate parse type serial t
    then t ∷ eligible parse type serial list
    else eligible parse type serial list

-- The only one of a list.
abbrev pub the_only : List Transport → Option Transport
the_only [] = none
the_only (t ∷ []) = some t
the_only (t ∷ u ∷ list) = none

abbrev pub has_two : List Transport → Bool
has_two (t ∷ u ∷ list) = true
has_two _ = false

-- A transport whose state keeps it back is not handed out.
abbrev pub if_usable : Bool → Option Transport → Option Transport
if_usable accept none = none
if_usable accept (some t) =
    if accept || not (is_unauthorized t || is_offline t) then some t else none

abbrev pub found_before : Option Transport → List Transport → List Transport
found_before none list = list
found_before (some t) list = t ∷ list

-- The outcome of the loop, for the transports that count.
abbrev Chosen : List Transport → Acquired → Type 0
Chosen l a = (a.result ≡ the_only l) × (a.is_ambiguous ≡ has_two l)

consider-Chosen :
    (more : AcquireError) (t : Transport) (l : List Transport) (result : Option Transport)
    (error : AcquireError) (rest : Option Transport → AcquireError → Acquired)
    → Chosen (t ∷ l) (rest (some t) error)
    → Chosen (found_before result (t ∷ l)) (consider more t false true result error rest)
unfolding consider
consider-Chosen more t l none error rest h = h
consider-Chosen more t l (some u) error rest h = (refl, refl)

if_usable-hand_out :
    (vendor_keys : Option Bytes) (accept : Bool) (result : Option Transport) (error : AcquireError)
    (a : Bool)
    → ((hand_out vendor_keys accept result error a).result ≡ if_usable accept result)
      × ((hand_out vendor_keys accept result error a).is_ambiguous ≡ a)
unfolding hand_out
if_usable-hand_out vendor_keys accept none error a = (refl, refl)
if_usable-hand_out vendor_keys true (some t) error a = (ground arith, ground arith)
if_usable-hand_out vendor_keys false (some t) error a = (ground arith, ground arith)

module _ (parse : Bytes → Option (Bytes × Option ℕ)) where
  scan-Chosen :
      (type : TransportType) (serial : Option Bytes) (list : List Transport)
      (result : Option Transport) (error : AcquireError)
      → Chosen
          (found_before result (eligible parse type serial list))
          (scan parse type serial list result error)
  unfolding scan consider
  scan-Chosen type serial [] none error = (refl, refl)
  scan-Chosen type serial [] (some u) error = (refl, refl)
  scan-Chosen type serial (t ∷ list) result error = elim (Bool-cases (has_no_permission t)) [
    | inl hidden ↦ rw hidden (scan-Chosen type serial list result _)
    | inr open_to ↦ elim (Bool-cases (is_candidate parse type serial t)) [
      | inr other ↦ rw (open_to, other) (scan-Chosen type serial list result error)
      | inl fits ↦
          rw (open_to, fits)
            (consider-Chosen (more_error serial type) t (eligible parse type serial list) result
              error (scan parse type serial list) (scan-Chosen type serial list (some t) error))
    ]
  ]

  -- `acquire_one_transport` hands out the transport that fits the request when there is exactly
  -- one and its state does not keep it back, and nothing otherwise; it reports an ambiguity exactly
  -- when two or more fit. A transport fits if it is accessible and matches the serial, or, with no
  -- serial given, has the type.
  pub acquire_one_transport-the_only :
      (vendor_keys : Option Bytes) (list : List Transport) (type : TransportType)
      (serial : Option Bytes) (accept : Bool)
      → ((acquire_one_transport parse vendor_keys list type serial accept).result
          ≡ if_usable accept (the_only (eligible parse type serial list)))
        × ((acquire_one_transport parse vendor_keys list type serial accept).is_ambiguous
            ≡ has_two (eligible parse type serial list))
  unfolding acquire_one_transport finish_acquire
  acquire_one_transport-the_only vendor_keys list type serial accept =
      let a = scan parse type serial list none (not_found_error serial type) in
      let (result, ambiguous) = scan-Chosen type serial list none (not_found_error serial type) in
      let (used, kept) = if_usable-hand_out vendor_keys accept a.result a.error a.is_ambiguous in
      (used ∙ ap (if_usable accept) result, kept ∙ ambiguous)

-- `qual_match` of a non-empty string with a qualifier holds exactly when the string is the prefix
-- followed by the qualifier, in which, where that is asked for, each byte that is not a letter or
-- a digit became an underscore.
pub qual_match-bytes_eq :
    (c : ℕ) (s prefix qual : Bytes) (sanitize_qual : Bool)
    → qual_match (some (c ∷ s)) prefix (some qual) sanitize_qual
      ≡ bytes_eq (prefix ++ map (sanitize sanitize_qual) qual) (c ∷ s)
unfolding qual_match
qual_match-bytes_eq c s prefix qual sanitize_qual =
    match_behind-bytes_eq sanitize_qual prefix qual (c ∷ s)
