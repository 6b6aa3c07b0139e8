-- ===== src/Transport/Listing/Match.antt =====
-- What the long list of devices prints of a device selects that device.
use adb_src.Base.{
  ℕ, Bool, true, false, ◌||◌, Option, none, some, List, [], ◌∷◌, ◌++◌, map, Bytes, All, All-append,
  bytes_eq_iff, codes, append_assoc, append-nil, ◌≡◌, refl, sym, ap, subst, ◌∙◌, arith,
}
use adb_src.Transport.{Transport, qual_match, sanitize, same_text, matches_target}
use adb_src.Transport.Choice.{qual_match-bytes_eq}
use adb_src.Transport.Listing.{
  listed_byte, push_value, append_transport_info, long_head, append_fields, append_transport,
  list_from, list_transports,
}

-- Words, each behind a space.
abbrev pub spaced : List Bytes → Bytes
spaced [] = []
spaced (w ∷ words) = b' ' ∷ (w ++ spaced words)

spaced-append : (a b : List Bytes) → spaced (a ++ b) ≡ spaced a ++ spaced b
spaced-append [] b = refl
spaced-append (w ∷ a) b =
    ap (λ s. b' ' ∷ (w ++ s)) (spaced-append a b)
    ∙ ap (◌∷◌ b' ') (sym (append_assoc w (spaced a) (spaced b)))

listed_byte-sanitize : (san : Bool) (p : ℕ) → listed_byte san p ≡ sanitize san p
listed_byte-sanitize true p = ground arith
listed_byte-sanitize false p = refl

push_value-map :
    (san : Bool) (result value : Bytes)
    → push_value san result value ≡ result ++ map (sanitize san) value
unfolding push_value
push_value-map san result [] = sym (append-nil result)
push_value-map san result (p ∷ value) =
    push_value-map san (result ++ (listed_byte san p ∷ [])) value
    ∙ append_assoc result (listed_byte san p ∷ []) (map (sanitize san) value)
    ∙ ap (λ q. result ++ (q ∷ map (sanitize san) value)) (listed_byte-sanitize san p)

abbrev shown : Bytes → Bytes → Bool → Bytes
shown key value san = key ++ map (sanitize san) value

shown-qual_match :
    (key : Bytes) (c : ℕ) (value : Bytes) (san : Bool)
    → qual_match (some (shown key (c ∷ value) san)) key (some (c ∷ value)) san ≡ true
shown-qual_match [] c value san =
    qual_match-bytes_eq (sanitize san c) (map (sanitize san) value) [] (c ∷ value) san
    ∙ (bytes_eq_iff (shown [] (c ∷ value) san) (shown [] (c ∷ value) san)).1 refl
shown-qual_match (k ∷ key) c value san =
    qual_match-bytes_eq k (shown key (c ∷ value) san) (k ∷ key) (c ∷ value) san
    ∙ (bytes_eq_iff (shown (k ∷ key) (c ∷ value) san) (shown (k ∷ key) (c ∷ value) san)).1 refl

-- From `result` to `after`, words that all pass the test were added.
abbrev Adds : (Bytes → Bool) → Bytes → Bytes → Type 0
Adds test result after =
    (words : List Bytes) × (after ≡ result ++ spaced words) × All (λ w. test w ≡ true) words

Adds-none : (test : Bytes → Bool) (result : Bytes) → Adds test result result
Adds-none test result = ([], sym (append-nil result), tt)

Adds-trans : (test : Bytes → Bool) (a b c : Bytes) → Adds test a b → Adds test b c → Adds test a c
Adds-trans test a b c (u, first, ok) (v, second, fine) = (
  u ++ v,
  second
      ∙ ap (λ s. s ++ spaced v) first
      ∙ append_assoc a (spaced u) (spaced v)
      ∙ ap (◌++◌ a) (sym (spaced-append u v)),
  All-append (λ w. test w ≡ true) u v ok fine,
)

append_transport_info-Adds :
    (test : Bytes → Bool) (result key : Bytes) (field : Option Bytes) (san : Bool)
    → ((c : ℕ) (value : Bytes) → field ≡ some (c ∷ value) → test (shown key (c ∷ value) san) ≡ true)
    → Adds test result (append_transport_info result key field san)
unfolding append_transport_info
append_transport_info-Adds test result key none san passes = Adds-none test result
append_transport_info-Adds test result key (some []) san passes = Adds-none test result
append_transport_info-Adds test result key (some (c ∷ value)) san passes = (
  shown key (c ∷ value) san ∷ [],
  push_value-map san ((result ++ codes " ") ++ key) (c ∷ value)
      ∙ append_assoc (result ++ codes " ") key (map (sanitize san) (c ∷ value))
      ∙ append_assoc result (codes " ") (shown key (c ∷ value) san)
      ∙ ap (λ s. result ++ (b' ' ∷ s)) (sym (append-nil (shown key (c ∷ value) san))),
  (passes c value refl, tt),
)

map-unsanitized : (value : Bytes) → map (sanitize false) value ≡ value
map-unsanitized [] = refl
map-unsanitized (c ∷ value) = ap (◌∷◌ c) (map-unsanitized value)

or_left : (a b : Bool) → a ≡ true → (a || b) ≡ true
or_left a b h = ground arith

or_right : (a b : Bool) → b ≡ true → (a || b) ≡ true
or_right a b h = ground arith

same_text-shown :
    (field : Option Bytes) (value : Bytes)
    → field ≡ some value
    → same_text field (shown [] value false) ≡ true
same_text-shown field value set =
    ap (λ o. same_text o (shown [] value false)) set
    ∙ (bytes_eq_iff (shown [] value false) value).1 (map-unsanitized value)

field-qual_match :
    (key : Bytes) (field : Option Bytes) (san : Bool) (c : ℕ) (value : Bytes)
    → field ≡ some (c ∷ value)
    → qual_match (some (shown key (c ∷ value) san)) key field san ≡ true
field-qual_match key field san c value set =
    ap (λ o. qual_match (some (shown key (c ∷ value) san)) key o san) set
    ∙ shown-qual_match key c value san

module _ (parse : Bytes → Option (Bytes × Option ℕ)) (help : Bytes) where
  append_fields-Adds :
      (t : Transport) (result : Bytes)
      → Adds (matches_target parse t) result (append_fields help t result)
  unfolding append_fields matches_target
  append_fields-Adds t result =
      let selects = matches_target parse t in
      let path = append_transport_info result [] t.devpath false in
      let product = append_transport_info path (codes "product:") t.product false in
      let model = append_transport_info product (codes "model:") t.model true in
      let device = append_transport_info model (codes "device:") t.device false in
      Adds-trans selects result path device
        (append_transport_info-Adds selects result [] t.devpath false (λ c value set.
          or_left _ _
            (or_left _ _ (or_left _ _ (or_right _ _ (same_text-shown t.devpath (c ∷ value) set))))))
        (Adds-trans selects path product device
          (append_transport_info-Adds selects path (codes "product:") t.product false
            (λ c value set. or_left _ _ (
              or_left _ _
                (or_right _ _ (field-qual_match (codes "product:") t.product false c value set)))))
          (Adds-trans selects product model device
            (append_transport_info-Adds selects product (codes "model:") t.model true
              (λ c value set.
                or_left _ _
                  (or_right _ _ (field-qual_match (codes "model:") t.model true c value set))))
            (append_transport_info-Adds selects model (codes "device:") t.device false
              (λ c value set.
                or_right _ _ (field-qual_match (codes "device:") t.device false c value set)))))

  -- The serial, the state, words that each select the transport, and the end of the line.
  abbrev pub IsLine : Transport → Bytes → Type 0
  IsLine t line =
      (words : List Bytes) × (line ≡ (long_head help t ++ spaced words) ++ (10 ∷ []))
      × All (λ w. matches_target parse t w ≡ true) words

  -- A line for each transport, in order.
  abbrev pub IsListing : List Transport → Bytes → Type 0
  IsListing [] s = s ≡ []
  IsListing (t ∷ list) s =
      (line : Bytes) × (rest : Bytes) × (s ≡ line ++ rest) × IsLine t line × IsListing list rest

  append_transport-IsLine :
      (t : Transport) (result : Bytes)
      → (line : Bytes) × (append_transport help t result true ≡ result ++ line) × IsLine t line
  unfolding append_transport
  append_transport-IsLine t result =
      let (words, added, ok) = append_fields-Adds t (result ++ long_head help t) in
      let line = (long_head help t ++ spaced words) ++ (10 ∷ []) in
      (
        line,
        ap (λ s. s ++ (10 ∷ [])) (added ∙ append_assoc result (long_head help t) (spaced words))
            ∙ append_assoc result (long_head help t ++ spaced words) (10 ∷ []),
        (words, refl, ok),
      )

  list_from-IsListing :
      (result : Bytes) (list : List Transport)
      → (rest : Bytes) × (list_from help result list true ≡ result ++ rest) × IsListing list rest
  unfolding list_from
  list_from-IsListing result [] = ([], sym (append-nil result), refl)
  list_from-IsListing result (t ∷ list) =
      let (line, one, is_line) = append_transport-IsLine t result in
      let (rest, more, listing) = list_from-IsListing (append_transport help t result true) list in
      (
        line ++ rest,
        more ∙ ap (λ s. s ++ rest) one ∙ append_assoc result line rest,
        (line, rest, refl, is_line, listing),
      )

  -- The long listing has a line for each transport, in order: its serial and its state, then words,
  -- each of which is a target that the transport matches, whatever ParseNetAddress answers.
  pub list_transports-IsListing :
      (list : List Transport) → IsListing list (list_transports help list true)
  unfolding list_transports
  list_transports-IsListing list =
      let (rest, all, listing) = list_from-IsListing [] list in
      subst (IsListing list) (sym all) listing
