-- ===== src/LibBase.antt =====
-- What the code takes from the string helpers of libbase and from the C++ library's sets of
-- strings, which are not part of this repository: android::base::Split with one delimiter, Join,
-- GetProperty, and an unordered set made from a range, as the list of its members in the order of
-- its iteration, which nothing fixes.
use adb_src.Base.{
  ℕ, Bool, true, false, not, ◌&&◌, ◌||◌, List, [], ◌∷◌, ◌++◌, ◌==◌, Bytes, bytes_eq, bytes_eq_iff,
  Bool-cases, inl, inr, ◌≡◌, refl, ap, arith, All,
}

pub record LibBase : Type 0 where
  pub split : Bytes → ℕ → List Bytes
  pub join : List Bytes → ℕ → Bytes
  pub set_of : List Bytes → List Bytes
  pub get_property : Bytes → Bytes

unfoldable pub lacks : ℕ → Bytes → Bool
lacks d [] = true
lacks d (c ∷ s) = not (c == d) && lacks d s

unfoldable pub contains : Bytes → List Bytes → Bool
contains f [] = false
contains f (g ∷ l) = bytes_eq f g || contains f l

-- What libbase and the standard library document of them.
pub record IsLibBase (b : LibBase) : Type 0 where
  pub split_one : (d : ℕ) (s : Bytes) → lacks d s ≡ true → b.split s d ≡ s ∷ []
  pub split_more :
      (d : ℕ) (s rest : Bytes) → lacks d s ≡ true → b.split (s ++ (d ∷ rest)) d ≡ s ∷ b.split rest d
  pub join_none : (d : ℕ) → b.join [] d ≡ []
  pub join_one : (d : ℕ) (s : Bytes) → b.join (s ∷ []) d ≡ s
  pub join_more :
      (d : ℕ) (s t : Bytes) (l : List Bytes) → b.join (s ∷ t ∷ l) d ≡ s ++ (d ∷ b.join (t ∷ l) d)
  pub set_members : (f : Bytes) (l : List Bytes) → contains f (b.set_of l) ≡ contains f l

abbrev pub Lacks : ℕ → List Bytes → Type 0
Lacks d = All (λ s. lacks d s ≡ true)

pub lacks-append :
    (d : ℕ) (s t : Bytes) → lacks d s ≡ true → lacks d t ≡ true → lacks d (s ++ t) ≡ true
unfolding lacks
lacks-append d [] t p q = q
lacks-append d (c ∷ s) t p q = ground (arith, lacks-append d s t)

contains-lacks :
    (d : ℕ) (f : Bytes) (l : List Bytes) → Lacks d l → contains f l ≡ true → lacks d f ≡ true
unfolding contains
contains-lacks d f [] p h = cc
contains-lacks d f (g ∷ l) p h = elim (Bool-cases (bytes_eq f g)) [
  | inl same ↦ let e : f ≡ g = ground (arith, bytes_eq_iff f g) in rw e p.0
  | inr other ↦ contains-lacks d f l p.1 (ground arith)
]

-- A list whose members are all in another list has no delimiter where that one has none.
pub contains-Lacks :
    (d : ℕ) (l known : List Bytes)
    → Lacks d known
    → ((f : Bytes) → contains f l ≡ true → contains f known ≡ true)
    → Lacks d l
unfolding contains
contains-Lacks d [] known p inside = tt
contains-Lacks d (f ∷ l) known p inside = (
  contains-lacks d f known p (inside f (ground (arith, bytes_eq_iff f f))),
  contains-Lacks d l known p (λ g h. inside g (ground arith)),
)

module _ (b : LibBase) (v : IsLibBase b) where
  -- Split takes apart what Join made, where no piece has the delimiter and there is one piece.
  pub split-join :
      (d : ℕ) (s : Bytes) (l : List Bytes) → Lacks d (s ∷ l) → b.split (b.join (s ∷ l) d) d ≡ s ∷ l
  split-join d s [] p = rw (v.join_one d s) (v.split_one d s p.0)
  split-join d s (t ∷ l) p =
      rw (v.join_more d s t l, v.split_more d s (b.join (t ∷ l) d) p.0)
        (ap (◌∷◌ s) (split-join d t l p.1))

  pub lacks-join :
      (d e : ℕ) (l : List Bytes) → (d == e) ≡ false → Lacks e l → lacks e (b.join l d) ≡ true
  unfolding lacks
  lacks-join d e [] differ p = rw (v.join_none d) refl
  lacks-join d e (s ∷ []) differ p = rw (v.join_one d s) p.0
  lacks-join d e (s ∷ t ∷ l) differ p = rw (v.join_more d s t l) (
      lacks-append e s (d ∷ b.join (t ∷ l) d) p.0
        (ground (arith, lacks-join d e (t ∷ l) differ p.1)))

  pub join-cons :
      (d c : ℕ) (s : Bytes) (l : List Bytes) → (r : Bytes) × (b.join ((c ∷ s) ∷ l) d ≡ c ∷ r)
  join-cons d c s [] = (s, v.join_one d (c ∷ s))
  join-cons d c s (t ∷ l) = (_, v.join_more d (c ∷ s) t l)
