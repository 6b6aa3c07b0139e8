-- ===== src/Connection/Features.antt =====
-- Sets of features as text, in transport.cpp.
use adb_src.Base.{ℕ, false, List, [], ◌∷◌, Bytes, bytes_eq, ◌≡◌, refl, arith}
use adb_src.LibBase.{LibBase, IsLibBase, contains, Lacks, join-cons, split-join}
use adb_src.Connection.{feature_set_to_string, string_to_feature_set}

module _ (b : LibBase) (v : IsLibBase b) where
  string_to_feature_set-cons :
      (c : ℕ) (s r : Bytes) → s ≡ c ∷ r → string_to_feature_set b s ≡ b.set_of (b.split s b',')
  unfolding string_to_feature_set
  string_to_feature_set-cons c s r e = rw e refl

  -- Features survive the wire, where no name is empty or has a comma.
  pub string_to_feature_set-contains :
      (f : Bytes) (l : List Bytes)
      → Lacks b',' l
      → contains [] l ≡ false
      → contains f (string_to_feature_set b (feature_set_to_string b l)) ≡ contains f l
  unfolding feature_set_to_string contains
  string_to_feature_set-contains f [] p named =
      rw (v.join_none b',') (unfold string_to_feature_set in refl)
  string_to_feature_set-contains f ([] ∷ l) p named = unfold bytes_eq in ground arith
  string_to_feature_set-contains f ((c ∷ s) ∷ l) p named =
      let (r, e) = join-cons b v b',' c s l in
      rw
        (
          string_to_feature_set-cons c (b.join ((c ∷ s) ∷ l) b',') r e,
          split-join b v b',' (c ∷ s) l p,
        )
        (v.set_members f ((c ∷ s) ∷ l))
