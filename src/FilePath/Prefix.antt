-- ===== src/FilePath/Prefix.antt =====
-- What the result of compare_paths says.
use network_tftp_tftp_hpa.Prelude.{
  ℕ, ◌≡◌, refl, true, List, [], ◌∷◌, ◌++◌, ◌↔◌, arith, Bool-cases, inl, inr,
}
use network_tftp_tftp_hpa.FilePath.{str_eq, compare_paths}

pub str_eq_sound : (a b : List ℕ) → str_eq a b ≡ true → a ≡ b
unfolding str_eq
str_eq_sound [] [] e = refl
str_eq_sound [] (y ∷ b) e = ground arith
str_eq_sound (x ∷ a) [] e = ground arith
str_eq_sound (x ∷ a) (y ∷ b) e = elim (Bool-cases (str_eq a b)) [
  | inl same ↦ ground (arith, str_eq_sound a b same)
  | inr other ↦ ground arith
]

str_eq_refl : (a : List ℕ) → str_eq a a ≡ true
unfolding str_eq
str_eq_refl [] = refl
str_eq_refl (x ∷ a) = ground (arith, str_eq_refl a)

same_paths : (ps qs : List (List ℕ)) → compare_paths ps qs ≡ 3 → ps ≡ qs
unfolding compare_paths
same_paths [] [] e = refl
same_paths [] (q ∷ qs) e = ground arith
same_paths (p ∷ ps) [] e = ground arith
same_paths (p ∷ ps) (q ∷ qs) e = elim (Bool-cases (str_eq p q)) [
  | inl same ↦
      let later : compare_paths ps qs ≡ 3 = ground arith in
      ground (arith, str_eq_sound p q same, same_paths ps qs later)
  | inr other ↦ ground arith
]

prefix_paths :
    (ps qs : List (List ℕ))
    → compare_paths ps qs ≡ 1
    → (q : List ℕ) × (more : List (List ℕ)) × (qs ≡ ps ++ q ∷ more)
unfolding compare_paths
prefix_paths [] [] e = ground arith
prefix_paths [] (q ∷ qs) e = (q, qs, refl)
prefix_paths (p ∷ ps) [] e = ground arith
prefix_paths (p ∷ ps) (q ∷ qs) e = elim (Bool-cases (str_eq p q)) [
  | inl same ↦
      let later : compare_paths ps qs ≡ 1 = ground arith in
      let r = prefix_paths ps qs later in (r.0, r.1, ground (arith, str_eq_sound p q same, r.2))
  | inr other ↦ ground arith
]

compare_same : (ps : List (List ℕ)) → compare_paths ps ps ≡ 3
unfolding compare_paths
compare_same [] = refl
compare_same (p ∷ ps) = ground (arith, str_eq_refl p, compare_same ps)

compare_longer :
    (ps : List (List ℕ)) (q : List ℕ) (more : List (List ℕ)) → compare_paths ps (ps ++ q ∷ more) ≡ 1
unfolding compare_paths
compare_longer [] q more = refl
compare_longer (p ∷ ps) q more = ground (arith, str_eq_refl p, compare_longer ps q more)

-- compare_paths answers 3 for equal paths and no others, and 1 for a path that the second extends
-- by at least one component and no other.
pub compare_paths_iff :
    (ps qs : List (List ℕ))
    → ((compare_paths ps qs ≡ 3) ↔ (ps ≡ qs))
      × ((compare_paths ps qs ≡ 1)
          ↔ ((q : List ℕ) × (more : List (List ℕ)) × (qs ≡ ps ++ q ∷ more)))
compare_paths_iff ps qs = (
  (same_paths ps qs, λ e. ground (arith, compare_same ps)),
  (prefix_paths ps qs, λ e. ground (arith, compare_longer ps e.0 e.1, e.2)),
)
