-- ===== src/FilePath/Clean.antt =====
-- What parse_path lets through.
use network_tftp_tftp_hpa.Prelude.{
  ℕ, zero, suc, ◌≤◌, ◌≡◌, ◌≢◌, refl, Bool, true, false, some, List, [], ◌∷◌, ◌++◌, arith, ◌==◌,
  drop, All, All-append, Bool-cases, Option-cases, subst, inl, inr,
}
use network_tftp_tftp_hpa.FilePath.{
  is_valid_char, dropped_by, adjust_tail, count_dirs, end_component, scan, in_order, parse_path,
}

-- A character of a component: not below the space, and not a slash; 127 (DEL) is one of them.
abbrev pub IsNameChar : ℕ → Type 0
IsNameChar c = (b' ' ≤ c) × (c ≢ b'/')

-- A component under construction.
abbrev pub IsPartial : List ℕ → Type 0
IsPartial d = (d ≢ []) × All IsNameChar d

-- A component of a canonical path: not empty, neither "." nor "..", and without a slash and a
-- character below the space.
abbrev pub IsClean : List ℕ → Type 0
IsClean d = IsPartial d × (d ≢ b'.' ∷ []) × (d ≢ b'.' ∷ b'.' ∷ [])

-- A component that adjust_tail leaves in place.
abbrev pub IsKept : List ℕ → Type 0
IsKept d = IsPartial d × (dropped_by d ≡ 0)

kept-IsClean : (d : List ℕ) → IsKept d → IsClean d
unfolding dropped_by
kept-IsClean [] h = (h.0, (λ e. cc), (λ e. cc))
kept-IsClean (a ∷ []) h = (h.0, (λ e. ground arith), (λ e. ground arith))
kept-IsClean (a ∷ b ∷ []) h = (h.0, (λ e. ground arith), (λ e. ground arith))
kept-IsClean (a ∷ b ∷ c ∷ d) h = (h.0, (λ e. ground arith), (λ e. ground arith))

clean-IsKept : (d : List ℕ) → IsClean d → IsKept d
unfolding dropped_by
clean-IsKept [] h = absurd (h.0.0 refl)
clean-IsKept (a ∷ []) h = (h.0, ground arith)
clean-IsKept (a ∷ b ∷ []) h = (h.0, ground arith)
clean-IsKept (a ∷ b ∷ c ∷ d) h = (h.0, refl)

pub All-clean-IsKept : (dirs : List (List ℕ)) → All IsClean dirs → All IsKept dirs
All-clean-IsKept [] h = tt
All-clean-IsKept (d ∷ dirs) h = (clean-IsKept d h.0, All-clean-IsKept dirs h.1)

All-kept-IsClean : (dirs : List (List ℕ)) → All IsKept dirs → All IsClean dirs
All-kept-IsClean [] h = tt
All-kept-IsClean (d ∷ dirs) h = (kept-IsClean d h.0, All-kept-IsClean dirs h.1)

All-drop {ℓ κ} : {A : Type ℓ} (P : A → Type κ) (n : ℕ) (xs : List A) → All P xs → All P (drop n xs)
All-drop P zero xs h = h
All-drop P (suc n) [] h = h
All-drop P (suc n) (x ∷ xs) h = All-drop P n xs h.1

-- All components are clean but the newest, if one is under construction.
abbrev Built : (was_slash : Bool) → List (List ℕ) → Type 0
Built true dirs = All IsKept dirs
Built false [] = ⊥
Built false (d ∷ dirs) = IsPartial d × All IsKept dirs

drop-clean :
    (d : List ℕ) (dirs : List (List ℕ)) (n : ℕ)
    → dropped_by d ≡ n
    → IsPartial d
    → All IsKept dirs
    → All IsKept (drop n (d ∷ dirs))
drop-clean d dirs zero e hd h = ((hd, e), h)
drop-clean d dirs (suc n) e hd h = All-drop IsKept n dirs h

end_component-drop :
    (strict : Bool) (dirs : List (List ℕ)) (d : List ℕ) {rest : List (List ℕ)}
    → end_component strict (d ∷ dirs) ≡ some rest
    → drop (dropped_by d) (d ∷ dirs) ≡ rest
unfolding end_component adjust_tail
end_component-drop strict dirs d e = ground arith

end_component-clean :
    (strict : Bool) (d : List ℕ) (dirs : List (List ℕ)) {rest : List (List ℕ)}
    → IsPartial d
    → All IsKept dirs
    → end_component strict (d ∷ dirs) ≡ some rest
    → All IsKept rest
end_component-clean strict d dirs hd h e =
    subst (All IsKept) (end_component-drop strict dirs d e) (drop-clean d dirs _ refl hd h)

extend-IsPartial : (c : ℕ) (d : List ℕ) → IsNameChar c → IsPartial d → IsPartial (d ++ c ∷ [])
extend-IsPartial c [] hc h = absurd (h.0 refl)
extend-IsPartial c (a ∷ d) hc h = (λ e. cc, All-append IsNameChar (a ∷ d) (c ∷ []) h.1 (hc, tt))

name_char : (c : ℕ) → is_valid_char c ≡ true → (c == b'/') ≡ false → IsNameChar c
name_char c v n = ground arith

-- Every character is a valid one.
abbrev pub IsValidText : List ℕ → Type 0
IsValidText = All (λ c. is_valid_char c ≡ true)

count_dirs-valid :
    (was_slash : Bool) (path : List ℕ) {n : ℕ}
    → count_dirs was_slash path ≡ some n
    → IsValidText path
unfolding count_dirs
count_dirs-valid was_slash [] e = tt
count_dirs-valid was_slash (c ∷ cs) e = elim (Option-cases (count_dirs (c == b'/') cs)) [
  | inl bad ↦ absurd (ground arith)
  | inr (m, good) ↦ (ground arith, count_dirs-valid (c == b'/') cs good)
]

scan-clean :
    (strict was_slash : Bool) (dirs : List (List ℕ)) (path : List ℕ) {rest : List (List ℕ)}
    → IsValidText path
    → Built was_slash dirs
    → scan strict was_slash dirs path ≡ some rest
    → All IsKept rest
unfolding scan
scan-clean strict true dirs [] {rest} v b e =
    let same : dirs ≡ rest = ground arith in subst (All IsKept) same b
scan-clean strict false [] [] v b e = absurd b
scan-clean strict false (d ∷ dirs) [] v b e = end_component-clean strict d dirs b.0 b.1 e
scan-clean strict true dirs (c ∷ cs) v b e = elim (Bool-cases (c == b'/')) [
  | inl slash ↦ scan-clean strict true dirs cs v.1 b (rw slash at e)
  | inr plain ↦
      scan-clean strict false ((c ∷ []) ∷ dirs) cs v.1 ((λ x. cc, (name_char c v.0 plain, tt)), b)
        (rw plain at e)
]
scan-clean strict false [] (c ∷ cs) v b e = absurd b
scan-clean strict false (d ∷ dirs) (c ∷ cs) v b e = elim (Bool-cases (c == b'/')) [
  | inl slash ↦ elim (Option-cases (end_component strict (d ∷ dirs))) [
    | inl refused ↦ absurd (ground arith)
    | inr (r, good) ↦
        scan-clean strict true r cs v.1 (end_component-clean strict d dirs b.0 b.1 good)
          (rw (slash, good) at e)
  ]
  | inr plain ↦
      scan-clean strict false ((d ++ c ∷ []) ∷ dirs) cs v.1
        (extend-IsPartial c d (name_char c v.0 plain) b.0, b.1) (rw plain at e)
]

in_order-All :
    (dirs acc : List (List ℕ)) → All IsKept dirs → All IsKept acc → All IsKept (in_order dirs acc)
in_order-All [] acc h k = k
in_order-All (d ∷ dirs) acc h k = in_order-All dirs (d ∷ acc) h.1 (h.0, k)

-- Whatever parse_path accepts, strict or not, it returns components that are neither empty nor "."
-- nor "..", with no slash and no character below the space in them; 127 (DEL) may be in them.
pub parse_path-IsClean :
    (path : List ℕ) (strict : Bool) (dirs : List (List ℕ))
    → parse_path path strict ≡ some dirs
    → All IsClean dirs
unfolding parse_path
parse_path-IsClean path strict dirs e = elim (Option-cases (count_dirs true path)) [
  | inl bad ↦ absurd (ground arith)
  | inr (n, valid) ↦ elim (Option-cases (scan strict true [] path)) [
    | inl refused ↦ absurd (ground arith)
    | inr (found, good) ↦
        let back : in_order found [] ≡ dirs = ground arith in
        let kept =
          in_order-All found []
            (scan-clean strict true [] path (count_dirs-valid true path valid) tt good) tt in
        All-kept-IsClean dirs (subst (All IsKept) back kept)
  ]
]
