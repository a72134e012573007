-- ===== src/Daemon/Normalize/Clean.antt =====
-- What normalize_path() of tftpd/tftpd.c leaves out.
use network_tftp_tftp_hpa.Prelude.{
  ℕ, ◌≡◌, ◌≢◌, ◌⊎◌, refl, sym, ap, ◌∙◌, subst, Bool, true, false, ◌&&◌, ◌||◌, some, List, [], ◌∷◌,
  ◌++◌, append_assoc, arith, ◌==◌, if◌then◌else◌, inl, inr, Bool-cases,
}
use network_tftp_tftp_hpa.Daemon.Normalize.Rooted.{normalize-IsRooted, in_front-IsRooted}
use network_tftp_tftp_hpa.Daemon.Normalize.{
  to_slash, drop_level, normalize, in_front, rooted, normalize_path, norm_path,
}

-- An empty component, "." or "..", with a slash or the end behind it; but nothing at all is fine.
unfoldable pub special : List ℕ → Bool
special [] = false
special (a ∷ []) = a == b'/' || a == b'.'
special (a ∷ b ∷ []) = a == b'/' || (a == b'.' && (b == b'/' || b == b'.'))
special (a ∷ b ∷ c ∷ s) = a == b'/' || (a == b'.' && (b == b'/' || (b == b'.' && c == b'/')))

-- Nothing of this kind stands behind a slash.
abbrev pub IsNormal : List ℕ → Type 0
IsNormal [] = Unit
IsNormal (c ∷ cs) = (c ≡ b'/' → special cs ≡ false) × IsNormal cs

in_front-map :
    (out w w' : List ℕ)
    → (IsNormal w → IsNormal w')
    → ((b : List ℕ) → special (b ++ w) ≡ false → special (b ++ w') ≡ false)
    → IsNormal (in_front out w)
    → IsNormal (in_front out w')
unfolding in_front
in_front-map [] w w' h k n = h n
in_front-map (c ∷ out) w w' h k n =
    in_front-map out (c ∷ w) (c ∷ w') (λ m. (λ e. k [] (m.0 e), h m.1))
      (λ b e.
        subst (λ l. special l ≡ false) (append_assoc b (c ∷ []) w')
          (k (b ++ c ∷ []) (subst (λ l. special l ≡ false) (sym (append_assoc b (c ∷ []) w)) e)))
      n

-- A slash behind a component that is complete.
close_component :
    (x : ℕ) (b : List ℕ)
    → x ≢ b'/'
    → special (b ++ x ∷ []) ≡ false
    → special (b ++ x ∷ b'/' ∷ []) ≡ false
unfolding special
close_component x [] h e = ground arith
close_component x (a ∷ []) h e = ground arith
close_component x (a ∷ b ∷ []) h e = ground arith
close_component x (a ∷ b ∷ c ∷ s) h e = ground arith

-- What comes behind a slash does not matter to what stands before it.
behind_slash : (v w b : List ℕ) → special (b ++ b'/' ∷ v) ≡ false → special (b ++ b'/' ∷ w) ≡ false
unfolding special
behind_slash [] w [] e = absurd (ground arith)
behind_slash (x ∷ []) w [] e = absurd (ground arith)
behind_slash (x ∷ y ∷ v) w [] e = absurd (ground arith)
behind_slash [] [] (a ∷ []) e = ground arith
behind_slash [] (x ∷ w) (a ∷ []) e = ground arith
behind_slash (y ∷ v) [] (a ∷ []) e = ground arith
behind_slash (y ∷ v) (x ∷ w) (a ∷ []) e = ground arith
behind_slash v w (a ∷ b ∷ []) e = ground arith
behind_slash v w (a ∷ b ∷ c ∷ s) e = ground arith

-- Up to the next slash.
unfoldable upto : List ℕ → List ℕ
upto [] = []
upto (c ∷ p) = let more = upto p in if c == b'/' then [] else c ∷ more

upto-IsNormal : (p : List ℕ) → IsNormal (upto p)
unfolding upto
upto-IsNormal [] = tt
upto-IsNormal (c ∷ p) = elim (Bool-cases (c == b'/')) [
  | inl slash ↦ rw slash tt
  | inr other ↦ rw other (λ e. absurd (ground (arith, other)), upto-IsNormal p)
]

special-upto : (c : ℕ) (p : List ℕ) → special (c ∷ p) ≡ false → special (c ∷ upto p) ≡ false
unfolding special upto
special-upto c [] e = ground arith
special-upto c (d ∷ []) e = ground arith
special-upto c (d ∷ a ∷ p) e = elim (Bool-cases (d == b'/')) [
  | inl slash ↦ ground (arith, slash)
  | inr other ↦ elim (Bool-cases (a == b'/')) [
    | inl slash ↦ ground (arith, other, slash)
    | inr more ↦ ground (arith, other, more)
  ]
]

-- Behind a slash, or at the beginning.
abbrev Behind : List ℕ → Type 0
Behind out = (out ≡ []) ⊎ ((o : List ℕ) × (out ≡ b'/' ∷ o))

abbrev Inside : List ℕ → Type 0
Inside out = (x : ℕ) × (o : List ℕ) × (out ≡ x ∷ o) × (x ≢ b'/')

-- What is written is normal, with what is left of the component that it is in.
Inv : (behind : Bool) → (out p : List ℕ) → Type 0
Inv true out p = IsNormal (in_front out []) × Behind out
Inv false out p = IsNormal (in_front out (upto p)) × Inside out

to_slash-Inv : (out w p : List ℕ) → IsNormal (in_front out w) → Inv true (to_slash out) p
unfolding Inv to_slash in_front special
to_slash-Inv [] w p n = (tt, inl refl)
to_slash-Inv (c ∷ out) w p n = elim (Bool-cases (c == b'/')) [
  | inr other ↦ rw other (to_slash-Inv out (c ∷ w) p n)
  | inl slash ↦
      let same : c ≡ b'/' = ground (arith, slash) in
      let kept : IsNormal (in_front out (c ∷ [])) =
        in_front-map out (c ∷ w) (c ∷ []) (λ m. (λ e. refl, tt))
          (λ b.
            subst (λ d. special (b ++ d ∷ w) ≡ false → special (b ++ d ∷ []) ≡ false) (sym same)
              (behind_slash w [] b))
          n in
      rw slash (kept, inr (out, ap (λ d. d ∷ out) same))
]

drop_level-Inv : (out p q : List ℕ) → Inv true out p → Inv true (drop_level out) q
unfolding Inv drop_level in_front
drop_level-Inv [] p q h = h
drop_level-Inv (c ∷ []) p q h = h
drop_level-Inv (c ∷ d ∷ out) p q h = to_slash-Inv (d ∷ out) (c ∷ []) q h.0

copy-Inv :
    (out p q : List ℕ) (c : ℕ)
    → Inv true out q
    → c ≢ b'/'
    → special (c ∷ p) ≡ false
    → Inv false (c ∷ out) p
unfolding Inv in_front
copy-Inv out p q c (n, inl e) name fine = (
  subst (λ o. IsNormal (in_front o (c ∷ upto p))) (sym e) (λ x. absurd (name x), upto-IsNormal p),
  (c, out, refl, name),
)
copy-Inv out p q c (n, inr (o, e)) name fine =
    let start : IsNormal (in_front o (b'/' ∷ [])) = subst (λ l. IsNormal (in_front l [])) e n in
    let longer : IsNormal (in_front o (b'/' ∷ c ∷ upto p)) =
      in_front-map o (b'/' ∷ []) (b'/' ∷ c ∷ upto p)
        (λ m. (λ x. special-upto c p fine, (λ x. absurd (name x), upto-IsNormal p)))
        (behind_slash [] (c ∷ upto p)) start in
    (subst (λ l. IsNormal (in_front l (c ∷ upto p))) (sym e) longer, (c, out, refl, name))

slash-Inv : (out p q : List ℕ) (c : ℕ) → c ≡ b'/' → Inv false out (c ∷ p) → Inv true (c ∷ out) q
unfolding Inv in_front upto special
slash-Inv out p q c slash (n, (x, o, e, name)) =
    let here : (c == b'/') ≡ true = ground (arith, slash) in
    let start : IsNormal (in_front o (x ∷ [])) =
      subst (λ l. IsNormal (in_front l [])) e (rw here at n) in
    let closed : IsNormal (in_front o (x ∷ b'/' ∷ [])) =
      in_front-map o (x ∷ []) (x ∷ b'/' ∷ []) (λ m. (λ y. absurd (name y), (λ y. refl, tt)))
        (λ b. close_component x b name) start in
    (
      subst (λ l. IsNormal (in_front l (c ∷ []))) (sym e)
          (subst (λ d. IsNormal (in_front o (x ∷ d ∷ []))) (sym slash) closed),
      inr (out, ap (λ d. d ∷ out) slash),
    )

name-Inv :
    (out p : List ℕ) (c : ℕ) → (c == b'/') ≡ false → Inv false out (c ∷ p) → Inv false (c ∷ out) p
unfolding Inv in_front upto
name-Inv out p c other (n, inside) =
    (rw other at n, (c, out, refl, λ e. absurd (ground (arith, other))))

Inv-IsNormal : (behind : Bool) (out : List ℕ) → Inv behind out [] → IsNormal (in_front out [])
unfolding Inv upto
Inv-IsNormal true out h = h.0
Inv-IsNormal false out h = h.0

normalize-IsNormal :
    (behind : Bool) (out p : List ℕ)
    → Inv behind out p
    → IsNormal (in_front (normalize behind out p) [])
unfolding normalize
normalize-IsNormal true out [] h = Inv-IsNormal true out h
normalize-IsNormal false out [] h = Inv-IsNormal false out h
normalize-IsNormal false out (c ∷ p) h = elim (Bool-cases (c == b'/')) [
  | inl slash ↦
      rw slash (normalize-IsNormal true (c ∷ out) p (slash-Inv out p p c (ground (arith, slash)) h))
  | inr other ↦ rw other (normalize-IsNormal false (c ∷ out) p (name-Inv out p c other h))
]
normalize-IsNormal true out (c ∷ []) h = elim (Bool-cases (c == b'/' || c == b'.')) [
  | inl skip ↦ rw skip (Inv-IsNormal true out (unfold Inv in (h.0, h.1)))
  | inr plain ↦ rw plain (
      Inv-IsNormal false (c ∷ out)
        (copy-Inv out [] (c ∷ []) c h (ground (arith, plain)) (unfold special in plain)))
]
normalize-IsNormal true out (c ∷ d ∷ []) h =
    elim (Bool-cases (c == b'/' || (c == b'.' && d == b'/'))) [
      | inl skip ↦ rw skip (normalize-IsNormal true out (d ∷ []) (unfold Inv in (h.0, h.1)))
      | inr on ↦ elim (Bool-cases (c == b'.' && d == b'.')) [
        | inl up ↦
            rw (on, up) (Inv-IsNormal true (drop_level out) (drop_level-Inv out (c ∷ d ∷ []) [] h))
        | inr plain ↦
            rw (on, plain)
              (normalize-IsNormal false (c ∷ out) (d ∷ []) (
                copy-Inv out (d ∷ []) (c ∷ d ∷ []) c h (ground (arith, on))
                  (unfold special in ground (arith, on, plain))))
      ]
    ]
normalize-IsNormal true out (c ∷ d ∷ e ∷ p) h =
    elim (Bool-cases (c == b'/' || (c == b'.' && d == b'/'))) [
      | inl skip ↦ rw skip (normalize-IsNormal true out (d ∷ e ∷ p) (unfold Inv in (h.0, h.1)))
      | inr on ↦ elim (Bool-cases (c == b'.' && (d == b'.' && e == b'/'))) [
        | inl up ↦
            rw (on, up)
              (normalize-IsNormal true (drop_level out) (e ∷ p)
                (drop_level-Inv out (c ∷ d ∷ e ∷ p) (e ∷ p) h))
        | inr plain ↦
            rw (on, plain)
              (normalize-IsNormal false (c ∷ out) (d ∷ e ∷ p) (
                copy-Inv out (d ∷ e ∷ p) (c ∷ d ∷ e ∷ p) c h (ground (arith, on))
                  (unfold special in ground (arith, on, plain))))
      ]
    ]

rooted-cons : (fn : List ℕ) → (r : List ℕ) × (rooted fn ≡ b'/' ∷ r)
rooted-cons [] = ([], refl)
rooted-cons (c ∷ cs) = elim (Bool-cases (c == b'/')) [
  | inl slash ↦ (cs, ground (arith, slash))
  | inr other ↦ (c ∷ cs, ground (arith, other))
]

-- With NORM_PATH, what normalize_path returns begins with a slash, and no slash in it has an empty
-- component, "." or ".." behind it; it may end with a slash.
pub normalize_path-IsNormal :
    (fn : List ℕ) {s : List ℕ}
    → normalize_path norm_path (some fn) ≡ some s
    → ((r : List ℕ) × (s ≡ b'/' ∷ r)) × IsNormal s
unfolding normalize_path normalize in_front Inv
normalize_path-IsNormal fn {s} e =
    let (r, slash) = rooted-cons fn in
    let out = normalize true (b'/' ∷ []) r in
    let normal : IsNormal (in_front out []) =
      normalize-IsNormal true (b'/' ∷ []) r ((λ x. unfold special in refl, tt), inr ([], refl)) in
    let (r', begins) = in_front-IsRooted out [] (normalize-IsRooted true (b'/' ∷ []) r refl) in
    let result : in_front (normalize false [] (rooted fn)) [] ≡ s = ground arith in
    let same = sym (ap (λ l. in_front (normalize false [] l) []) slash) ∙ result in
    ((r', sym same ∙ begins), subst IsNormal same normal)
