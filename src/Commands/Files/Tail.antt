-- ===== src/Commands/Files/Tail.antt =====
-- tail: the last part of a name.
use network_tftp_tftp_hpa.Prelude.{
  ℕ, zero, suc, ◌≤◌, ◌≡◌, ◌≢◌, ◌⊎◌, refl, sym, ap, subst, ◌∙◌, Option, none, some, List, [], ◌∷◌,
  ◌++◌, length, length-append, append_assoc, append-nil, All, arith, ◌==◌, Bool-cases, Option-cases,
  ==_iff, inl, inr,
}
use network_tftp_tftp_hpa.Commands.Files.{strrchr, tail_from, tail}

abbrev pub NoSlash : List ℕ → Type 0
NoSlash = All (λ c. c ≢ b'/')

abbrev pub Slashes : List ℕ → Type 0
Slashes = All (λ c. c ≡ b'/')

-- A name with slashes behind it, and its last part.
abbrev pub IsTail : (filename : List ℕ) → (name base : List ℕ) → Type 0
IsTail filename name base =
    (slashes dir : List ℕ) × (filename ≡ name ++ slashes)
    × Slashes slashes
    × (name ≡ dir ++ base)
    × NoSlash base
    × ((dir ≡ []) ⊎ ((front : List ℕ) × (dir ≡ front ++ b'/' ∷ [])))
    × ((name ≡ []) ⊎ (base ≢ []))

strrchr-none : (f : List ℕ) → strrchr f ≡ none → NoSlash f
unfolding strrchr
strrchr-none [] e = tt
strrchr-none (c ∷ cs) e = elim (Option-cases (strrchr cs)) [
  | inl later ↦ ((λ slash. ground (arith, later, slash)), strrchr-none cs later)
  | inr (parts, later) ↦ absurd (ground (arith, later))
]

strrchr-some : (f a b : List ℕ) → strrchr f ≡ some (a, b) → (f ≡ a ++ b'/' ∷ b) × NoSlash b
unfolding strrchr
strrchr-some [] a b e = absurd (cc)
strrchr-some (c ∷ cs) a b e = elim (Option-cases (strrchr cs)) [
  | inl later ↦ elim (Bool-cases (c == b'/')) [
    | inl slash ↦
        let here : ◌≡◌ {A = Option (List ℕ × List ℕ)} (some ([], cs)) (some (a, b)) =
          ground (arith, later) in
        let letter = (==_iff c b'/').0 slash in
        let same : cs ≡ b = cc in (cc, subst NoSlash same (strrchr-none cs later))
    | inr other ↦ absurd (ground (arith, later))
  ]
  | inr ((front, back), later) ↦
      let here : ◌≡◌ {A = Option (List ℕ × List ℕ)} (some (c ∷ front, back)) (some (a, b)) =
        ground (arith, later) in
      let (parts, plain) = strrchr-some cs front back later in
      let same : back ≡ b = cc in (cc, subst NoSlash same plain)
]

Slashes-append : (s t : List ℕ) → Slashes s → Slashes t → Slashes (s ++ t)
Slashes-append [] t h k = k
Slashes-append (c ∷ s) t h k = (h.0, Slashes-append s t h.1 k)

tail_from-none : (rounds : ℕ) (f : List ℕ) → strrchr f ≡ none → tail_from (suc rounds) f ≡ (f, f)
unfolding tail_from
tail_from-none rounds f e = rw (e, tail_from) refl

tail_from-step :
    (rounds : ℕ) (f front : List ℕ)
    → strrchr f ≡ some (front, [])
    → tail_from (suc rounds) f ≡ tail_from rounds front
unfolding tail_from
tail_from-step rounds f front e = rw (e, tail_from) refl

tail_from-found :
    (rounds : ℕ) (f front : List ℕ) (x : ℕ) (back : List ℕ)
    → strrchr f ≡ some (front, x ∷ back)
    → tail_from (suc rounds) f ≡ (f, x ∷ back)
unfolding tail_from
tail_from-found rounds f front x back e = rw (e, tail_from) refl

empty_or_not : (f : List ℕ) → (f ≡ []) ⊎ (f ≢ [])
empty_or_not [] = inl refl
empty_or_not (c ∷ f) = inr (λ e. cc)

tail_from-IsTail :
    (rounds : ℕ) (f : List ℕ)
    → length f ≤ rounds
    → IsTail f (tail_from rounds f).0 (tail_from rounds f).1
tail_from-IsTail zero [] h = unfold tail_from in ([], [], refl, tt, refl, tt, inl refl, inl refl)
tail_from-IsTail zero (c ∷ f) h = absurd (omega arith)
tail_from-IsTail (suc rounds) f h = elim (Option-cases (strrchr f)) [
  | inl e ↦
      subst (λ r. IsTail f r.0 r.1) (sym (tail_from-none rounds f e))
        ([], [], sym (append-nil f), tt, refl, strrchr-none f e, inl refl, empty_or_not f)
  | inr ((front, []), e) ↦
      let (parts, plain) = strrchr-some f front [] e in
      let long = ap length parts ∙ length-append front (b'/' ∷ []) in
      let shorter : length front ≤ rounds = omega arith in
      let (slashes, dir, a, b, c, d, g, k) = tail_from-IsTail rounds front shorter in
      subst (λ r. IsTail f r.0 r.1) (sym (tail_from-step rounds f front e))
        (
          slashes ++ b'/' ∷ [],
          dir,
          parts
              ∙ ap (λ l. l ++ b'/' ∷ []) a
              ∙ append_assoc (tail_from rounds front).0 slashes (b'/' ∷ []),
          Slashes-append slashes (b'/' ∷ []) b (refl, tt),
          c,
          d,
          g,
          k,
        )
  | inr ((front, x ∷ back), e) ↦
      let (parts, plain) = strrchr-some f front (x ∷ back) e in
      subst (λ r. IsTail f r.0 r.1) (sym (tail_from-found rounds f front x back e))
        (
          [],
          front ++ b'/' ∷ [],
          sym (append-nil f),
          tt,
          parts ∙ sym (append_assoc front (b'/' ∷ []) (x ∷ back)),
          plain,
          inr (front, refl),
          inr (λ z. cc),
        )
]

-- tail leaves of a name what stands before the slashes at its end, and returns what stands behind
-- the last slash of that, which is not empty unless nothing is left.
tail-IsTail : (f : List ℕ) → IsTail f (tail f).0 (tail f).1
unfolding tail
tail-IsTail f = tail_from-IsTail (length f) f (omega arith)
