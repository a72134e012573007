-- ===== src/Text/Fold.antt =====
-- The case-blind comparison and the strings in lower case.
use Prim.Native.Nat.{bit_xor}
use network_tftp_tftp_hpa.Prelude.{
  holds_below, holds_below_lem, ℕ, ◌-◌, ◌<◌, ◌≡◌, ◌↔◌, refl, Bool, true, false, not, List, [], ◌∷◌,
  map, arith, ◌==◌, All, length,
}
use network_tftp_tftp_hpa.Text.{ascii_tolower, differs, ascii_strncaseeq, size_max, ascii_strcaseeq}

same : Bool → Bool → Bool
same true b = b
same false b = not b

row : ℕ → Bool
row a =
    holds_below (λ b. same (not (differs a (bit_xor a b))) (ascii_tolower a == ascii_tolower b)) 256

table : holds_below row 256 ≡ true
unfolding holds_below row same differs ascii_tolower
table = refl

differs_lem :
    (a b : ℕ)
    → a < 256
    → b < 256
    → differs a (bit_xor a b) ≡ not (ascii_tolower a == ascii_tolower b)
unfolding same
differs_lem a b ha hb = ground (
  arith,
  holds_below_lem (λ y. same (not (differs a (bit_xor a y))) (ascii_tolower a == ascii_tolower y))
      256 (unfold row in holds_below_lem row 256 table a ha) b hb,
)

-- A C string: bytes other than NUL.
abbrev pub IsText : List ℕ → Type 0
IsText = All (λ c. (0 < c) × (c < 256))

abbrev pub lower : List ℕ → List ℕ
lower = map ascii_tolower

tolower-pos : (c : ℕ) → 0 < c → c < 256 → 0 < ascii_tolower c
unfolding ascii_tolower
tolower-pos c h k = ground arith

tolower-zero : ascii_tolower 0 ≡ 0
unfolding ascii_tolower
tolower-zero = refl

strncaseeq_sound :
    (s t : List ℕ) (n : ℕ)
    → IsText s
    → IsText t
    → length s < n
    → ascii_strncaseeq s t n ≡ true
    → lower s ≡ lower t
unfolding ascii_strncaseeq
strncaseeq_sound [] [] n hs ht ln h = refl
strncaseeq_sound [] (d ∷ t) n hs ht ln h =
    ground (arith, differs_lem 0 d, tolower-pos d, tolower-zero)
strncaseeq_sound (c ∷ s) [] n hs ht ln h =
    ground (arith, differs_lem c 0, tolower-pos c, tolower-zero)
strncaseeq_sound (c ∷ s) (d ∷ t) n hs ht ln h =
    ground (arith, differs_lem c d, strncaseeq_sound s t (n - 1) hs.1 ht.1 (omega arith))

strncaseeq_complete :
    (s t : List ℕ) (n : ℕ)
    → IsText s
    → IsText t
    → length s < n
    → lower s ≡ lower t
    → ascii_strncaseeq s t n ≡ true
unfolding ascii_strncaseeq
strncaseeq_complete [] [] n hs ht ln h = ground (arith, differs_lem 0 0)
strncaseeq_complete [] (d ∷ t) n hs ht ln h = cc
strncaseeq_complete (c ∷ s) [] n hs ht ln h = cc
strncaseeq_complete (c ∷ s) (d ∷ t) n hs ht ln h =
    ground (arith, differs_lem c d, strncaseeq_complete s t (n - 1) hs.1 ht.1 (omega arith))

-- For two C strings, ascii_strcaseeq returns true exactly when they are equal up to the case of
-- ASCII letters.
pub strcaseeq_iff :
    (s t : List ℕ)
    → IsText s
    → IsText t
    → length s < size_max
    → (ascii_strcaseeq s t ≡ true) ↔ (lower s ≡ lower t)
unfolding ascii_strcaseeq
strcaseeq_iff s t hs ht ln =
    (strncaseeq_sound s t size_max hs ht ln, strncaseeq_complete s t size_max hs ht ln)
