-- ===== src/Tests/Paths.antt =====
-- Path names and names of options at concrete strings.
use network_tftp_tftp_hpa.Prelude.{
  ℕ, ◌≡◌, ◌↔◌, refl, true, false, none, some, List, [], ◌∷◌, ◌++◌, All, arith,
}
use network_tftp_tftp_hpa.FilePath.{parse_path, build_path, compare_paths}
use network_tftp_tftp_hpa.FilePath.Clean.{IsClean, parse_path-IsClean}
use network_tftp_tftp_hpa.FilePath.RoundTrip.{parse_path-build_path}
use network_tftp_tftp_hpa.FilePath.Prefix.{compare_paths_iff}
use network_tftp_tftp_hpa.Text.{ascii_strcaseeq}
use network_tftp_tftp_hpa.Text.Fold.{lower, strcaseeq_iff}

-- "/a/../b" is canonicalized to "b".
abbrev dotted : List ℕ
dotted = b'/' ∷ b'a' ∷ b'/' ∷ b'.' ∷ b'.' ∷ b'/' ∷ b'b' ∷ []

abbrev only_b : List (List ℕ)
only_b = (b'b' ∷ []) ∷ []

parse_path-IsClean_example : All IsClean only_b
unfolding parse_path
parse_path-IsClean_example = parse_path-IsClean dotted false only_b refl

-- A strict parse refuses it.
strict_dotted : parse_path dotted true ≡ none
unfolding parse_path
strict_dotted = refl

parse_path-build_path_example :
    parse_path (build_path none ((b'a' ∷ []) ∷ only_b)) true ≡ some ((b'a' ∷ []) ∷ only_b)
unfolding parse_path
parse_path-build_path_example = parse_path-build_path (b'a' ∷ []) only_b true (
  (((λ e. cc), ((omega arith, λ e. cc), tt)), (λ e. cc), (λ e. cc)),
  (((((λ e. cc), ((omega arith, λ e. cc), tt)), (λ e. cc), (λ e. cc))), tt),
)

compare_paths_iff_example :
    ((compare_paths only_b only_b ≡ 3) ↔ (only_b ≡ only_b))
    × ((compare_paths only_b only_b ≡ 1)
        ↔ ((q : List ℕ) × (more : List (List ℕ)) × (only_b ≡ only_b ++ q ∷ more)))
compare_paths_iff_example = compare_paths_iff only_b only_b

strcaseeq_iff_example :
    (ascii_strcaseeq (b'O' ∷ b'k' ∷ []) (b'o' ∷ b'K' ∷ []) ≡ true)
    ↔ (lower (b'O' ∷ b'k' ∷ []) ≡ lower (b'o' ∷ b'K' ∷ []))
strcaseeq_iff_example =
    strcaseeq_iff (b'O' ∷ b'k' ∷ []) (b'o' ∷ b'K' ∷ [])
      ((omega arith, omega arith), ((omega arith, omega arith), tt))
      ((omega arith, omega arith), ((omega arith, omega arith), tt)) (omega arith)
