-- ===== src/FilePath.antt =====
-- tftpd/path.c (not its Windows branches): path names as lists of components. The component array
-- is a list with the newest component first while it is built.
pub mod Clean
pub mod RoundTrip
pub mod Prefix
use network_tftp_tftp_hpa.Prelude.{
  ℕ, zero, suc, ◌+◌, ◌-◌, Bool, true, false, not, ◌&&◌, ◌||◌, Option, none, some, List, [], ◌∷◌,
  ◌++◌, ltb, leb, ◌==◌, length, drop, if◌then◌else◌,
}

-- c >= ' '
abbrev pub is_valid_char : ℕ → Bool
is_valid_char c = leb b' ' c

abbrev pub is_dir_separator : ℕ → Bool
is_dir_separator c = c == b'/'

-- How many components a last component "." or ".." drops.
unfoldable pub dropped_by : List ℕ → ℕ
dropped_by [] = 0
dropped_by (a ∷ []) = if a == b'.' then 1 else 0
dropped_by (a ∷ b ∷ []) = if a == b'.' && b == b'.' then 2 else 0
dropped_by (_ ∷ _ ∷ _ ∷ _) = 0

-- adjust_tail: the number of entries dropped and what is left; none is -1.
unfoldable pub adjust_tail : List (List ℕ) → Option (ℕ × List (List ℕ))
unfolding dropped_by
adjust_tail [] = some (0, [])
adjust_tail (last ∷ dirs) =
    let n = dropped_by last in
    if ltb (length (last ∷ dirs)) n then none else some (n, drop n (last ∷ dirs))

-- The first loop of parse_path: all characters valid, and the number of spans between slashes.
unfoldable pub count_dirs : (was_slash : Bool) → List ℕ → Option ℕ
count_dirs was_slash [] = some 0
count_dirs was_slash (c ∷ cs) =
    let here = if c == b'/' then 0 else if was_slash then 1 else 0 in
    let counted : Option ℕ = elim (count_dirs (c == b'/') cs) [
      | none ↦ none
      | some n ↦ some (here + n)
    ] in
    if is_valid_char c then counted else none

-- The end of a component: it is canonicalized, and rejected if `strict` and special.
unfoldable pub end_component : (strict : Bool) → List (List ℕ) → Option (List (List ℕ))
unfolding adjust_tail
end_component strict dirs = elim (adjust_tail dirs) [
  | none ↦ none
  | some (n, rest) ↦ if not (n == 0) && strict then none else some rest
]

-- The component under construction gets one more character.
abbrev pub extend : ℕ → List (List ℕ) → List (List ℕ)
extend c [] = []
extend c (d ∷ dirs) = (d ++ c ∷ []) ∷ dirs

-- The second loop of parse_path, and the component that the end of the string ends.
unfoldable pub scan : (strict was_slash : Bool) → List (List ℕ) → List ℕ → Option (List (List ℕ))
unfolding end_component
scan strict was_slash dirs [] = if was_slash then some dirs else end_component strict dirs
scan strict was_slash dirs (c ∷ cs) =
    let over_slash = scan strict true dirs cs in
    let ended : Option (List (List ℕ)) = elim (end_component strict dirs) [
      | none ↦ none
      | some rest ↦ scan strict true rest cs
    ] in
    let started = scan strict false ((c ∷ []) ∷ dirs) cs in
    let longer = scan strict false (extend c dirs) cs in
    if c == b'/'
    then (if was_slash then over_slash else ended)
    else if was_slash
    then started
    else longer

-- The array from its start.
abbrev pub in_order : List (List ℕ) → List (List ℕ) → List (List ℕ)
in_order [] acc = acc
in_order (d ∷ dirs) acc = in_order dirs (d ∷ acc)

abbrev pub starts_with_slash : List ℕ → Bool
starts_with_slash [] = false
starts_with_slash (c ∷ cs) = c == b'/'

-- parse_path; none is NULL.
unfoldable pub parse_path : List ℕ → (strict : Bool) → Option (List (List ℕ))
unfolding count_dirs scan
parse_path path strict =
    let parsed : Option (List (List ℕ)) = elim (count_dirs true path) [
      | none ↦ none
      | some _ ↦ elim (scan strict true [] path) [
        | none ↦ none
        | some dirs ↦ some (in_order dirs [])
      ]
    ] in
    if strict && not (starts_with_slash path) then none else parsed

-- prefix[0..prefix_len) with its trailing separators dropped.
unfoldable pub trim_prefix : List ℕ → List ℕ
trim_prefix [] = []
trim_prefix (c ∷ cs) = elim (trim_prefix cs) [
  | [] ↦ if is_dir_separator c then [] else c ∷ []
  | d ∷ ds ↦ c ∷ d ∷ ds
]

-- A slash before each component.
unfoldable pub join : List (List ℕ) → List ℕ
join [] = []
join (d ∷ dirs) = b'/' ∷ d ++ join dirs

abbrev pub prefix_of : Option (List ℕ) → List ℕ
prefix_of none = []
prefix_of (some p) = trim_prefix p

-- build_path; a NULL prefix is none.
unfoldable pub build_path : Option (List ℕ) → List (List ℕ) → List ℕ
unfolding trim_prefix join
build_path prefix dirs = prefix_of prefix ++ join dirs

-- The `size` that build_path allocates, the NUL included.
unfoldable pub dirs_size : List (List ℕ) → ℕ
dirs_size [] = 0
dirs_size (d ∷ dirs) = length d + 1 + dirs_size dirs

unfoldable pub build_size : Option (List ℕ) → List (List ℕ) → ℕ
unfolding dirs_size trim_prefix
build_size prefix dirs = 1 + length (prefix_of prefix) + dirs_size dirs

-- strcmp() == 0
unfoldable pub str_eq : List ℕ → List ℕ → Bool
str_eq [] [] = true
str_eq (a ∷ as') (b ∷ bs) = a == b && str_eq as' bs
str_eq _ _ = false

-- compare_paths
unfoldable pub compare_paths : List (List ℕ) → List (List ℕ) → ℕ
unfolding str_eq
compare_paths [] [] = 3
compare_paths [] (b ∷ bs) = 1
compare_paths (a ∷ as') [] = 2
compare_paths (a ∷ as') (b ∷ bs) =
    let later = compare_paths as' bs in if not (str_eq a b) then 0 else later
