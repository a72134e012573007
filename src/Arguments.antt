-- ===== src/Arguments.antt =====
-- common/parsenum.c: numbers with unit suffixes, and block sizes, on the command line.
use network_tftp_tftp_hpa.Prelude.{
  ℕ, ◌-◌, ◌*◌, ◌/◌, ◌%◌, ◌^◌, ◌≤◌, ◌≡◌, ◌⊎◌, Bool, not, ◌&&◌, ◌||◌, Option, none, some, List, [],
  ◌∷◌, ltb, leb, ◌==◌, drop, arith, if◌then◌else◌,
}
use network_tftp_tftp_hpa.Packet.{max_segsize}
use network_tftp_tftp_hpa.Text.{first_byte, rest_of, ascii_isdigit, ascii_tolower, ascii_strncaseeq}
use network_tftp_tftp_hpa.Text.Decimal.{scan_digits}
use network_tftp_tftp_hpa.Daemon.Blksize.{BlksizeArg, below_mtu, absolute}

-- BAD_NUM, the largest uintmax_t
abbrev pub bad_num : ℕ
bad_num = 2 ^ 64 - 1

-- isspace() in the C locale
abbrev pub is_space : ℕ → Bool
is_space c = c == b' ' || (leb 9 c && leb c 13)

unfoldable pub skip_spaces : List ℕ → List ℕ
skip_spaces [] = []
skip_spaces (c ∷ cs) = let later = skip_spaces cs in if is_space c then later else c ∷ cs

abbrev pub has_minus : List ℕ → Bool
has_minus s = first_byte s == b'-'

abbrev pub skip_sign : List ℕ → List ℕ
skip_sign s = if has_minus s || first_byte s == b'+' then rest_of s else s

-- strtoumax(arg, &end, 10): the value and what follows it; none if errno is set or nothing is
-- converted. A minus sign negates in uintmax_t.
unfoldable pub strtoumax : List ℕ → Option (ℕ × List ℕ)
unfolding skip_spaces ascii_isdigit scan_digits
strtoumax arg =
    let s = skip_spaces arg in
    let (v, rest) = scan_digits 0 (skip_sign s) in
    let value = if has_minus s then (2 ^ 64 - v) % 2 ^ 64 else v in
    if ascii_isdigit (first_byte (skip_sign s)) && ltb v (2 ^ 64) then some (value, rest) else none

-- The shift of a suffix; none for another character.
unfoldable pub unit_shift : ℕ → Option ℕ
unfolding ascii_tolower
unit_shift c =
    let l = ascii_tolower c in
    if l == 0
    then some 0
    else if l == b'k'
    then some 10
    else if l == b'm'
    then some 20
    else if l == b'g'
    then some 30
    else if l == b't'
    then some 40
    else if l == b'p'
    then some 50
    else if l == b'e'
    then some 60
    else none

-- parsed << shift, unless it overflows or something follows the suffix; `rest` starts at the suffix.
unfoldable pub scaled : (parsed shift : ℕ) → (rest : List ℕ) → Option ℕ
scaled parsed shift rest =
    let shifted = (parsed * 2 ^ shift) % 2 ^ 64 in
    if shift == 0
    then some parsed
    else if shifted / 2 ^ shift == parsed && first_byte (rest_of rest) == 0
    then some shifted
    else none

-- The last test.
abbrev pub in_range : (lo hi : ℕ) → Option ℕ → ℕ
in_range lo hi none = bad_num
in_range lo hi (some n) = if ltb n lo || ltb hi n then bad_num else n

-- From the result of strtoumax() on.
unfoldable pub with_unit : Option (ℕ × List ℕ) → Option ℕ
unfolding unit_shift scaled
with_unit none = none
with_unit (some (parsed, rest)) = elim (unit_shift (first_byte (skip_spaces rest))) [
  | none ↦ none
  | some shift ↦ scaled parsed shift (skip_spaces rest)
]

-- parse_uint; NULL is none.
unfoldable pub parse_uint : Option (List ℕ) → (lo hi : ℕ) → ℕ
unfolding strtoumax with_unit
parse_uint none lo hi = bad_num
parse_uint (some arg) lo hi = in_range lo hi (with_unit (strtoumax arg))

abbrev pub mtu_word : List ℕ
mtu_word = b'm' ∷ b't' ∷ b'u' ∷ []

-- parse_blocksize_arg: xopt.blksize, or none for false. INT_MAX / 2 is 2 ^ 30 - 1.
unfoldable pub parse_blocksize_arg : List ℕ → (minimum : ℕ) → Option BlksizeArg
unfolding parse_uint ascii_strncaseeq
parse_blocksize_arg str minimum =
    let less = parse_uint (some (drop 4 str)) 0 (2 ^ 30 - 1) in
    let size = parse_uint (some str) minimum max_segsize in
    if ascii_strncaseeq str mtu_word 3
    then (if first_byte (drop 3 str) == 0
        then some (below_mtu 0)
        else if first_byte (drop 3 str) == b'-' && not (less == bad_num)
        then some (below_mtu less)
        else none)
    else if size == bad_num
    then none
    else some (absolute size)

-- parse_uint returns BAD_NUM or a number in the given range.
parse_uint_bounds :
    (arg : Option (List ℕ)) (lo hi : ℕ)
    → (parse_uint arg lo hi ≡ bad_num) ⊎ ((lo ≤ parse_uint arg lo hi) × (parse_uint arg lo hi ≤ hi))
unfolding parse_uint
parse_uint_bounds none lo hi = ground arith
parse_uint_bounds (some arg) lo hi = in_range_bounds lo hi (with_unit (strtoumax arg))
  where
    in_range_bounds :
        (lo hi : ℕ) (o : Option ℕ)
        → (in_range lo hi o ≡ bad_num) ⊎ ((lo ≤ in_range lo hi o) × (in_range lo hi o ≤ hi))
    in_range_bounds lo hi none = ground arith
    in_range_bounds lo hi (some n) = ground arith
