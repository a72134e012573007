-- ===== src/Text.antt =====
-- C strings as the ASCII helpers of common/tftpsubs.h and common/tftpsubs.c see them: the bytes
-- before the terminating NUL.
pub mod Fold
pub mod Decimal
pub mod Digits
pub mod Codes
use Prim.Native.Nat.{bit_xor, bit_or}
use network_tftp_tftp_hpa.Prelude.{
  ℕ, ◌+◌, ◌-◌, ◌%◌, Bool, true, false, not, ◌&&◌, ◌||◌, List, [], ◌∷◌, ltb, leb, ◌==◌,
  if◌then◌else◌,
}

-- Subtraction of unsigned char.
abbrev pub sub8 : ℕ → ℕ → ℕ
sub8 a b = (a + 256 - b) % 256

unfoldable pub ascii_digitval : ℕ → ℕ
ascii_digitval c = sub8 c b'0'

unfoldable pub ascii_isdigit : ℕ → Bool
unfolding ascii_digitval
ascii_isdigit c = leb (ascii_digitval c) 9

unfoldable pub ascii_tolower : ℕ → ℕ
ascii_tolower c = if leb (sub8 c b'A') 25 then (c + 32) % 256 else c

-- The byte at the start of a string; NUL at its end.
abbrev pub first_byte : List ℕ → ℕ
first_byte [] = 0
first_byte (c ∷ cs) = c

abbrev pub rest_of : List ℕ → List ℕ
rest_of [] = []
rest_of (c ∷ cs) = cs

-- The tests on `c1` and `cx = c1 ^ c2` that end the comparison with false.
unfoldable pub differs : ℕ → ℕ → Bool
differs c1 cx = not (cx == 0) && (not (cx == 0x20) || ltb 25 (sub8 (bit_or c1 cx) b'a'))

-- ascii_strncaseeq; the loop ends at the NUL of `s1` at the latest.
unfoldable pub ascii_strncaseeq : List ℕ → List ℕ → ℕ → Bool
unfolding differs
ascii_strncaseeq [] s2 n = n == 0 || not (differs 0 (bit_xor 0 (first_byte s2)))
ascii_strncaseeq (c1 ∷ s1) s2 n =
    let later = ascii_strncaseeq s1 (rest_of s2) (n - 1) in
    if n == 0
    then true
    else if differs c1 (bit_xor c1 (first_byte s2))
    then false
    else if c1 == 0
    then true
    else later

abbrev pub size_max : ℕ
size_max = 0xffff_ffff_ffff_ffff

unfoldable pub ascii_strcaseeq : List ℕ → List ℕ → Bool
unfolding ascii_strncaseeq
ascii_strcaseeq s1 s2 = ascii_strncaseeq s1 s2 size_max
