-- ===== src/Client.antt =====
-- tftp/tftp.c, parse_oack(): the options that a server acknowledges to the client.
pub mod Request
pub mod Exchange
pub mod Receiving
pub mod Sending
use network_tftp_tftp_hpa.Prelude.{
  ℕ, zero, suc, ◌≤◌, ◌≡◌, ◌⊎◌, refl, inl, inr, Bool, true, false, not, ◌&&◌, ◌||◌, Option, none,
  some, List, [], ◌∷◌, leb, ◌==◌, length, arith, subst, if◌then◌else◌, Option-cases,
}
use network_tftp_tftp_hpa.Packet.{min_segsize, segsize}
use network_tftp_tftp_hpa.Packet.Opcode
use network_tftp_tftp_hpa.Text.{ascii_strcaseeq}
use network_tftp_tftp_hpa.Arguments.{strtoumax}

-- struct optreq, with the three bits of `options` that the client uses. The initial tsize, -1, is
-- none.
pub record Optreq : Type 0 where
  pub has_blksize : Bool
  pub has_window : Bool
  pub has_tsize : Bool
  pub window : ℕ
  pub blksize : ℕ
  pub tsize : Option ℕ

abbrev pub optreq_init : Optreq
optreq_init = record {
  has_blksize = false;
  has_window = false;
  has_tsize = false;
  window = 1;
  blksize = segsize;
  tsize = none;
}

-- memchr(cp, '\0', end - cp): the string before the NUL and what follows it.
unfoldable pub split_nul : List ℕ → Option (List ℕ × List ℕ)
split_nul [] = none
split_nul (c ∷ cs) =
    let later : Option (List ℕ × List ℕ) = elim (split_nul cs) [
      | none ↦ none
      | some (s, rest) ↦ some (c ∷ s, rest)
    ] in
    if c == 0 then some ([], cs) else later

-- An empty string is refused as well.
unfoldable pub field : List ℕ → Option (List ℕ × List ℕ)
field bytes = elim (split_nul bytes) [
  | none ↦ none
  | some ([], rest) ↦ none
  | some (c ∷ s, rest) ↦ some (c ∷ s, rest)
]

-- The value of an option, if it is a number to its end.
unfoldable pub whole_number : List ℕ → Option ℕ
whole_number s = elim (strtoumax s) [
  | none ↦ none
  | some (n, []) ↦ some n
  | some (n, c ∷ cs) ↦ none
]

-- An option that was not repeated and was asked for: `seen` and `asked` are its bits of optack and
-- optreq.
abbrev pub good : (seen asked : Bool) → Bool
good seen asked = not seen && asked

-- The comparisons of the loop with the three names.
unfoldable pub take_ack : Optreq → (name : List ℕ) → ℕ → Optreq → Option Optreq
unfolding ascii_strcaseeq
take_ack req name value ack =
    if ascii_strcaseeq name (b'b' ∷ b'l' ∷ b'k' ∷ b's' ∷ b'i' ∷ b'z' ∷ b'e' ∷ [])
    then (if good ack.has_blksize req.has_blksize
          && (leb min_segsize value && leb value req.blksize)
        then some (record ack { blksize = value; has_blksize = true })
        else none)
    else if ascii_strcaseeq name
        (b'w' ∷ b'i' ∷ b'n' ∷ b'd' ∷ b'o' ∷ b'w' ∷ b's' ∷ b'i' ∷ b'z' ∷ b'e' ∷ [])
    then (if good ack.has_window req.has_window && (leb 1 value && leb value req.window)
        then some (record ack { window = value; has_window = true })
        else none)
    else if ascii_strcaseeq name (b't' ∷ b's' ∷ b'i' ∷ b'z' ∷ b'e' ∷ [])
    then (if good ack.has_tsize req.has_tsize
        then some (record ack {
          tsize = some value;
          has_blksize = false;
          has_window = false;
          has_tsize = true;
        })
        else none)
    else none

-- One round of the loop: the options so far and the bytes that are left.
unfoldable pub next_ack : Optreq → List ℕ → Optreq → Option (Optreq × List ℕ)
unfolding field whole_number split_nul take_ack strtoumax
next_ack req bytes ack = elim (field bytes) [
  | none ↦ none
  | some (name, rest) ↦ elim (field rest) [
    | none ↦ none
    | some (value, rest') ↦ elim (whole_number value) [
      | none ↦ none
      | some n ↦ elim (take_ack req name n ack) [ none ↦ none | some ack' ↦ some (ack', rest') ]
    ]
  ]
]

-- The loop; each round uses up bytes, so that it ends within `rounds` of at least their number.
unfoldable pub acks : (rounds : ℕ) → Optreq → List ℕ → Optreq → Option Optreq
unfolding next_ack
acks rounds req [] ack = some ack
acks zero req (c ∷ cs) ack = none
acks (suc rounds) req (c ∷ cs) ack = elim (next_ack req (c ∷ cs) ack) [
  | none ↦ none
  | some (ack', rest) ↦ acks rounds req rest ack'
]

-- parse_oack: `stuff` are the bytes after the opcode. The packet is longer than 2 bytes if there is
-- one of them. none is false.
unfoldable pub parse_oack : Optreq → (opcode : ℕ) → (stuff : List ℕ) → Option Optreq
unfolding acks
parse_oack req opcode stuff =
    if length stuff == 0 || not (opcode == Opcode.oack)
    then none
    else acks (length stuff) req stuff optreq_init

-- Every value is the default or within what was asked for.
abbrev pub Within : (req ack : Optreq) → Type 0
Within req ack =
    ((ack.blksize ≡ segsize) ⊎ ((min_segsize ≤ ack.blksize) × (ack.blksize ≤ req.blksize)))
    × (1 ≤ ack.window)
    × ((ack.window ≡ 1) ⊎ (ack.window ≤ req.window))
    × ((ack.tsize ≡ none) ⊎ (req.has_tsize ≡ true))

take_ack-Within :
    (req : Optreq) (name : List ℕ) (value : ℕ) (ack : Optreq) {ack' : Optreq}
    → Within req ack
    → take_ack req name value ack ≡ some ack'
    → Within req ack'
unfolding take_ack
take_ack-Within req name value ack h e = ground arith

next_ack-Within :
    (req : Optreq) (bytes : List ℕ) (ack : Optreq) {ack' : Optreq} {rest : List ℕ}
    → Within req ack
    → next_ack req bytes ack ≡ some (ack', rest)
    → Within req ack'
unfolding next_ack
next_ack-Within req bytes ack {ack'} h e = elim (Option-cases (field bytes)) [
  | inl bad ↦ absurd (ground arith)
  | inr ((name, rest), f) ↦ elim (Option-cases (field rest)) [
    | inl bad ↦ absurd (ground arith)
    | inr ((value, rest'), g) ↦ elim (Option-cases (whole_number value)) [
      | inl bad ↦ absurd (ground arith)
      | inr (n, w) ↦ elim (Option-cases (take_ack req name n ack)) [
        | inl bad ↦ absurd (ground arith)
        | inr (a, t) ↦
            let same : a ≡ ack' = ground arith in
            subst (Within req) same (take_ack-Within req name n ack h t)
      ]
    ]
  ]
]

acks-Within :
    (rounds : ℕ) (req : Optreq) (bytes : List ℕ) (ack : Optreq) {ack' : Optreq}
    → Within req ack
    → acks rounds req bytes ack ≡ some ack'
    → Within req ack'
unfolding acks
acks-Within rounds req [] ack h e = ground arith
acks-Within zero req (c ∷ cs) ack h e = ground arith
acks-Within (suc rounds) req (c ∷ cs) ack h e = elim (Option-cases (next_ack req (c ∷ cs) ack)) [
  | inl bad ↦ absurd (ground arith)
  | inr ((a, rest), good_round) ↦
      acks-Within rounds req rest a (next_ack-Within req (c ∷ cs) ack h good_round)
        (rw (good_round, acks) at e)
]

-- Whatever a server sends, if parse_oack accepts it then the block size is the default or between
-- MIN_SEGSIZE and the one asked for, the window is at least 1 and the default or no more than the
-- one asked for, and a size is taken only if it was asked for.
pub parse_oack-Within :
    (req : Optreq) (opcode : ℕ) (stuff : List ℕ) {ack : Optreq}
    → parse_oack req opcode stuff ≡ some ack
    → Within req ack
unfolding parse_oack
parse_oack-Within req opcode stuff {ack} e =
    let start : Within req optreq_init = (inl refl, omega arith, inl refl, inl refl) in
    let taken : acks (length stuff) req stuff optreq_init ≡ some ack = ground arith in
    acks-Within (length stuff) req stuff optreq_init start taken
