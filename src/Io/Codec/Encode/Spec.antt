-- ===== src/Io/Codec/Encode/Spec.antt =====
-- The text that the reading codec makes of a file, and how read_bytes cuts it.
use network_tftp_tftp_hpa.Prelude.{
  ℕ, zero, suc, ◌≡◌, refl, sym, ap, subst, ◌∙◌, inl, inr, Bool, true, false, Option, some, List, [],
  ◌∷◌, ◌++◌, take, drop, arith, if◌then◌else◌, Bool-cases, list-cases,
}
use network_tftp_tftp_hpa.Xfer.{Answer, ok, fail}
use network_tftp_tftp_hpa.Io.{Io}
use network_tftp_tftp_hpa.Io.Codec.Encode.{
  second_char, is_line_end, prepend, netascii_read, netascii_read_packet, octet_read_packet,
  read_bytes,
}

-- The netascii text of a file: LF becomes CR LF, and CR becomes CR NUL.
unfoldable pub encode : List ℕ → List ℕ
encode [] = []
encode (c ∷ cs) = if is_line_end c then b'\r' ∷ second_char (some c) ∷ encode cs else c ∷ encode cs

abbrev pub held_second : (newline : Bool) → Option ℕ → List ℕ
held_second true prevchar = second_char prevchar ∷ []
held_second false prevchar = []

-- What is still to come of the text: the second half of a pair that a packet's end has cut, and
-- the rest of the file.
abbrev pub pending : Io → List ℕ
pending io =
    if io.convert then held_second io.newline io.prevchar ++ encode io.file.input else io.file.input

-- What a call of the codec changes.
abbrev pub Advances : (left : ℕ) → Io → List ℕ → Io → Type 0
Advances left io d io' =
    (d ≡ take left (pending io))
    × (pending io' ≡ drop left (pending io))
    × (io' ≡ record io { file = io'.file; newline = io'.newline; prevchar = io'.prevchar })

abbrev pub Cut : (left : ℕ) → Io → Answer Io (List ℕ) → Type 0
Cut left io (ok d io') = Advances left io d io'
Cut left io (fail e io') = Unit

Cut-prepend :
    (left c : ℕ) (io io' : Io) (a : Answer Io (List ℕ))
    → pending io ≡ c ∷ pending io'
    → io' ≡ record io { file = io'.file; newline = io'.newline; prevchar = io'.prevchar }
    → Cut left io' a
    → Cut (suc left) io (prepend c a)
Cut-prepend left c io io' (fail e s) p f h = tt
Cut-prepend left c io io' (ok d s) p f h = (
  ap (λ l. c ∷ l) h.0 ∙ sym (ap (take (suc left)) p),
  h.1 ∙ sym (ap (drop (suc left)) p),
  h.2 ∙ ap (λ (j : Io). record j { file = s.file; newline = s.newline; prevchar = s.prevchar }) f,
)

netascii_read-Cut : (left : ℕ) (io : Io) → io.convert ≡ true → Cut left io (netascii_read left io)
unfolding netascii_read encode
netascii_read-Cut zero io k = (refl, refl, refl)
netascii_read-Cut (suc left) io k = elim (Bool-cases io.newline) [
  | inl second ↦
      let io' : Io = record io { newline = false } in
      let p : pending io ≡ second_char io.prevchar ∷ pending io' = ground (arith, k, second) in
      let step : netascii_read (suc left) io
          ≡ prepend (second_char io.prevchar) (netascii_read left io') =
        ground (arith, second) in
      subst (Cut (suc left) io) (sym step) (
        Cut-prepend left (second_char io.prevchar) io io' (netascii_read left io') p refl
          (netascii_read-Cut left io' k))
  | inr fresh ↦ elim (list-cases io.file.input) [
    | inl empty ↦ elim (Bool-cases io.file.read_error) [
      | inl bad ↦
          let step : netascii_read (suc left) io ≡ fail 5 io = ground (arith, fresh, empty, bad) in
          subst (Cut (suc left) io) (sym step) tt
      | inr good ↦
          let step : netascii_read (suc left) io ≡ ok [] io = ground (arith, fresh, empty, good) in
          let none_left : pending io ≡ [] = ground (arith, k, fresh, empty) in
          subst (Cut (suc left) io) (sym step) (
            ap (take (suc left)) (sym none_left),
            none_left ∙ ap (drop (suc left)) (sym none_left),
            refl,
          )
    ]
    | inr (c, rest, e) ↦ elim (Bool-cases (is_line_end c)) [
      | inl end ↦
          let io' : Io = record io {
            file = record (io.file) { input = rest };
            prevchar = some c;
            newline = true;
          } in
          let p : pending io ≡ b'\r' ∷ pending io' = ground (arith, k, fresh, e, end) in
          let step : netascii_read (suc left) io ≡ prepend b'\r' (netascii_read left io') =
            ground (arith, fresh, e, end) in
          subst (Cut (suc left) io) (sym step) (
            Cut-prepend left b'\r' io io' (netascii_read left io') p refl
              (netascii_read-Cut left io' k))
      | inr plain ↦
          let io' : Io = record io { file = record (io.file) { input = rest } } in
          let p : pending io ≡ c ∷ pending io' = ground (arith, k, fresh, e, plain) in
          let step : netascii_read (suc left) io ≡ prepend c (netascii_read left io') =
            ground (arith, fresh, e, plain) in
          subst (Cut (suc left) io) (sym step) (
            Cut-prepend left c io io' (netascii_read left io') p refl
              (netascii_read-Cut left io' k))
    ]
  ]
]

-- One packet's worth of the text.
pub read_bytes-Cut : (io : Io) → Cut io.blocksize io (read_bytes io)
unfolding read_bytes netascii_read_packet octet_read_packet
read_bytes-Cut io = elim (Bool-cases io.convert) [
  | inl k ↦
      let step : read_bytes io ≡ netascii_read io.blocksize io = ground (arith, k) in
      subst (Cut io.blocksize io) (sym step) (netascii_read-Cut io.blocksize io k)
  | inr k ↦ ground (arith, k)
]
