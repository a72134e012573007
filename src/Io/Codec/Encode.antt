-- ===== src/Io/Codec/Encode.antt =====
-- The reading half of the codec in common/tftp-io.c: a packet's data bytes from the file.
pub mod Spec
use network_tftp_tftp_hpa.Prelude.{
  ℕ, zero, suc, Bool, true, false, ◌&&◌, ◌||◌, Option, none, some, List, [], ◌∷◌, ltb, ◌==◌, length,
  take, drop, if◌then◌else◌,
}
use network_tftp_tftp_hpa.Io.{Io}
use network_tftp_tftp_hpa.Xfer.{Answer, ok, fail}

-- octet_read_packet: fread() of one block. The bytes are what it puts in th_data.
unfoldable pub octet_read_packet : Io → Answer Io (List ℕ)
octet_read_packet io =
    let got = take io.blocksize io.file.input in
    let io' = record io { file = record (io.file) { input = drop io.blocksize io.file.input } } in
    if ltb (length got) io.blocksize && io.file.read_error then fail 5 io' else ok got io'

abbrev pub prepend : ℕ → Answer Io (List ℕ) → Answer Io (List ℕ)
prepend c (ok cs io) = ok (c ∷ cs) io
prepend c (fail e io) = fail e io

-- The character behind an expanded CR: LF for LF, NUL for CR.
abbrev pub second_char : Option ℕ → ℕ
second_char none = 0
second_char (some c) = if c == b'\n' then b'\n' else 0

-- Whether getc() brings a character that is expanded.
abbrev pub is_line_end : ℕ → Bool
is_line_end c = c == b'\n' || c == b'\r'

-- netascii_read_packet with `left` rounds of its loop to go. One recursive call a round: the `let`s
-- wait, so that a round at the end of the file makes none.
unfoldable pub netascii_read : (left : ℕ) → Io → Answer Io (List ℕ)
netascii_read zero io = ok [] io
netascii_read (suc left) io =
    let second =
      prepend (second_char io.prevchar) (netascii_read left (record io { newline = false })) in
    let fresh : Answer Io (List ℕ) = elim io.file.input [
      | [] ↦ if io.file.read_error then fail 5 io else ok [] io
      | c ∷ rest ↦
          let io' = record io { file = record (io.file) { input = rest } } in
          if is_line_end c
          then prepend b'\r' (netascii_read left (record io' { prevchar = some c; newline = true }))
          else prepend c (netascii_read left io')
    ] in
    if io.newline then second else fresh

unfoldable pub netascii_read_packet : Io → Answer Io (List ℕ)
unfolding netascii_read
netascii_read_packet io = netascii_read io.blocksize io

-- io->ops->read_packet
unfoldable pub read_bytes : Io → Answer Io (List ℕ)
unfolding netascii_read_packet octet_read_packet
read_bytes io = if io.convert then netascii_read_packet io else octet_read_packet io
