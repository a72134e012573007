-- ===== src/Io/Codec/Decode.antt =====
-- The writing half of the codec in common/tftp-io.c: the data bytes of packets to the file.
pub mod Spec
use network_tftp_tftp_hpa.Prelude.{
  ℕ, true, false, none, some, List, [], ◌∷◌, ◌==◌, take, if◌then◌else◌,
}
use network_tftp_tftp_hpa.Io.{Io}
use network_tftp_tftp_hpa.Stdio.{putc, fwrite}
use network_tftp_tftp_hpa.Xfer.{Answer, ok, fail}

abbrev put_next : ℕ → Io → (Io → Answer Io (Unit {0})) → Answer Io (Unit {0})
put_next c io next = elim (putc c io.file) [
  | none ↦ fail 5 io
  | some f ↦ next (record io { file = f })
]

-- netascii_write_packet over the bytes of a packet: a byte behind a CR, and any other byte.
unfoldable pub netascii_write : List ℕ → Io → Answer Io (Unit {0})
netascii_write [] io = ok tt io
netascii_write (c ∷ cs) io =
    let after_cr = λ (io' : Io). put_next c (record io' { write_cr = false }) (netascii_write cs) in
    let bare_cr = put_next b'\r' io after_cr in
    let lf = after_cr io in
    let cr = put_next b'\r' (record io { write_cr = false }) (netascii_write cs) in
    let held = netascii_write cs (record io { write_cr = true }) in
    let plain = put_next c io (netascii_write cs) in
    if io.write_cr
    then (if c == b'\n' then lf else if c == 0 then cr else bare_cr)
    else if c == b'\r'
    then held
    else plain

-- octet_write_packet
unfoldable pub octet_write : List ℕ → Io → Answer Io (Unit {0})
octet_write d io = elim (fwrite d io.file) [
  | none ↦ fail 5 io
  | some f ↦ ok tt (record io { file = f })
]

-- io->ops->write_packet for `count` bytes of a packet's data.
unfoldable pub write_bytes : List ℕ → (count : ℕ) → Io → Answer Io (Unit {0})
unfolding netascii_write octet_write
write_bytes d count io =
    if io.convert then netascii_write (take count d) io else octet_write (take count d) io
