-- ===== src/Io/Reader.antt =====
-- The reading callbacks of common/tftp-io.c, unthreaded: the ring as a source of DATA packets.
pub mod Places
pub mod Window
pub mod Laws
use network_tftp_tftp_hpa.Prelude.{
  ℕ, zero, suc, ◌+◌, ◌-◌, ◌%◌, Bool, true, false, not, ◌&&◌, List, ltb, leb, ◌==◌, length, get_or,
  set, if◌then◌else◌,
}
use network_tftp_tftp_hpa.Packet.{Packet}
use network_tftp_tftp_hpa.Xfer.{Answer, ok, fail}
use network_tftp_tftp_hpa.Xfer.Send.{ReadOps}
use network_tftp_tftp_hpa.Io.{Io, io_next, io_packet, io_error}
use network_tftp_tftp_hpa.Io.Codec.Encode.{read_bytes}

-- A packet's data bytes go to th_data; its header stays.
abbrev pub store_packet : Io → List ℕ → Io
store_packet io d = record io {
  packets = set io.packets io.tail (record (io_packet io io.tail) { payload = d });
  lengths = set io.lengths io.tail (length d + 4);
  tail = io_next io.slots io.tail;
  count = io.count + 1;
  eof = if length d == io.blocksize then io.eof else true;
}

-- The loop of tftp_io_read_window, with at most `rounds` rounds.
unfoldable pub fill_window : (rounds : ℕ) → Io → Io
fill_window zero io = io
fill_window (suc rounds) io = elim (ltb io.count io.window && not io.eof && io.error == 0) [
  | false ↦ io
  | true ↦ elim (read_bytes io) [
    | fail e io' ↦ io_error io' e
    | ok d io' ↦ fill_window rounds (store_packet io' d)
  ]
]

-- Every round adds a packet, so the loop ends within `window` rounds.
unfoldable pub tftp_io_read_window : Io → Answer Io (ℕ × Bool)
unfolding fill_window
tftp_io_read_window io0 =
    let io = fill_window io0.window io0 in
    let held = if ltb io.count io.window then io.count else io.window in
    let io' = record io { held = held } in
    if io.error == 0 then ok (held, io.eof && held == io.count) io' else fail io.error io

-- The slot of packet `n` of the held window.
abbrev pub slot_of : Io → ℕ → ℕ
slot_of io n = (io.head + n) % io.slots

unfoldable pub tftp_io_read_packet : ℕ → Io → Answer Io Packet
tftp_io_read_packet n io = if leb io.held n then fail 22 io else ok (io_packet io (slot_of io n)) io

unfoldable pub tftp_io_read_length : ℕ → Io → Answer Io ℕ
tftp_io_read_length n io =
    if leb io.held n then fail 22 io else ok (get_or io.lengths (slot_of io n) 0) io

-- The loop of tftp_io_read_release: one slot a round.
unfoldable pub release : (left : ℕ) → Io → Io
release zero io = io
release (suc left) io =
    release left
      (record io { head = io_next io.slots io.head; count = io.count - 1; held = io.held - 1 })

unfoldable pub tftp_io_read_release : Io → Io
unfolding release
tftp_io_read_release io = release io.held io

-- dp->th_opcode and dp->th_block of a packet of the held window.
unfoldable pub store_header : ℕ → ℕ → ℕ → Io → Io
store_header n opcode block io =
    let i = slot_of io n in
    record io {
      packets = set io.packets i (record (io_packet io i) { opcode = opcode; block = block });
    }

-- The reading half of tftp_io_xfer_ops.
abbrev pub reader_ops : ReadOps Io
reader_ops = record {
  read_window = tftp_io_read_window;
  read_packet = tftp_io_read_packet;
  read_length = tftp_io_read_length;
  read_release = tftp_io_read_release;
  stamp = store_header;
}
