-- ===== src/Io/Writer.antt =====
-- The writing callbacks of common/tftp-io.c, unthreaded: the ring as a sink of DATA packets.
pub mod Ring
pub mod Publish
pub mod Drain
pub mod Threads
use network_tftp_tftp_hpa.Prelude.{
  ℕ, zero, suc, ◌+◌, ◌-◌, Bool, true, false, not, ◌&&◌, none, some, List, ltb, ◌==◌, length, get_or,
  set, if◌then◌else◌,
}
use network_tftp_tftp_hpa.Packet.{Packet}
use network_tftp_tftp_hpa.Stdio.{putc}
use network_tftp_tftp_hpa.Xfer.{Answer, ok, fail}
use network_tftp_tftp_hpa.Xfer.Receive.{WriteOps}
use network_tftp_tftp_hpa.Io.{
  Io, SlotState, empty, reserved, ready, writing, io_next, io_packet, io_error,
}
use network_tftp_tftp_hpa.Io.Codec.Decode.{write_bytes}

abbrev pub state_of : Io → ℕ → SlotState
state_of io n = get_or io.states n empty

abbrev pub is_empty : SlotState → Bool
is_empty empty = true
is_empty _ = false

abbrev pub is_reserved : SlotState → Bool
is_reserved reserved = true
is_reserved _ = false

abbrev pub is_ready : SlotState → Bool
is_ready ready = true
is_ready _ = false

unfoldable pub tftp_io_writer_reserve : Io → Answer Io (Unit {0})
tftp_io_writer_reserve io =
    if not (is_empty (state_of io io.tail)) && io.error == 0
    then fail 5 io
    else if not (io.error == 0)
    then fail io.error io
    else ok tt (record io { states = set io.states io.tail reserved })

-- memcpy() of a received packet's data into the reserved slot, and tftp_io_write_publish.
unfoldable pub tftp_io_write_publish : List ℕ → Io → Answer Io (Unit {0})
tftp_io_write_publish d io0 =
    let io = record io0 {
      packets = set io0.packets io0.tail (record (io_packet io0 io0.tail) { payload = d });
    } in
    if ltb io.blocksize (length d)
    then fail 22 io
    else if not (is_reserved (state_of io io.tail))
    then fail 5 io
    else ok tt (record io {
      lengths = set io.lengths io.tail (length d);
      states = set io.states io.tail ready;
      tail = io_next io.slots io.tail;
      count = io.count + 1;
    })

-- The slot at the head is written: it is free again.
abbrev advance : Io → Io
advance io = record io {
  states = set io.states io.head empty;
  head = io_next io.slots io.head;
  count = io.count - 1;
}

abbrev start_writing : Io → Io
start_writing io = record io { states = set io.states io.head writing }

-- The loop of tftp_io_write_drain, with at most `rounds` rounds.
unfoldable pub drain_loop : (rounds : ℕ) → Io → Io
drain_loop zero io = io
drain_loop (suc rounds) io = elim (not (io.count == 0) && io.error == 0) [
  | false ↦ io
  | true ↦ elim (is_ready (state_of io io.head)) [
    | false ↦ io_error io 5
    | true ↦
        elim (write_bytes (io_packet io io.head).payload (get_or io.lengths io.head 0)
          (start_writing io)) [
            | fail e io' ↦ io_error io' e
            | ok _ io' ↦ drain_loop rounds (advance io')
          ]
  ]
]

-- Every round frees a slot, so the loop ends within `count` rounds. fflush() sets errno, or EIO
-- stands for it.
unfoldable pub tftp_io_write_drain : Io → Answer Io (Unit {0})
unfolding drain_loop
tftp_io_write_drain io0 =
    let io = drain_loop io0.count io0 in
    if io.error == 0
    then (if io.file.flush_errno == 0
        then ok tt io
        else fail io.file.flush_errno (io_error io io.file.flush_errno))
    else fail io.error io

-- fflush() of write_finish
abbrev flush : Io → Answer Io (Unit {0})
flush io = if io.file.flush_errno == 0 then ok tt io else fail io.file.flush_errno io

-- netascii_write_finish: a CR that was held back is written first.
unfoldable pub netascii_write_finish : Io → Answer Io (Unit {0})
netascii_write_finish io =
    let flushed = flush io in
    let pushed : Answer Io (Unit {0}) = elim (putc b'\r' io.file) [
      | none ↦ fail 5 io
      | some f ↦ flush (record io { file = f; write_cr = false })
    ] in
    if io.write_cr then pushed else flushed

unfoldable pub octet_write_finish : Io → Answer Io (Unit {0})
octet_write_finish io = flush io

abbrev finish_failed : Answer Io (Unit {0}) → Answer Io (Unit {0})
finish_failed (ok _ io) = ok tt io
finish_failed (fail e io) = fail (io_error io e).error (io_error io e)

unfoldable pub tftp_io_write_finish : Io → Answer Io (Unit {0})
unfolding netascii_write_finish octet_write_finish io_error
tftp_io_write_finish io =
    finish_failed (if io.convert then netascii_write_finish io else octet_write_finish io)

-- The writing half of tftp_io_xfer_ops.
abbrev pub writer_ops : WriteOps Io
writer_ops = record {
  write_reserve = tftp_io_writer_reserve;
  write_publish = tftp_io_write_publish;
  write_drain = tftp_io_write_drain;
  write_finish = tftp_io_write_finish;
}
