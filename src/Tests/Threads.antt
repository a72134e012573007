-- ===== src/Tests/Threads.antt =====
-- The threaded writer with two slots of four bytes, in netascii mode, in one order of its turns.
use network_tftp_tftp_hpa.Prelude.{
  ℕ, ◌*◌, ◌≡◌, ◌≢◌, refl, true, false, none, List, [], ◌∷◌, ◌++◌, replicate,
}
use network_tftp_tftp_hpa.Stdio.{Stream, putc}
use network_tftp_tftp_hpa.Io.{Io, io_next, io_start, tftp_io_writer_start, empty, blank}
use network_tftp_tftp_hpa.Io.Writer.{tftp_io_write_finish}
use network_tftp_tftp_hpa.Io.Writer.Drain.{render}
use network_tftp_tftp_hpa.Io.Writer.Threads.{
  Turn, by_writer, by_caller, reserve, copy, publish, drain, flush, finish, schedule, started,
}
use network_tftp_tftp_hpa.Io.Writer.Threads.Returned.{sent}
use network_tftp_tftp_hpa.Io.Writer.Threads.Exact.{schedule_exact, slots_apart}
use network_tftp_tftp_hpa.Io.Writer.Threads.Sleep.{acts, all_awake}
use network_tftp_tftp_hpa.Io.Writer.Threads.Leaves.{LeavesWithin, acts-LeavesWithin}

abbrev disk : Stream
disk = record { input = []; read_error = false; output = []; room = 100; flush_errno = 0 }

abbrev ring : Io
ring = record {
  file = disk;
  convert = true;
  packets = replicate 2 blank;
  lengths = replicate 2 0;
  states = replicate 2 empty;
  slots = 2;
  window = 0;
  blocksize = 4;
  head = 0;
  tail = 0;
  count = 0;
  held = 0;
  error = 0;
  eof = false;
  newline = false;
  prevchar = none;
  write_cr = false;
}

-- "ab\r\n" is published.
abbrev one_packet : List Turn
one_packet =
    by_caller reserve
    ∷ by_writer
    ∷ by_caller (copy (97 ∷ 98 ∷ 13 ∷ 10 ∷ []))
    ∷ by_caller publish
    ∷ []

-- While writer_thread writes it, "c" is copied to the next slot.
abbrev overlapping : List Turn
overlapping = one_packet ++ by_writer ∷ by_caller reserve ∷ by_caller (copy (99 ∷ [])) ∷ []

abbrev whole : List Turn
whole =
    overlapping
    ++ by_caller publish
      ∷ by_writer
      ∷ by_caller drain
      ∷ by_writer
      ∷ by_writer
      ∷ by_writer
      ∷ by_writer
      ∷ by_caller drain
      ∷ by_writer
      ∷ by_caller flush
      ∷ by_caller finish
      ∷ []

both_packets : (schedule whole (started ring)).io.file.output ≡ 97 ∷ 98 ∷ 10 ∷ 99 ∷ []
unfolding schedule tftp_io_write_finish putc io_next
both_packets = refl

schedule_exact_example :
    (schedule whole (started ring)).io.file.output ≡ render true (sent whole (started ring))
unfolding schedule tftp_io_writer_start io_start tftp_io_write_finish putc io_next
schedule_exact_example = schedule_exact disk true 2 4 ring whole refl refl refl

slots_apart_example : ◌≢◌ {A = ℕ} 0 1
unfolding schedule tftp_io_writer_start io_start io_next
slots_apart_example = slots_apart disk true 2 4 ring overlapping 0 4 1 (99 ∷ []) refl refl refl refl

-- writer_thread sleeps until the packet is published; then the other thread sleeps in
-- tftp_io_write_drain.
abbrev to_drain : List Turn
to_drain = by_writer ∷ one_packet ++ by_caller drain ∷ []

writer_sleeps : (acts (by_writer ∷ []) (all_awake ring)).writer_asleep ≡ true
unfolding acts
writer_sleeps = refl

acts-LeavesWithin_example :
    LeavesWithin
      (3 * (acts to_drain (all_awake ring)).threads.io.count)
      flush
      (acts to_drain (all_awake ring))
unfolding acts tftp_io_writer_start io_start io_next
acts-LeavesWithin_example = acts-LeavesWithin disk true 2 4 ring to_drain flush refl refl refl
