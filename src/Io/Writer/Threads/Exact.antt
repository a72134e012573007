-- ===== src/Io/Writer/Threads/Exact.antt =====
-- Whatever the schedule of the two threads: what reaches the file, and who uses which slot.
use network_tftp_tftp_hpa.Prelude.{
  ℕ, zero, suc, ◌<◌, ◌≡◌, ◌≢◌, refl, sym, ap, ◌∙◌, subst, Bool, List, [], arith, get_or, some,
  replicate, length-replicate,
}
use network_tftp_tftp_hpa.Stdio.{Stream}
use network_tftp_tftp_hpa.Io.{Io, empty, blank, io_start, tftp_io_writer_start}
use network_tftp_tftp_hpa.Io.Codec.Decode.Spec.{rendered, held_cr, decode, open_cr}
use network_tftp_tftp_hpa.Io.Writer.Ring.{walk, walk-zero, gather-zero}
use network_tftp_tftp_hpa.Io.Writer.Drain.{render}
use network_tftp_tftp_hpa.Io.Writer.Threads.{Writer, filling, finished, Turn, schedule, started}
use network_tftp_tftp_hpa.Io.Writer.Threads.Held.{is_busy}
use network_tftp_tftp_hpa.Io.Writer.Threads.Invariant.{Inv}
use network_tftp_tftp_hpa.Io.Writer.Threads.Kept.{schedule-Holds}
use network_tftp_tftp_hpa.Io.Writer.Threads.Returned.{sent, Holds}
use network_tftp_tftp_hpa.Upload.{fresh}

get_or-replicate : (n i : ℕ) → get_or (replicate n empty) i empty ≡ empty
get_or-replicate zero i = refl
get_or-replicate (suc n) zero = refl
get_or-replicate (suc n) (suc i) = get_or-replicate n i

-- A ring with nothing in it, and a file in which nothing is.
fresh-Holds :
    (file : Stream) (convert : Bool) (slots blocksize : ℕ)
    → file.output ≡ []
    → 0 < slots
    → Holds convert [] (started (fresh file convert slots blocksize))
unfolding rendered held_cr decode open_cr
fresh-Holds file convert slots blocksize e some_slot = (
  (
    record {
      head_in = some_slot;
      count_in = omega arith;
      tail_at = sym (walk-zero slots 0);
      packets_length = length-replicate slots blank;
      lengths_length = length-replicate slots 0;
      states_length = length-replicate slots empty;
      first = λ lt. absurd (omega arith);
      others = λ k lt. absurd (omega arith);
      free = λ k le lt. ap is_busy (get_or-replicate slots (walk slots 0 k));
    },
    record {
      mode = refl;
      flushed = [];
      output = e ∙ ground arith;
      cr = ground arith;
      split = sym (gather-zero slots _ 0);
    },
  ),
  refl,
)

pub started-Holds :
    (file : Stream) (convert : Bool) (slots blocksize : ℕ) (io : Io)
    → file.output ≡ []
    → tftp_io_writer_start file convert slots blocksize ≡ some io
    → Holds convert [] (started io)
unfolding tftp_io_writer_start io_start
started-Holds file convert slots blocksize io e h =
    let some_slot : 0 < slots = ground arith in
    let same : fresh file convert slots blocksize ≡ io = ground arith in
    subst (λ i. Holds convert [] (started i)) same
      (fresh-Holds file convert slots blocksize e some_slot)

-- A threaded writer with any number of slots and an empty file, in octet or netascii mode: whatever
-- the order of the turns of the two threads, once tftp_io_write_finish has succeeded, the file
-- holds the text of just the bytes that were published, in their order.
pub schedule_exact :
    (file : Stream) (convert : Bool) (slots blocksize : ℕ) (io : Io) (ms : List Turn)
    → file.output ≡ []
    → tftp_io_writer_start file convert slots blocksize ≡ some io
    → (schedule ms (started io)).caller ≡ finished
    → (schedule ms (started io)).io.file.output ≡ render convert (sent ms (started io))
schedule_exact file convert slots blocksize io ms e h done =
    let t = schedule ms (started io) in
    let kept =
      schedule-Holds convert [] ms (started io)
        (started-Holds file convert slots blocksize io e h) in
    (subst (λ c. Inv convert (sent ms (started io)) t.stopped t.writer t.io c) done kept).1

Inv-apart :
    (convert : Bool) (got : List ℕ) (stopped : Bool) (io : Io) (i n j : ℕ) (d : List ℕ)
    → Inv convert got stopped (Writer.writing i n) io (filling j d)
    → i ≢ j
Inv-apart convert got stopped io i n j d ((e, e', some_left, r, a), (s, e'', mark, copied)) x =
    absurd (ground (arith, r.first some_left))

-- In any order of turns: while writer_thread writes a slot to the file, the slot into which the
-- other thread copies a packet is another one.
pub slots_apart :
    (file : Stream) (convert : Bool) (slots blocksize : ℕ) (io : Io) (ms : List Turn) (i n j : ℕ)
    (d : List ℕ)
    → file.output ≡ []
    → tftp_io_writer_start file convert slots blocksize ≡ some io
    → (schedule ms (started io)).writer ≡ Writer.writing i n
    → (schedule ms (started io)).caller ≡ filling j d
    → i ≢ j
slots_apart file convert slots blocksize io ms i n j d e h w c =
    let t = schedule ms (started io) in
    let got = sent ms (started io) in
    let kept =
      schedule-Holds convert [] ms (started io)
        (started-Holds file convert slots blocksize io e h) in
    Inv-apart convert got t.stopped t.io i n j d (
      subst (λ v. Inv convert got t.stopped v t.io (filling j d)) w
        (subst (λ v. Inv convert got t.stopped t.writer t.io v) c kept))
