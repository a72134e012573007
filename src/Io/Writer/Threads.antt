-- ===== src/Io/Writer/Threads.antt =====
-- common/tftp-io.c, the writing side with threaded == true: writer_thread beside the thread that
-- transfers. A turn of a thread goes from one use of the lock to the next, or is one access to the
-- file without the lock; a thread that waits for `changed` takes a turn that changes nothing
-- here; Threads/Sleep puts pthread_cond_wait() and pthread_cond_broadcast() around these turns.
pub mod Held
pub mod Marks
pub mod Bytes
pub mod Turns
pub mod Calls
pub mod Invariant
pub mod Returned
pub mod Kept
pub mod Exact
pub mod Drains
pub mod Sleep
pub mod Rests
pub mod Wakes
pub mod Shadow
pub mod Leaves
use network_tftp_tftp_hpa.Prelude.{
  ℕ, ◌+◌, Bool, true, false, not, ◌&&◌, ◌||◌, List, [], ◌∷◌, ◌++◌, ltb, ◌==◌, length, get_or, set,
  if◌then◌else◌,
}
use network_tftp_tftp_hpa.Xfer.{Answer, ok, fail}
use network_tftp_tftp_hpa.Io.{Io, empty, ready, io_next, io_packet, io_error}
use network_tftp_tftp_hpa.Io.Codec.Decode.{write_bytes}
use network_tftp_tftp_hpa.Io.Writer.{
  state_of, is_empty, is_ready, is_reserved, advance, start_writing, tftp_io_writer_reserve,
  tftp_io_write_finish,
}

-- Where writer_thread is: before its loop's lock, in write_packet with `dp` and `length`, behind it
-- when it has succeeded or failed with errno, or returned.
pub data Writer : Type 0 where
  waiting : Writer
  writing : (slot length : ℕ) → Writer
  wrote : Writer
  failed : (errno : ℕ) → Writer
  ended : Writer

-- Where the other thread is: between calls, with a reserved slot and the data it has put there,
-- in fflush() of tftp_io_write_drain, behind that call, behind tftp_io_write_finish, behind a call
-- that failed, or in tftp_io_stop.
pub data Caller : Type 0 where
  idle : Caller
  filling : (slot : ℕ) → (data_bytes : List ℕ) → Caller
  flushing drained finished : Caller
  refused : (errno : ℕ) → Caller
  stopping : Caller

-- struct tftp_io with the field `stopped`, and the two threads.
pub record Threads : Type 0 where
  pub io : Io
  pub stopped : Bool
  pub writer : Writer
  pub caller : Caller

-- A turn of writer_thread.
unfoldable pub writer_turn : Threads → Threads
unfolding write_bytes io_error
writer_turn t =
    let io = t.io in
    let taken : Threads = record t {
      io = start_writing io;
      writer = writing io.head (get_or io.lengths io.head 0);
    } in
    elim t.writer [
      | waiting ↦
          if t.stopped || not (io.error == 0)
          then record t { writer = ended }
          else if is_ready (state_of io io.head)
          then taken
          else t
      | writing slot n ↦ elim (write_bytes (io_packet io slot).payload n io) [
        | ok _ io' ↦ record t { io = io'; writer = wrote }
        | fail e io' ↦ record t { io = io'; writer = failed e }
      ]
      | wrote ↦ record t { io = advance io; writer = waiting }
      | failed e ↦ record t { io = io_error io e; writer = ended }
      | ended ↦ t
    ]

-- What the other thread does next: a call, or memcpy() into its slot.
pub data Call : Type 0 where
  reserve : Call
  copy : (data_bytes : List ℕ) → Call
  publish drain flush finish stop : Call

-- tftp_io_writer_reserve: it waits for a free slot or an error.
unfoldable pub reserve_turn : Threads → Threads
unfolding tftp_io_writer_reserve
reserve_turn t =
    let io = t.io in
    let done : Threads = elim (tftp_io_writer_reserve io) [
      | ok _ io' ↦ record t { io = io'; caller = filling io.tail (io_packet io io.tail).payload }
      | fail e io' ↦ record t { io = io'; caller = refused e }
    ] in
    if not (is_empty (state_of io io.tail)) && io.error == 0 then t else done

abbrev pub store : (slot : ℕ) → List ℕ → Io → Io
store slot d io = record io {
  packets = set io.packets slot (record (io_packet io slot) { payload = d });
}

-- tftp_io_write_publish of `n` bytes.
unfoldable pub publish_length : (n : ℕ) → Io → Answer Io (Unit {0})
publish_length n io =
    if ltb io.blocksize n
    then fail 22 io
    else if not (is_reserved (state_of io io.tail))
    then fail 5 io
    else ok tt (record io {
      lengths = set io.lengths io.tail n;
      states = set io.states io.tail ready;
      tail = io_next io.slots io.tail;
      count = io.count + 1;
    })

unfoldable pub publish_turn : (d : List ℕ) → Threads → Threads
unfolding publish_length
publish_turn d t = elim (publish_length (length d) t.io) [
  | ok _ io' ↦ record t { io = io'; caller = idle }
  | fail e io' ↦ record t { io = io'; caller = refused e }
]

-- tftp_io_write_drain up to fflush(): it waits for an empty ring or an error.
unfoldable pub drain_turn : Threads → Threads
drain_turn t =
    if not (t.io.count == 0) && t.io.error == 0
    then t
    else if t.io.error == 0
    then record t { caller = flushing }
    else record t { caller = refused t.io.error }

unfoldable pub flush_turn : Threads → Threads
unfolding io_error
flush_turn t =
    let e = t.io.file.flush_errno in
    if e == 0
    then record t { caller = drained }
    else record t { io = io_error t.io e; caller = refused e }

unfoldable pub finish_turn : Threads → Threads
unfolding tftp_io_write_finish
finish_turn t = elim (tftp_io_write_finish t.io) [
  | ok _ io' ↦ record t { io = io'; caller = finished }
  | fail e io' ↦ record t { io = io'; caller = refused e }
]

-- The calls of tftp_xfer_recv in their order: a slot is reserved before the first packet, and
-- behind each one that is published, or behind the drain of a window. Any other call is none.
unfoldable pub caller_turn : Call → Threads → Threads
unfolding reserve_turn publish_turn drain_turn flush_turn finish_turn
caller_turn call t = elim t.caller [
  | idle ↦ elim call [
    | reserve ↦ reserve_turn t
    | drain ↦ drain_turn t
    | stop ↦ record t { stopped = true; caller = stopping }
    | _ ↦ t
  ]
  | filling slot d ↦ elim call [
    | copy d' ↦ record t { io = store slot d' t.io; caller = filling slot d' }
    | publish ↦ publish_turn d t
    | stop ↦ record t { stopped = true; caller = stopping }
    | _ ↦ t
  ]
  | flushing ↦ elim call [ flush ↦ flush_turn t | _ ↦ t ]
  | drained ↦ elim call [
    | reserve ↦ reserve_turn t
    | finish ↦ finish_turn t
    | stop ↦ record t { stopped = true; caller = stopping }
    | _ ↦ t
  ]
  | finished ↦ elim call [ stop ↦ record t { stopped = true; caller = stopping } | _ ↦ t ]
  | refused e ↦ elim call [ stop ↦ record t { stopped = true; caller = stopping } | _ ↦ t ]
  | stopping ↦ t
]

-- A turn in a schedule: of writer_thread, or a call of the other thread.
pub data Turn : Type 0 where
  by_writer : Turn
  by_caller : Call → Turn

unfoldable pub turn : Turn → Threads → Threads
unfolding writer_turn caller_turn
turn by_writer t = writer_turn t
turn (by_caller call) t = caller_turn call t

-- A schedule, one turn behind the other.
unfoldable pub schedule : List Turn → Threads → Threads
unfolding turn
schedule [] t = t
schedule (m ∷ ms) t = schedule ms (turn m t)

-- io_start with direction == IO_WRITE and threaded: the thread has been created.
abbrev pub started : Io → Threads
started io = record { io = io; stopped = false; writer = waiting; caller = idle }
