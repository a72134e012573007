-- ===== src/Xfer/Send.antt =====
-- tftp_xfer_send of common/tftp-xfer.c as a state machine: `open_window` runs the function from the
-- head of its outer loop to the first recv() of a window, `on_event` from one recv() to the next.
pub mod Contract
pub mod Window
pub mod Sound
use network_tftp_tftp_hpa.Prelude.{
  ℕ, zero, suc, ◌+◌, ◌-◌, Bool, false, ◌||◌, ◌&&◌, List, [], ◌∷◌, ltb, ◌==◌, if◌then◌else◌, some,
}
use network_tftp_tftp_hpa.Packet.{Packet}
use network_tftp_tftp_hpa.Packet.Opcode
use network_tftp_tftp_hpa.Xfer.{
  Status, finished, send_error, recv_error, read_error, peer_error, Config, Answer, ok, fail, Event,
  failed, timeout, runt, datagram, Wire, block, set_result, io_errno, u64, add64, sub64, Next, wait,
  stop,
}
use network_tftp_tftp_hpa.Xfer.Block.{next_block}

-- The half of struct tftp_xfer_io_ops that tftp_xfer_send calls. `stamp n op b` stores an opcode
-- and a block number through the pointer that `read_packet n` returned.
pub record ReadOps (S : Type 0) : Type 0 where
  pub read_window : S → Answer S (ℕ × Bool)
  pub read_packet : ℕ → S → Answer S Packet
  pub read_length : ℕ → S → Answer S ℕ
  pub read_release : S → S
  pub stamp : ℕ → ℕ → ℕ → S → S

-- The locals of tftp_xfer_send, the adapter's state, errno as the callbacks have left it, and the
-- packets handed to send() so far (newest first).
pub record Sender (S : Type 0) : Type 0 where
  pub io : S
  pub next : ℕ
  pub bytes : ℕ
  pub packet_count : ℕ
  pub final : Bool
  pub errno : ℕ
  pub sent : List Wire

module _ {S : Type 0} (ops : ReadOps S) (cfg : Config) (send_errno : List Wire → ℕ) where
  open ops use {read_window, read_packet, read_length, read_release, stamp}

  abbrev finish : Status → ℕ → Sender S → Next (Sender S)
  finish status e st = stop (set_result status e st.bytes) st

  abbrev read_failed : ℕ → S → Sender S → Next (Sender S)
  read_failed e io st = finish read_error (io_errno e) (record st { io = io; errno = io_errno e })

  -- Go on unless the function has returned.
  abbrev pub and_then : Next (Sender S) → (Sender S → Next (Sender S)) → Next (Sender S)
  and_then (wait st) k = k st
  and_then (stop r st) k = stop r st

  -- The opcode and the block number of `left` packets of the window, from number `n` on.
  pub stamp_window : (left n : ℕ) → Sender S → Next (Sender S)
  stamp_window zero n st = wait st
  stamp_window (suc left) n st = elim (read_packet n st.io) [
    | fail e io ↦ read_failed e io st
    | ok _ io ↦ stamp_window left (n + 1) (record st {
      io = stamp n Opcode.block_data st.next io;
      next = next_block st.next cfg.rollover;
    })
  ]

  -- xfer->ops->send for packet `n`, whose length is `size`.
  pub send_packet : Packet → ℕ → Sender S → Next (Sender S)
  send_packet p size st =
      let st' = record st { sent = block p size ∷ st.sent } in
      if ltb size 4 || ltb (cfg.blocksize + 4) size
      then read_failed st.errno st.io st
      else if send_errno st'.sent == 0
      then wait st'
      else finish send_error (send_errno st'.sent) st'

  -- resend_window: `left` packets from number `n` on.
  pub send_window : (left n : ℕ) → Sender S → Next (Sender S)
  send_window zero n st = wait st
  send_window (suc left) n st = elim (read_packet n st.io) [
    | fail e io ↦ read_failed e io st
    | ok p io ↦ elim (read_length n io) [
      | fail e io' ↦ read_failed e io' st
      | ok size io' ↦
          and_then (send_packet p size (record st { io = io' })) (send_window left (n + 1))
    ]
  ]

  -- The head of the outer loop: a new window, stamped and sent.
  pub open_window : Sender S → Next (Sender S)
  open_window st = elim (read_window st.io) [
    | fail e io ↦ read_failed e io st
    | ok (count, final) io ↦
        let st' = record st { io = io; packet_count = count; final = final } in
        if count == 0 || ltb cfg.windowsize count
        then read_failed st.errno io st'
        else and_then (stamp_window count 0 st') (send_window count 0)
  ]

  -- read_length, where -1 is what the failing call returns.
  abbrev length_or_minus_one : Answer S ℕ → ℕ
  length_or_minus_one (ok size _) = size
  length_or_minus_one (fail _ _) = u64 - 1

  -- bytes += read_length(n) - 4 over the window
  add_lengths : (left n : ℕ) → S → ℕ → ℕ
  add_lengths zero n io bytes = bytes
  add_lengths (suc left) n io bytes =
      add_lengths left (n + 1) io (add64 bytes (sub64 (length_or_minus_one (read_length n io)) 4))

  -- The last packet of the window is acknowledged.
  window_done : Sender S → Next (Sender S)
  window_done st =
      let st' = record st {
        bytes = add_lengths st.packet_count 0 st.io st.bytes;
        io = read_release st.io;
      } in
      if st.final then finish finished 0 st' else open_window st'

  -- An ACK inside the window: look at `left` packets from number `n` on, all but the last of the
  -- window, and resend what stands behind the packet that the ACK names.
  resend_suffix : (left n acked : ℕ) → Sender S → Next (Sender S)
  resend_suffix zero n acked st = wait st
  resend_suffix (suc left) n acked st = elim (read_packet n st.io) [
    | fail e io ↦ read_failed e io st
    | ok p io ↦
        let st' = record st { io = io } in
        let further = resend_suffix left (n + 1) acked st' in
        if acked == p.block then send_window (suc left) (n + 1) st' else further
  ]

  -- A datagram of at least four bytes: `last` is the last packet of the window.
  answer : Packet → Packet → Sender S → Next (Sender S)
  answer p last st =
      if p.opcode == Opcode.ack && p.block == last.block
      then window_done st
      else if p.opcode == Opcode.oack && cfg.resend_oack
      then send_window st.packet_count 0 st
      else if p.opcode == Opcode.ack
      then resend_suffix (st.packet_count - 1) 0 p.block st
      else wait st

  pub on_packet : Packet → Sender S → Next (Sender S)
  on_packet p st =
      if p.opcode == Opcode.error
      then stop (record (set_result peer_error 0 st.bytes) { packet = some p }) st
      else elim (read_packet (st.packet_count - 1) st.io) [
        | fail e io ↦ read_failed e io st
        | ok last io ↦ answer p last (record st { io = io })
      ]

  pub on_event : Event → Sender S → Next (Sender S)
  on_event (failed e) st = finish recv_error e st
  on_event timeout st = send_window st.packet_count 0 st
  on_event runt st = wait st
  on_event (datagram p) st = on_packet p st

  pub run : List Event → Next (Sender S) → Next (Sender S)
  run [] n = n
  run (e ∷ es) (stop r st) = stop r st
  run (e ∷ es) (wait st) = run es (on_event e st)

  -- tftp_xfer_send; `errno` is errno on entry.
  unfoldable pub tftp_xfer_send : (errno : ℕ) → S → List Event → Next (Sender S)
  unfolding run on_event on_packet answer resend_suffix window_done add_lengths open_window
      send_window send_packet stamp_window next_block
  tftp_xfer_send errno io es = run es (
      open_window (record {
        io = io;
        next = 1;
        bytes = 0;
        packet_count = 0;
        final = false;
        errno = errno;
        sent = [];
      }))
