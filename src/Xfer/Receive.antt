-- ===== src/Xfer/Receive.antt =====
-- tftp_xfer_recv of common/tftp-xfer.c as a state machine: `prologue` runs the function up to
-- its first recv(), `on_event` runs it from one recv() to the next.
pub mod Contract
pub mod Sound
pub mod Timed
use network_tftp_tftp_hpa.Prelude.{
  ℕ, ◌+◌, Bool, true, false, not, ◌||◌, Option, none, some, List, [], ◌∷◌, ltb, leb, ◌==◌, length,
  if◌then◌else◌,
}
use network_tftp_tftp_hpa.Packet.{Packet}
use network_tftp_tftp_hpa.Packet.Opcode
use network_tftp_tftp_hpa.Xfer.{
  Status, finished, send_error, recv_error, write_error, bad_data, size_exceeded, peer_error,
  Config, Answer, ok, fail, Event, failed, timeout, runt, datagram, Wire, ack, reply, set_result,
  io_errno, add64, sub64, Next, wait, stop,
}
use network_tftp_tftp_hpa.Xfer.Block.{next_block}

-- The half of struct tftp_xfer_io_ops that tftp_xfer_recv calls. `write_publish` copies the
-- packet's data bytes into the reserved slot and publishes them.
pub record WriteOps (S : Type 0) : Type 0 where
  pub write_reserve : S → Answer S (Unit {0})
  pub write_publish : List ℕ → S → Answer S (Unit {0})
  pub write_drain : S → Answer S (Unit {0})
  pub write_finish : S → Answer S (Unit {0})

-- The locals of tftp_xfer_recv, the adapter's state, and the packets handed to send() so far
-- (newest first). `reply` is *initial_reply while it is pending.
pub record Receiver (S : Type 0) : Type 0 where
  pub io : S
  pub next : ℕ
  pub last_received : ℕ
  pub last_acked : ℕ
  pub bytes : ℕ
  pub packets_in_window : ℕ
  pub pending : Option (List ℕ)
  pub sent : List Wire

module _ {S : Type 0} (ops : WriteOps S) (cfg : Config) (send_errno : List Wire → ℕ) where
  open ops use {write_reserve, write_publish, write_drain, write_finish}

  abbrev finish : Status → ℕ → Receiver S → Next (Receiver S)
  finish status e st = stop (set_result status e st.bytes) st

  -- xfer->ops->send: what is sent is logged; `send_errno` of the log tells if the call fails.
  abbrev transmit : Wire → Receiver S → Receiver S
  transmit w st = record st { sent = w ∷ st.sent }

  abbrev send_or : Wire → Receiver S → (Receiver S → Next (Receiver S)) → Next (Receiver S)
  send_or w st k =
      let st' = transmit w st in
      if send_errno st'.sent == 0 then k st' else finish send_error (send_errno st'.sent) st'

  -- The head of the loop, from sigsetjmp() to the wait for a packet.
  pub enter : Bool → Receiver S → Next (Receiver S)
  enter restarted st = elim st.pending [
    | some r ↦ send_or (reply r) st (λ s. wait s)
    | none ↦ if restarted then send_or (ack st.last_acked) st (λ s. wait s) else wait st
  ]

  -- A slot for the next packet, and back to the head of the loop.
  reserve_next : Receiver S → Next (Receiver S)
  reserve_next st = elim (write_reserve st.io) [
    | ok _ io ↦ enter false (record st { io = io })
    | fail e io ↦ finish write_error (io_errno e) (record st { io = io })
  ]

  -- The ACK of a full window or of the last packet.
  acknowledge : Bool → Receiver S → Next (Receiver S)
  acknowledge final st = send_or (ack st.last_acked) st (λ s.
      if final
      then stop (record (set_result finished 0 s.bytes) { last_block = s.last_acked }) s
      else reserve_next s)

  -- write_finish(), called for the last packet only.
  close_file : Bool → Receiver S → Next (Receiver S)
  close_file false st = acknowledge false st
  close_file true st = elim (write_finish st.io) [
    | ok _ io ↦ acknowledge true (record st { io = io })
    | fail e io ↦ finish write_error (io_errno e) (record st { io = io })
  ]

  -- write_drain() at the end of a window.
  close_window : Bool → Receiver S → Next (Receiver S)
  close_window final st = elim (write_drain st.io) [
    | ok _ io ↦ close_file final (record st { io = io })
    | fail e io ↦ finish write_error (io_errno e) (record st { io = io })
  ]

  -- The packet is published: count it, and close the window if it is full or ended.
  published : Packet → Receiver S → Next (Receiver S)
  published p st =
      let final = not (length p.payload == cfg.blocksize) in
      let st' = record st {
        bytes = add64 st.bytes (length p.payload);
        packets_in_window = st.packets_in_window + 1;
        last_received = p.block;
        next = next_block st.next cfg.rollover;
      } in
      if final || st'.packets_in_window == cfg.windowsize
      then close_window final (record st' { last_acked = p.block; packets_in_window = 0 })
      else reserve_next st'

  -- From the arrival of the awaited DATA packet to the next wait.
  pub accept : Packet → Receiver S → Next (Receiver S)
  accept p st0 =
      let st = record st0 { pending = none } in
      if ltb cfg.blocksize (length p.payload)
      then finish bad_data 0 st
      else if ltb (sub64 cfg.max_bytes st.bytes) (length p.payload)
      then finish size_exceeded 0 st
      else elim (write_publish p.payload st.io) [
        | ok _ io ↦ published p (record st { io = io })
        | fail e io ↦ finish write_error (io_errno e) (record st { io = io })
      ]

  -- A datagram of at least four bytes in the receive loop.
  pub on_packet : Packet → Receiver S → Next (Receiver S)
  on_packet p st =
      if p.opcode == Opcode.error
      then stop (record (set_result peer_error 0 st.bytes) { packet = some p }) st
      else if not (p.opcode == Opcode.block_data)
      then wait st
      else if p.block == st.next
      then accept p st
      else wait (transmit (ack st.last_received) st)

  pub on_event : Event → Receiver S → Next (Receiver S)
  on_event (failed e) st = finish recv_error e st
  on_event timeout st = enter true st
  on_event runt st = wait st
  on_event (datagram p) st = on_packet p st

  -- The receive loop over what recv() brings.
  pub run : List Event → Next (Receiver S) → Next (Receiver S)
  run [] n = n
  run (e ∷ es) (stop r st) = stop r st
  run (e ∷ es) (wait st) = run es (on_event e st)

  abbrev initial : S → Option (List ℕ) → Receiver S
  initial io first_reply = record {
    io = io;
    next = 1;
    last_received = 0;
    last_acked = 0;
    bytes = 0;
    packets_in_window = 0;
    pending = first_reply;
    sent = [];
  }

  -- An initial reply counts from four bytes on.
  abbrev usable_reply : Option (List ℕ) → Option (List ℕ)
  usable_reply none = none
  usable_reply (some r) = if leb 4 (length r) then some r else none

  -- DATA 1 that the request exchange has already received is taken before any recv().
  pub take_initial : Option Packet → Next (Receiver S) → Next (Receiver S)
  take_initial none n = n
  take_initial (some p) (wait st) = accept p st
  take_initial (some p) (stop r st) = stop r st

  -- From the entry of the function to the first wait, or to the initial packet.
  pub prologue : (input_size : ℕ) → Option (List ℕ) → S → Next (Receiver S)
  prologue input_size first_reply io =
      let st = initial io (usable_reply first_reply) in
      if ltb input_size (cfg.blocksize + 4)
      then finish write_error 22 st
      else elim (write_reserve io) [
        | ok _ io' ↦ enter false (record st { io = io' })
        | fail e io' ↦ finish write_error (io_errno e) (record st { io = io' })
      ]

  -- tftp_xfer_recv
  unfoldable pub tftp_xfer_recv :
      (input_size : ℕ) → Option (List ℕ) → Option Packet → S → List Event → Next (Receiver S)
  unfolding run take_initial prologue on_event on_packet enter accept published close_window
      close_file acknowledge reserve_next next_block
  tftp_xfer_recv input_size first_reply first_packet io es =
      run es (take_initial first_packet (prologue input_size first_reply io))
