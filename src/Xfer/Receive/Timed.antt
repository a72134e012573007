-- ===== src/Xfer/Receive/Timed.antt =====
-- tftp_xfer_recv of common/tftp-xfer.c under a timer that doubles the timeout and may end the
-- process, as daemon_xfer_retry_enter() and timer() of tftpd/tftpd.c do.
use network_tftp_tftp_hpa.Prelude.{
  ℕ, ◌≡◌, ◌&&◌, Option, none, some, List, [], ◌∷◌, arith, ◌==◌, if◌then◌else◌, Option-cases, inl,
  inr,
}
use network_tftp_tftp_hpa.Packet.{Packet}
use network_tftp_tftp_hpa.Packet.Opcode
use network_tftp_tftp_hpa.Xfer.{
  Config, Event, failed, timeout, runt, datagram, Wire, Next, wait, stop,
}
use network_tftp_tftp_hpa.Xfer.Block.{next_block}
use network_tftp_tftp_hpa.Xfer.Receive.{
  WriteOps, Receiver, enter, reserve_next, acknowledge, close_file, close_window, published, accept,
  on_packet, on_event, run, take_initial, prologue, tftp_xfer_recv,
}

-- The engine goes on or has returned, or exit(0) has ended the process where the engine was.
pub data Life (S : Type 0) : Type 0 where
  alive : Next S → Life S
  exited : S → Life S

module _ {S : Type 0} (ops : WriteOps S) (cfg : Config) (send_errno : List Wire → ℕ)
    (timer : ℕ → Option ℕ) (rexmtval : ℕ) where
  -- timer(): the next timeout, or none for exit(0). Without a timer event the timeout is kept.
  pub elapsed : Event → ℕ → Option ℕ
  elapsed timeout t = timer t
  elapsed (failed e) t = some t
  elapsed runt t = some t
  elapsed (datagram p) t = some t

  -- retry_enter() without `restarted`, which follows the awaited DATA packet.
  pub rearmed : Event → Receiver S → ℕ → ℕ
  rearmed (datagram p) st t =
      if p.opcode == Opcode.block_data && p.block == st.next then rexmtval else t
  rearmed (failed e) st t = t
  rearmed timeout st t = t
  rearmed runt st t = t

  -- The receive loop; `t` is the variable timeout.
  unfoldable pub run_timed : ℕ → List Event → Next (Receiver S) → Life (Receiver S)
  unfolding on_event elapsed rearmed
  run_timed t [] n = alive n
  run_timed t (e ∷ es) (stop r st) = alive (stop r st)
  run_timed t (e ∷ es) (wait st) = elim (elapsed e t) [
    | none ↦ exited st
    | some t' ↦ run_timed (rearmed e st t') es (on_event ops cfg send_errno e st)
  ]

  -- tftp_xfer_recv, entered with timeout = rexmtval.
  unfoldable pub timed_xfer_recv :
      (input_size : ℕ) → Option (List ℕ) → Option Packet → S → List Event → Life (Receiver S)
  unfolding run_timed take_initial prologue on_packet enter accept published close_window close_file
      acknowledge reserve_next next_block
  timed_xfer_recv input_size first_reply first_packet io es = run_timed rexmtval es (
      take_initial ops cfg send_errno first_packet
        (prologue ops cfg send_errno input_size first_reply io))

  run_timed-run :
      (t : ℕ) (es : List Event) (n : Next (Receiver S)) {m : Next (Receiver S)}
      → run_timed t es n ≡ alive m
      → run ops cfg send_errno es n ≡ m
  unfolding run_timed run
  run_timed-run t [] n e = cc
  run_timed-run t (x ∷ es) (stop r st) e = cc
  run_timed-run t (x ∷ es) (wait st) e = elim (Option-cases (elapsed x t)) [
    | inl over ↦ absurd (ground (arith, over))
    | inr (t', going) ↦
        run_timed-run (rearmed x st t') es (on_event ops cfg send_errno x st)
          (rw (run_timed, going) at e)
  ]

  -- Where the timer has not ended the process, it has made no difference to the engine.
  pub timed_xfer_recv-alive :
      (input_size : ℕ) (first_reply : Option (List ℕ)) (first_packet : Option Packet) (io : S)
      (es : List Event) {m : Next (Receiver S)}
      → timed_xfer_recv input_size first_reply first_packet io es ≡ alive m
      → tftp_xfer_recv ops cfg send_errno input_size first_reply first_packet io es ≡ m
  unfolding timed_xfer_recv tftp_xfer_recv
  timed_xfer_recv-alive input_size first_reply first_packet io es e = run_timed-run rexmtval es _ e
