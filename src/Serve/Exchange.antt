-- ===== src/Serve/Exchange.antt =====
-- tftp_sendfile() of tftpd/tftpd.c up to the transfer: the OACK and the ACK of it.
use network_tftp_tftp_hpa.Prelude.{
  ℕ, ◌+◌, Bool, false, ◌&&◌, none, some, List, [], ◌∷◌, ltb, leb, ◌==◌, if◌then◌else◌,
}
use network_tftp_tftp_hpa.Packet.Opcode
use network_tftp_tftp_hpa.Daemon.{Daemon}
use network_tftp_tftp_hpa.Serve.{Heard, recv_failed, expired, arrived, timer}

-- Where the exchange is; `sent` counts the calls of send() with the OACK.
pub data Exchange : Type 0 where
  waiting : (timeout sent : ℕ) → Exchange
  accepted : (sent : ℕ) → Exchange
  abandoned : (sent : ℕ) → Exchange
  exited : (sent : ℕ) → Exchange

-- `send_ok` tells of each call of send() whether it takes the whole packet.
module _ (send_ok : ℕ → Bool) (d : Daemon) where
  -- From send_oack on to the wait.
  abbrev pub send_oack : (timeout sent : ℕ) → Exchange
  send_oack timeout sent = if send_ok sent then waiting timeout (sent + 1) else abandoned (sent + 1)

  -- A packet of n bytes.
  abbrev pub on_arrived : (timeout sent n opcode block : ℕ) → Exchange
  on_arrived timeout sent n opcode block =
      if ltb n 2
      then waiting timeout sent
      else if opcode == Opcode.error
      then abandoned sent
      else if leb 4 n && opcode == Opcode.ack
      then (if block == 0 then accepted sent else send_oack timeout sent)
      else waiting timeout sent

  unfoldable pub on_heard : Heard → (timeout sent : ℕ) → Exchange
  unfolding timer
  on_heard recv_failed timeout sent = abandoned sent
  on_heard expired timeout sent = elim (timer d.maxtimeout false timeout) [
    | none ↦ exited sent
    | some next ↦ send_oack next sent
  ]
  on_heard (arrived n opcode block) timeout sent = on_arrived timeout sent n opcode block

  unfoldable pub exchange : List Heard → Exchange → Exchange
  unfolding on_heard
  exchange [] x = x
  exchange (h ∷ hs) (waiting timeout sent) = exchange hs (on_heard h timeout sent)
  exchange (h ∷ hs) (accepted sent) = accepted sent
  exchange (h ∷ hs) (abandoned sent) = abandoned sent
  exchange (h ∷ hs) (exited sent) = exited sent

  -- timeout = rexmtval, and the first OACK.
  abbrev pub exchange_start : Exchange
  exchange_start = send_oack d.rexmtval 0
