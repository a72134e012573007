-- ===== src/Serve/Sent.antt =====
-- What a client is sent for a read request.
use network_tftp_tftp_hpa.Prelude.{
  ℕ, ◌-◌, ◌^◌, ◌≤◌, ◌<◌, ◌≡◌, ◌⊎◌, inl, inr, refl, ◌∙◌, Bool, Option, none, some, List, [], ◌∷◌,
  length, arith, Option-cases,
}
use network_tftp_tftp_hpa.Packet.Opcode
use network_tftp_tftp_hpa.Stdio.{Stream}
use network_tftp_tftp_hpa.Xfer.{Event, Wire, Result, finished, stop, u64}
use network_tftp_tftp_hpa.Xfer.Send.{Sender, tftp_xfer_send}
use network_tftp_tftp_hpa.Xfer.Send.Contract.{Within}
use network_tftp_tftp_hpa.Io.{Io, tftp_io_reader_start}
use network_tftp_tftp_hpa.Io.Reader.{reader_ops}
use network_tftp_tftp_hpa.Download.{wire_text, file_packets, download_sound}
use network_tftp_tftp_hpa.Daemon.{Daemon}
use network_tftp_tftp_hpa.Serve.{Heard, recv_failed, expired, arrived, xfer_config}
use network_tftp_tftp_hpa.Serve.Exchange.{
  Exchange, waiting, accepted, abandoned, exited, on_heard, exchange, exchange_start,
}
use network_tftp_tftp_hpa.Serve.Reading.{
  ended, nak_of_read, read_transfer, after_exchange, tftp_sendfile,
}
use network_tftp_tftp_hpa.Serve.Outcome.{Next-cases}

-- An ACK of block 0, whole.
abbrev pub IsAckOfOack : Heard → Type 0
IsAckOfOack recv_failed = ⊥
IsAckOfOack expired = ⊥
IsAckOfOack (arrived n opcode block) = (4 ≤ n) × (opcode ≡ Opcode.ack) × (block ≡ 0)

abbrev pub Acknowledged : List Heard → Type 0
Acknowledged [] = ⊥
Acknowledged (h ∷ hs) = IsAckOfOack h ⊎ Acknowledged hs

module _ (send_ok : ℕ → Bool) (d : Daemon) (k : ℕ) where
  on_heard-accepted :
      (h : Heard) (timeout sent : ℕ)
      → on_heard send_ok d h timeout sent ≡ accepted k
      → IsAckOfOack h
  unfolding on_heard
  on_heard-accepted recv_failed timeout sent e = cc
  on_heard-accepted expired timeout sent e = ground arith
  on_heard-accepted (arrived n opcode block) timeout sent e = ground arith

  exchange-accepted :
      (hs : List Heard) (x : Exchange)
      → exchange send_ok d hs x ≡ accepted k
      → (x ≡ accepted k) ⊎ Acknowledged hs
  unfolding exchange
  exchange-accepted [] x h = inl h
  exchange-accepted (e ∷ hs) (waiting timeout sent) h =
      elim (exchange-accepted hs (on_heard send_ok d e timeout sent) h) [
        | inl now ↦ inr (inl (on_heard-accepted e timeout sent now))
        | inr later ↦ inr (inr later)
      ]
  exchange-accepted (e ∷ hs) (accepted sent) h = inl h
  exchange-accepted (e ∷ hs) (abandoned sent) h = inl h
  exchange-accepted (e ∷ hs) (exited sent) h = inl h

  exchange-start_accepted :
      (hs : List Heard)
      → exchange send_ok d hs (exchange_start send_ok d) ≡ accepted k
      → Acknowledged hs
  exchange-start_accepted hs h = elim (exchange-accepted hs (exchange_start send_ok d) h) [
    | inl e ↦ absurd (ground arith)
    | inr acked ↦ acked
  ]

nak_of_read-finished :
    (strerror : ℕ → List ℕ) (r : Result) → r.status ≡ finished → nak_of_read strerror r ≡ none
nak_of_read-finished strerror r e = rw e refl

module _ (strerror : ℕ → List ℕ) (send_ok : ℕ → Bool) (send_errno : List Wire → ℕ) (errno slots : ℕ)
    (file : Stream) (convert : Bool) (d : Daemon) where
  after_exchange-ended :
      (x : Exchange) (es : List Event) {r : Result} {st : Sender Io} {packet : Option (List ℕ)}
      → after_exchange strerror send_ok send_errno errno slots file convert d x es
        ≡ ended r st packet
      → ((k : ℕ) × (x ≡ accepted k))
        × (read_transfer strerror send_ok send_errno errno slots file convert d es
            ≡ ended r st packet)
  unfolding after_exchange
  after_exchange-ended (waiting timeout sent) es e = cc
  after_exchange-ended (accepted sent) es e = ((sent, refl), e)
  after_exchange-ended (abandoned sent) es e = cc
  after_exchange-ended (exited sent) es e = cc

  -- Without an OACK the transfer begins at once, and with one after the exchange only.
  pub tftp_sendfile-ended :
      (oack : Option (List ℕ)) (hs : List Heard) (es : List Event) {r : Result} {st : Sender Io}
      {packet : Option (List ℕ)}
      → tftp_sendfile strerror send_ok send_errno errno slots file convert d oack hs es
        ≡ ended r st packet
      → ((oack ≡ none) ⊎ Acknowledged hs)
        × (read_transfer strerror send_ok send_errno errno slots file convert d es
            ≡ ended r st packet)
  unfolding tftp_sendfile
  tftp_sendfile-ended none hs es e = (inl refl, e)
  tftp_sendfile-ended (some oack) hs es e =
      let ((k, acc), run) =
        after_exchange-ended (exchange send_ok d hs (exchange_start send_ok d)) es e in
      (inr (exchange-start_accepted send_ok d k hs acc), run)

  pub read_transfer-ended :
      (es : List Event) {r : Result} {st : Sender Io} {packet : Option (List ℕ)}
      → read_transfer strerror send_ok send_errno errno slots file convert d es ≡ ended r st packet
      → (io : Io) × (tftp_io_reader_start file convert d.window slots d.segsize ≡ some io)
        × (tftp_xfer_send reader_ops (xfer_config d (2 ^ 64 - 1)) send_errno errno io es
            ≡ stop r st)
        × (packet ≡ nak_of_read strerror r)
  unfolding read_transfer
  read_transfer-ended es e =
      elim (Option-cases (tftp_io_reader_start file convert d.window slots d.segsize)) [
        | inl bad ↦ absurd (ground arith)
        | inr (io, start) ↦
            elim (Next-cases
              (tftp_xfer_send reader_ops (xfer_config d (2 ^ 64 - 1)) send_errno errno io es)) [
                | inl (st, run) ↦ absurd (ground arith)
                | inr (r, st, run) ↦ (io, start, ground arith, ground arith)
              ]
      ]

  -- A read request of a file of which less than 2^64 bytes go over the wire, whatever comes over
  -- the network: if tftp_sendfile returns with the status TFTP_XFER_OK, then no OACK was due or
  -- the client acknowledged it with an ACK of block 0 of at least four bytes, the result counts
  -- the bytes of the file's text, every DATA packet of the text was sent in the transfer, and
  -- nothing else, and no error.
  pub tftp_sendfile-exact :
      (oack : Option (List ℕ)) (hs : List Heard) (es : List Event) {r : Result} {st : Sender Io}
      {packet : Option (List ℕ)}
      → length (wire_text convert file.input) < u64
      → tftp_sendfile strerror send_ok send_errno errno slots file convert d oack hs es
        ≡ ended r st packet
      → r.status ≡ finished
      → let text = wire_text convert file.input in
        let packets = file_packets d.rollover_val d.segsize text in
        ((oack ≡ none) ⊎ Acknowledged hs)
        × (r.bytes ≡ length text)
        × Within packets st.sent
        × Within st.sent packets
        × (packet ≡ none)
  tftp_sendfile-exact oack hs es {r} {st} {packet} fits e done =
      let (begun, run) = tftp_sendfile-ended oack hs es e in
      let (io, start, sends, told) = read_transfer-ended es run in
      let sent =
        download_sound file convert d.window slots (xfer_config d (2 ^ 64 - 1)) send_errno errno es
          io fits start sends done in
      (begun, sent.0, sent.1, sent.2, told ∙ nak_of_read-finished strerror r done)
