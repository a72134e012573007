-- ===== src/Session.antt =====
-- A file on its way from the daemon to the client, from the request of the client on.
use network_tftp_tftp_hpa.Prelude.{
  ℕ, ◌+◌, ◌-◌, ◌^◌, ◌≤◌, ◌<◌, ◌≡◌, inl, inr, refl, sym, ap, subst, ◌∙◌, Bool, false, Option, some,
  List, [], ◌++◌, length, All, arith, Option-cases,
}
use network_tftp_tftp_hpa.Packet.{min_segsize}
use network_tftp_tftp_hpa.Packet.Opcode
use network_tftp_tftp_hpa.Stdio.{Stream}
use network_tftp_tftp_hpa.Xfer.{Event, Wire, Result, finished, stop, u64}
use network_tftp_tftp_hpa.Xfer.Send.{Sender}
use network_tftp_tftp_hpa.Xfer.Receive.{Receiver, tftp_xfer_recv}
use network_tftp_tftp_hpa.Io.{Io, tftp_io_writer_start}
use network_tftp_tftp_hpa.Io.Writer.{writer_ops}
use network_tftp_tftp_hpa.Download.{wire_text, blocks_of}
use network_tftp_tftp_hpa.Transfer.{Brought, transfer_exact}
use network_tftp_tftp_hpa.Daemon.{Daemon, Limits, TsizeMode}
use network_tftp_tftp_hpa.Daemon.Request.{negotiate_options}
use network_tftp_tftp_hpa.Errors.{be16}
use network_tftp_tftp_hpa.Serve.{Heard, xfer_config}
use network_tftp_tftp_hpa.Serve.Reading.{ended, tftp_sendfile}
use network_tftp_tftp_hpa.Serve.Sent.{tftp_sendfile-ended, read_transfer-ended}
use network_tftp_tftp_hpa.Serve.Outcome.{Next-cases}
use network_tftp_tftp_hpa.Client.{Optreq, parse_oack}
use network_tftp_tftp_hpa.Client.Exchange.{Opening, by_oack, rrq_reply, settles}
use network_tftp_tftp_hpa.Client.Receiving.{
  received, receive_file, client_config, options_of_opening, reply_of_opening, packet_of_opening,
}
use network_tftp_tftp_hpa.Negotiation.Asked.{Fits}
use network_tftp_tftp_hpa.Negotiation.Agreed.{reads, Agree, negotiate_options-parse_oack}

-- What stands behind a transfer that is over.
receive_file-received :
    (strerror : ℕ → List ℕ) (send_errno : List Wire → ℕ) (file : Stream) (convert : Bool)
    (o : Opening) (es : List Event) {n : ℕ} {packet : Option (List ℕ)} {r : Result}
    {st : Receiver Io}
    → receive_file strerror send_errno file convert o es ≡ received n packet r st
    → let ack = options_of_opening o in
      (io : Io) × (tftp_io_writer_start file convert ack.window ack.blksize ≡ some io)
      × (tftp_xfer_recv writer_ops
            (client_config ack false)
            send_errno
            (ack.blksize + 5)
            (reply_of_opening o)
            (packet_of_opening o)
            io
            es
          ≡ stop r st)
unfolding receive_file
receive_file-received strerror send_errno file convert o es e =
    let ack = options_of_opening o in
    elim (Option-cases (tftp_io_writer_start file convert ack.window ack.blksize)) [
      | inl bad ↦ absurd (ground arith)
      | inr (io, start) ↦
          elim (Next-cases (
            tftp_xfer_recv writer_ops (client_config ack false) send_errno (ack.blksize + 5)
              (reply_of_opening o) (packet_of_opening o) io es)) [
                | inl (st, run) ↦ absurd (ground arith)
                | inr (r, st, run) ↦ (io, start, ground arith)
              ]
    ]

-- An OACK is read by parse_oack.
rrq_reply-oack :
    (req : Optreq) (oack : List ℕ) (ack : Optreq)
    → parse_oack req Opcode.oack oack ≡ some ack
    → rrq_reply req (be16 Opcode.oack ++ oack) ≡ settles (by_oack ack)
unfolding rrq_reply
rrq_reply-oack req oack ack e = rw (e, rrq_reply) refl

Agree-oack :
    (req : Optreq) (d : Daemon) (oack : List ℕ)
    → Agree req (d, some oack)
    → (ack : Optreq) × (parse_oack req Opcode.oack oack ≡ some ack) × (ack.blksize ≡ d.segsize)
Agree-oack req d oack (inl (no_oack, size, window)) = absurd (cc)
Agree-oack req d oack (inr (bytes, ack, e, read, size, window)) =
    let same : oack ≡ bytes = cc in
    (ack, subst (λ b. parse_oack req Opcode.oack b ≡ some ack) (sym same) read, size)

Agree-same :
    (req : Optreq) (d : Daemon) (oack : List ℕ) (ack : Optreq)
    → Agree req (d, some oack)
    → rrq_reply req (be16 Opcode.oack ++ oack) ≡ settles (by_oack ack)
    → ack.blksize ≡ d.segsize
Agree-same req d oack ack agreed settled =
    let (ack', read, same) = Agree-oack req d oack agreed in
    let first = rrq_reply-oack req oack ack' read in
    let equal : ack' ≡ ack = cc in ap (λ a. a.blksize) (sym equal) ∙ same

-- A read request of the client, in octet or netascii mode, that the daemon answers with an OACK,
-- which the client takes: if the daemon's tftp_sendfile and the client's transfer both end with
-- TFTP_XFER_OK, over a network that brings the client no DATA packet but those that the daemon
-- sent, whatever else happens to the packets of either side, then the client's file, empty at
-- first, has the same bytes as the daemon's, and both count the same number of bytes. The daemon
-- does not reject all options and its limit is at least MIN_SEGSIZE, the numbers of the request and
-- the size fit into 64 bits, and the file takes less than 2^16 blocks and less than 2^64 bytes.
pub get_exact :
    (max_blksize : ℕ) (limits : Limits) (req : Optreq) (mode : TsizeMode) (size : ℕ) (d : Daemon)
    (oack : List ℕ) (ack : Optreq) (strerror strerror' : ℕ → List ℕ) (send_ok : ℕ → Bool)
    (send_errno send_errno' : List Wire → ℕ) (errno slots : ℕ) (source target : Stream)
    (convert : Bool) (hs : List Heard) (es es' : List Event) {r r' : Result} {st : Sender Io}
    {st' : Receiver Io} {packet packet' : Option (List ℕ)} {n : ℕ}
    → min_segsize ≤ max_blksize
    → limits.reject_all_options ≡ false
    → Fits req
    → size < 2 ^ 64
    → negotiate_options max_blksize limits (reads req mode size) ≡ (d, some oack)
    → rrq_reply req (be16 Opcode.oack ++ oack) ≡ settles (by_oack ack)
    → length (wire_text convert source.input) < u64
    → length (
        blocks_of
          (length (wire_text convert source.input))
          d.segsize
          (wire_text convert source.input))
      < 2 ^ 16
    → target.output ≡ []
    → tftp_sendfile strerror send_ok send_errno errno slots source convert d (some oack) hs es
      ≡ ended r st packet
    → receive_file strerror' send_errno' target convert (by_oack ack) es'
      ≡ received n packet' r' st'
    → r.status ≡ finished
    → r'.status ≡ finished
    → All (Brought st.sent) es'
    → (st'.io.file.output ≡ source.input) × (r'.bytes ≡ r.bytes)
get_exact max_blksize limits req mode size d oack ack strerror strerror' send_ok send_errno
      send_errno' errno slots source target convert hs es es' lo accepts fits sized negotiated taken
      text_fits few blank run run' done done' network =
    let agreed =
      subst (Agree req) negotiated
        (negotiate_options-parse_oack max_blksize limits req mode size lo accepts fits sized) in
    let (begun, sends) =
      tftp_sendfile-ended strerror send_ok send_errno errno slots source convert d (some oack) hs es
        run in
    let (io, start, send_run, told) =
      read_transfer-ended strerror send_ok send_errno errno slots source convert d es sends in
    let (io', start', recv_run) =
      receive_file-received strerror' send_errno' target convert (by_oack ack) es' run' in
    transfer_exact source target convert d.window slots ack.window (xfer_config d (2 ^ 64 - 1))
      (client_config ack false) send_errno send_errno' errno (ack.blksize + 5)
      (reply_of_opening (by_oack ack)) es es' io io' (Agree-same req d oack ack agreed taken)
      (omega arith) text_fits few blank start start' send_run recv_run done done' network
