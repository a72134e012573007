-- ===== src/Tests/Requests.antt =====
-- A read request and a write request at the daemon.
use network_tftp_tftp_hpa.Prelude.{
  ℕ, ◌*◌, ◌^◌, ◌≡◌, refl, Bool, true, false, Option, none, some, List, [], ◌∷◌, ◌++◌, replicate,
  arith, ◌⊎◌,
}
use network_tftp_tftp_hpa.Packet.{Packet}
use network_tftp_tftp_hpa.Packet.Opcode
use network_tftp_tftp_hpa.Stdio.{Stream, putc}
use network_tftp_tftp_hpa.Xfer.{Event, timeout, datagram, Wire}
use network_tftp_tftp_hpa.Xfer.Send.{tftp_xfer_send}
use network_tftp_tftp_hpa.Xfer.Send.Contract.{Within}
use network_tftp_tftp_hpa.Xfer.Receive.Timed.{timed_xfer_recv}
use network_tftp_tftp_hpa.Io.{
  io_next, io_error, io_start, tftp_io_reader_start, tftp_io_writer_start,
}
use network_tftp_tftp_hpa.Io.Codec.Encode.{read_bytes}
use network_tftp_tftp_hpa.Io.Codec.Encode.Spec.{encode}
use network_tftp_tftp_hpa.Io.Codec.Decode.{write_bytes}
use network_tftp_tftp_hpa.Io.Reader.{
  tftp_io_read_window, tftp_io_read_packet, tftp_io_read_length, tftp_io_read_release, store_header,
}
use network_tftp_tftp_hpa.Io.Writer.{
  tftp_io_writer_reserve, tftp_io_write_publish, tftp_io_write_drain, tftp_io_write_finish,
}
use network_tftp_tftp_hpa.Download.{file_packets}
use network_tftp_tftp_hpa.Daemon.{Daemon}
use network_tftp_tftp_hpa.Daemon.Table.{startup}
use network_tftp_tftp_hpa.Serve.{Heard, expired, arrived, timer}
use network_tftp_tftp_hpa.Serve.Exchange.{waiting, exited, exchange, exchange_start}
use network_tftp_tftp_hpa.Serve.Tries.{exchange-silent}
use network_tftp_tftp_hpa.Serve.Reading.{tftp_sendfile}
use network_tftp_tftp_hpa.Serve.Sent.{Acknowledged, tftp_sendfile-exact}
use network_tftp_tftp_hpa.Serve.Writing
use network_tftp_tftp_hpa.Serve.Writing.{Os, Served, tftp_recvfile}
use network_tftp_tftp_hpa.Serve.Outcome.{AllOrNothing, tftp_recvfile-AllOrNothing}

abbrev all_sent : ℕ → Bool
all_sent n = true

abbrev no_text : ℕ → List ℕ
no_text e = []

abbrev no_errors : List Wire → ℕ
no_errors log = 0

exchange-silent_example :
    (exchange all_sent startup (replicate 3 expired) (exchange_start all_sent startup)
      ≡ waiting (startup.rexmtval * 2 ^ 3) 4)
    × (exchange all_sent startup (replicate 6 expired ++ []) (exchange_start all_sent startup)
        ≡ exited 6)
exchange-silent_example =
    exchange-silent all_sent startup (λ n. refl) 3 [] (omega arith) (omega arith) refl (omega arith)

abbrev negotiated : Daemon
negotiated = record startup { segsize = 2; window = 1 }

abbrev source : Stream
source = record { input = 65 ∷ 10 ∷ []; read_error = false; output = []; room = 0; flush_errno = 0 }

abbrev target : Stream
target = record { input = []; read_error = false; output = []; room = 100; flush_errno = 0 }

abbrev data_packet : ℕ → List ℕ → Packet
data_packet n d = record { opcode = Opcode.block_data; block = n; payload = d }

abbrev ack_packet : ℕ → Packet
ack_packet n = record { opcode = Opcode.ack; block = n; payload = [] }

-- The first OACK is lost.
abbrev answers : List Heard
answers = expired ∷ arrived 4 Opcode.ack 0 ∷ []

abbrev acks_trace : List Event
acks_trace = timeout ∷ datagram (ack_packet 1) ∷ datagram (ack_packet 2) ∷ []

abbrev sent_log : List Wire
sent_log =
    Wire.block (data_packet 2 (10 ∷ [])) 5
    ∷ Wire.block (data_packet 1 (65 ∷ 13 ∷ [])) 6
    ∷ Wire.block (data_packet 1 (65 ∷ 13 ∷ [])) 6
    ∷ []

tftp_sendfile-exact_example :
    let packets = file_packets 0 2 (65 ∷ 13 ∷ 10 ∷ []) in
    ((◌≡◌ {A = Option (List ℕ)} (some (0 ∷ [])) none) ⊎ Acknowledged answers)
    × (◌≡◌ {A = ℕ} 3 3)
    × Within packets sent_log
    × Within sent_log packets
    × (◌≡◌ {A = Option (List ℕ)} none none)
unfolding tftp_sendfile timer tftp_xfer_send tftp_io_reader_start io_start tftp_io_read_window
    tftp_io_read_packet tftp_io_read_length tftp_io_read_release store_header read_bytes io_next
    io_error encode
tftp_sendfile-exact_example =
    tftp_sendfile-exact no_text all_sent no_errors 0 2 source true negotiated (some (0 ∷ []))
      answers acks_trace (omega arith) refl refl

abbrev data_trace : List Event
data_trace =
    datagram (data_packet 1 (65 ∷ 13 ∷ [])) ∷ timeout ∷ datagram (data_packet 2 (10 ∷ [])) ∷ []

abbrev quiet : Os
quiet = record { fflush_errno = 0; ftruncate_errno = 0; unlink_errno = 0; unflushed = [] }

-- What tftp_recvfile has done when it returns; the last DATA packet comes once more.
abbrev stored : Served
stored = record {
  content = some (65 ∷ 10 ∷ []);
  refusal = none;
  sent = Wire.ack 2 ∷ Wire.ack 1 ∷ Wire.ack 1 ∷ Wire.reply (0 ∷ 4 ∷ 0 ∷ 0 ∷ []) ∷ [];
  repeated = some (0 ∷ 4 ∷ 0 ∷ 2 ∷ []);
}

-- The peer falls silent behind the first packet: six timeouts end the process, and the file keeps
-- what was written.
partial_upload :
    tftp_recvfile no_text quiet true no_errors 2 target true negotiated none 100
      (datagram (data_packet 1 (65 ∷ 66 ∷ [])) ∷ replicate 6 timeout)
      expired
    ≡ Writing.exited (65 ∷ 66 ∷ [])
unfolding tftp_recvfile timer timed_xfer_recv tftp_io_writer_start io_start tftp_io_writer_reserve
    tftp_io_write_publish tftp_io_write_drain tftp_io_write_finish write_bytes io_next io_error putc
partial_upload = refl

tftp_recvfile-AllOrNothing_example : AllOrNothing true true negotiated 100 data_trace stored
unfolding tftp_recvfile timer timed_xfer_recv tftp_io_writer_start io_start tftp_io_writer_reserve
    tftp_io_write_publish tftp_io_write_drain tftp_io_write_finish write_bytes io_next io_error putc
tftp_recvfile-AllOrNothing_example =
    tftp_recvfile-AllOrNothing no_text quiet true no_errors 2 target true negotiated none 100
      data_trace (arrived 5 Opcode.block_data 2) refl refl refl (omega arith) refl refl
