-- ===== src/Lib.antt =====
-- tftp-hpa: a model of the TFTP transfer engine, of the file adapter under it, of the option
-- negotiation between client and daemon, of the name mapping and the file access of the daemon, and
-- of the requests that it serves, with the theorems that make them correct.
--
-- The parts and how they interact. The daemon (tftpd/tftpd.c) parses a request, negotiates options
-- and answers with an OACK; then it, or the client (tftp/tftp.c), runs the transfer engine
-- (common/tftp-xfer.c), which sends and receives packets through one table of callbacks and moves
-- data bytes through another one, that of the file adapter (common/tftp-io.c).
--
-- Files:
-- Prelude (Prelude/Tests, Prelude/Lists): shared names, Boolean tests, lists over the native ℕ.
-- Packet (Packet/Opcode): common/tftp.h. A packet is its two header fields in host order and its
--   data bytes; htons() and ntohs() have no model.
-- Text, Text/Fold, Text/Decimal, Text/Digits, Text/Codes: the ASCII helpers of common/tftpsubs.h and
--   common/tftpsubs.c, and decimal numbers as "%PRIuMAX" prints them and strtoumax() reads their
--   digits. A C string is the list of its bytes before the NUL. Twenty digits are enough for a
--   uintmax_t of 64 bits.
-- Xfer, Xfer/Block: common/tftp-xfer.h and the helpers of common/tftp-xfer.c. The results of the
--   file callbacks are values: a result and the adapter's state, or errno.
-- Xfer/Receive: tftp_xfer_recv(), from one recv() to the next. recv() is a list of events, and send()
--   a log with a function that tells which call fails, with which errno. A timer that transfers
--   control to the retry buffer is an event. Xfer/Receive/Contract is the interface of the
--   adapter's writing half, and Xfer/Receive/Sound is about the packets that are stored over any
--   adapter that meets it.
--   Xfer/Receive/Timed is the function under the timer of the daemon, which may end the process.
-- Xfer/Send: tftp_xfer_send() in the same form. A datagram is one of its events as well.
--   Xfer/Send/Contract is the interface of the adapter's reading half, Xfer/Send/Window is about one
--   window, and Xfer/Send/Sound about what is sent over any adapter that meets the interface.
-- Stdio: what the adapter uses of a FILE: bytes to read and written, room on the medium, errors. An
--   fwrite() that fails is taken to write nothing, though it may have written a part.
-- Io, Io/Reader, Io/Writer and their children: common/tftp-io.c with threaded == false: the ring of
--   slots, its callbacks, and the codecs for octet and netascii (Io/Codec). The loops that fill
--   and drain the ring run on fuel, the size of the window and the number of filled slots; each
--   round uses one up.
-- Io/Writer/Threads and its children: the writing side of common/tftp-io.c with threaded == true. A
--   turn of one of the two threads goes from one use of the lock to the next, or is one access to the
--   file or to a slot without the lock; a schedule is a list of turns in any order, and a thread that
--   waits for the condition takes turns that change nothing. Threads/Sleep adds pthread_cond_wait()
--   and pthread_cond_broadcast(): a thread that waits has no turn until it is woken; it wakes for no
--   other reason. Held and Marks are about the states of
--   the slots, Bytes about what is in them, Turns and Calls about what the two threads do to them,
--   Invariant, Returned and Kept about what holds between turns, Exact about the file, Drains
--   about the turns of writer_thread alone, Rests and Wakes about the threads that sleep, Shadow about
--   the turns they take, and Leaves about the end of the wait in tftp_io_write_drain().
-- Upload, Download: the engine and the writing or the reading adapter together.
-- Transfer: both ends, with a network between them that may lose, repeat and reorder datagrams.
-- FilePath, FilePath/Clean, FilePath/RoundTrip, FilePath/Prefix: tftpd/path.c outside Windows. A
--   path is a list of components; while it is built the newest is first, as at the end of the array.
-- Daemon, Daemon/Blksize, Daemon/Negotiate, Daemon/Request and their children: the options of
--   tftpd/tftpd.c as a record with a field for each index of protocol_options[], the negotiation,
--   the strings of a request and the OACK, and tftp_max_blksize() of common/tftpsubs.c with the
--   answer of getsockint() as an argument. Rounding down to a power of 2 runs on fuel, the number
--   itself: each round makes it smaller.
-- Daemon/Table: protocol_options[] and the variables of tftpd/tftpd.c as the program starts.
-- Daemon/Access, Daemon/Access/Confined: validate_access() of tftpd/tftpd.c without WITH_JAIL and with
--   HAVE_FTRUNCATE; open(), fstat(), lock_file() and ftruncate() are parameters.
-- Daemon/Normalize (Daemon/Normalize/Clean, Daemon/Normalize/Rooted): normalize_path() of
--   tftpd/tftpd.c. What q has written is a list with the newest byte first.
-- Remap, Remap/Parse, Remap/Expand, Remap/Rewrite and their children: tftpd/remap.c, with multibyte
--   support. regcomp() and regexec(), the conversion functions of the locale, the macros and
--   f_validate() are parameters. The rule that ruleptr points to is the list of rules from it on.
--   The loop over the rules runs on fuel, (map_steps + 1) * (n + 1) rounds for n rules; that over a
--   pattern on one round for each of its bytes, which is enough where every string begins with a
--   character; that of rewriting on the deadman itself; and parserulefile on a round for each byte.
-- Arguments: common/parsenum.c, numbers with unit suffixes and block sizes on the command line.
-- Client, Client/Request: parse_oack() and makerequest() of tftp/tftp.c. The tsize of an OACK is kept as
--   the number that was read; its conversion to a signed off_t has no model. The loop of parse_oack()
--   runs on fuel, the number of bytes of the packet: each round uses up two strings.
-- Client/Exchange, Client/Receiving, Client/Sending: the exchange of the request, tftp_recvfile() and
--   tftp_sendfile() of tftp/tftp.c behind open_socket(). The packets that arrive during the exchange
--   are a list, and the results of sendto() and connect() functions.
-- Session: a read request of the client at the daemon, up to the transfer, at both ends.
-- Commands, Commands/Words, Commands/Names, Commands/Found, Commands/Modes: makeargv(), getcmd() with its table, and
--   the commands of tftp/main.c that set options. What getmoreargs() reads is an argument.
-- Commands/Files, Commands/Files/Get: connect, put, mput, get and mget of tftp/main.c. set_sock_addr(),
--   open() and the transfers are parameters, and the calls of transfers are a list. tail() runs on
--   fuel, the length of the name: each round takes a slash off. Commands/Files/Tail and
--   Commands/Files/Sent are about tail() and mput.
-- Negotiation and its children: a request of the client at the daemon (Negotiation/Asked), the OACK
--   (Negotiation/Answers) back at the client (Negotiation/Answered, Negotiation/Agreed), and the
--   daemon that rejects all options (Negotiation/Rejected).
-- Errors, Errors/RoundTrip, Errors/Controls: common/error.c. strerror() and the memory behind a
--   packet are parameters.
-- Pollset, Pollset/Find, Pollset/Move, Pollset/Add, Pollset/Next: common/pollset.c as it is built
--   with poll(). The binary search runs on fuel, a round more than there are descriptors.
-- Serve: timer() and nak() of tftpd/tftpd.c. Serve/Exchange and Serve/Reading: tftp_sendfile(), the
--   exchange of the OACK and the transfer. Serve/Writing: tftp_recvfile(), discard_upload() and
--   daemon_xfer_dally(), with exit(0) of timer() in the transfer as an outcome. The number of slots that io_ring_slots() gives is a parameter, and the
--   adapter is the unthreaded one. Serve/Tries, Serve/Sent and Serve/Outcome: what a silent peer, a
--   reading client and the file of an upload come to.
-- Tests: runs of the model, and each theorem at a concrete input.
--
-- Widths: block numbers wrap at 2 ^ 16, line numbers at 2 ^ 32 and byte counts of a transfer at 2 ^ 64,
-- where the source computes them; the length of a string in memory is a number without a bound.
--
-- Not modelled: the reading thread of the file adapter (the transfers of the engine run over the
-- adapter without threads), the daemon's jail, the client's commands on timeouts (which compute in
-- double) and verbosity, what the programs print, and the wrappers of operating system calls
-- (sockets, poll, signals, logging, privileges, clocks).
pub mod Prelude
pub mod Packet
pub mod Text
pub mod FilePath
pub mod Xfer
pub mod Stdio
pub mod Io
pub mod Upload
pub mod Download
pub mod Transfer
pub mod Daemon
pub mod Arguments
pub mod Remap
pub mod Client
pub mod Negotiation
pub mod Errors
pub mod Pollset
pub mod Serve
pub mod Session
pub mod Commands
pub mod Tests
