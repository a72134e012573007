-- ===== src/Client/Exchange.antt =====
-- tftp/tftp.c: the request of the client and the first answer to it.
use network_tftp_tftp_hpa.Prelude.{
  ℕ, ◌+◌, ◌*◌, ◌%◌, ◌^◌, Bool, false, not, ◌&&◌, ◌||◌, Option, none, some, List, [], ◌∷◌, ltb, leb,
  ◌==◌, if◌then◌else◌, length, drop,
}
use network_tftp_tftp_hpa.Packet.{Packet}
use network_tftp_tftp_hpa.Packet.Opcode
use network_tftp_tftp_hpa.FilePath.{str_eq}
use network_tftp_tftp_hpa.Errors.{protocol, make_errpacket, ntohs_at}
use network_tftp_tftp_hpa.Text.Codes.{codes}
use network_tftp_tftp_hpa.Client.{Optreq, optreq_init, parse_oack}

-- union sock_addr; `host` are the bytes of the address.
pub record Sockaddr : Type 0 where
  pub family : ℕ
  pub host : List ℕ
  pub port : ℕ

-- address_match, with AF_INET and AF_INET6 of Linux.
unfoldable pub address_match : (a b : Sockaddr) → Bool
unfolding str_eq
address_match a b =
    if not (a.family == b.family)
    then false
    else if a.family == 2 || a.family == 10
    then str_eq a.host b.host
    else false

-- The fields of `peer` that change in an exchange.
pub record Peer : Type 0 where
  pub addr : Sockaddr
  pub connected : Bool

-- What tftp_recv_time() brings.
pub data Arrival : Type 0 where
  recv_failed : Arrival
  expired : Arrival
  arrived : (from : Sockaddr) → (bytes : List ℕ) → Arrival

-- A round of the loop of client_recv_time on a packet: none if the loop goes on, and else the peer
-- after it. `connects` tells whether connect() succeeds.
unfoldable pub client_recv_time :
    (unsafe_peer : Bool)
    → (connects : Sockaddr → Bool) → Peer
    → Sockaddr
    → (bytes : List ℕ) → Option Peer
unfolding address_match
client_recv_time unsafe_peer connects peer from bytes =
    let known = address_match peer.addr from || (not peer.connected && unsafe_peer) in
    if ltb (length bytes) 2 || not known
    then none
    else if peer.connected
    then some peer
    else some (record { addr = from; connected = connects from })

-- timer(): the new timeout, or none for the jump to toplevel with EX_TEMPFAIL.
unfoldable pub timer : (maxtimeout timeout : ℕ) → Option ℕ
timer maxtimeout timeout =
    let next = timeout * 2 % 2 ^ 64 in if ltb maxtimeout next then none else some next

-- What the loop makes of a reply.
pub data Verdict (A : Type 0) : Type 0 where
  ignored server_error bad_options : Verdict A
  settles : A → Verdict A

-- The reply to a WRQ: the options that the server acknowledged.
unfoldable pub wrq_reply : Optreq → (bytes : List ℕ) → Verdict Optreq
unfolding parse_oack
wrq_reply req bytes =
    let opcode = ntohs_at 0 bytes in
    let options : Verdict Optreq = elim (parse_oack req opcode (drop 2 bytes)) [
      | none ↦ bad_options
      | some ack ↦ settles ack
    ] in
    if opcode == Opcode.error
    then server_error
    else if opcode == Opcode.oack
    then options
    else if leb 4 (length bytes) && (opcode == Opcode.ack && ntohs_at 2 bytes == 0)
    then settles optreq_init
    else ignored

-- The reply to a RRQ: an OACK, or DATA 1 with which the server ignores the options.
pub data Opening : Type 0 where
  by_oack : Optreq → Opening
  by_data : Packet → Opening

unfoldable pub rrq_reply : Optreq → (bytes : List ℕ) → Verdict Opening
unfolding parse_oack
rrq_reply req bytes =
    let opcode = ntohs_at 0 bytes in
    let options : Verdict Opening = elim (parse_oack req opcode (drop 2 bytes)) [
      | none ↦ bad_options
      | some ack ↦ settles (by_oack ack)
    ] in
    let first : Packet = record {
      opcode = opcode;
      block = ntohs_at 2 bytes;
      payload = drop 4 bytes;
    } in
    if opcode == Opcode.error
    then server_error
    else if opcode == Opcode.oack
    then options
    else if opcode == Opcode.block_data && (leb 4 (length bytes) && ntohs_at 2 bytes == 1)
    then settles (by_data first)
    else ignored

-- Where the exchange is; `sent` counts the calls of sendto() with the request. It waits, it is over,
-- the function goes to abort with an exit code and the packet of nak(), or timer() has left it.
pub data Exchange (A : Type 0) : Type 0 where
  asking : (timeout sent : ℕ) → Peer → Exchange A
  settled : A → Peer → (sent : ℕ) → Exchange A
  aborted : (code : ℕ) → (packet : Option (List ℕ)) → Exchange A
  given_up : (sent : ℕ) → Exchange A

-- The exit codes of sysexits.h.
abbrev pub ex_oserr : ℕ
ex_oserr = 71

abbrev pub ex_protocol : ℕ
ex_protocol = 76

-- `send_ok` tells of each call of sendto() whether it takes the whole request; `reply` is
-- wrq_reply or rrq_reply.
module _ {A : Type 0} (strerror : ℕ → List ℕ) (send_ok : ℕ → Bool) (unsafe_peer : Bool)
    (connects : Sockaddr → Bool) (maxtimeout rexmtval : ℕ) (reply : List ℕ → Verdict A) where
  abbrev pub send_request : (timeout sent : ℕ) → Peer → Exchange A
  send_request timeout sent peer =
      if send_ok sent then asking timeout (sent + 1) peer else aborted ex_oserr none

  -- Opcode ERROR, an OACK that is refused with EOPTNEG, or an answer.
  abbrev pub on_verdict : (timeout sent : ℕ) → Peer → Verdict A → Exchange A
  on_verdict timeout sent peer ignored = asking timeout sent peer
  on_verdict timeout sent peer server_error = aborted ex_protocol none
  on_verdict timeout sent peer bad_options =
      aborted ex_protocol
        (some (make_errpacket strerror (protocol 8) (some (codes "Invalid option response"))))
  on_verdict timeout sent peer (settles a) = settled a peer sent

  unfoldable pub on_arrival : Arrival → (timeout sent : ℕ) → Peer → Exchange A
  unfolding timer client_recv_time make_errpacket
  on_arrival recv_failed timeout sent peer = aborted ex_oserr none
  on_arrival expired timeout sent peer = elim (timer maxtimeout timeout) [
    | none ↦ given_up sent
    | some next ↦ send_request next sent peer
  ]
  on_arrival (arrived from bytes) timeout sent peer =
      elim (client_recv_time unsafe_peer connects peer from bytes) [
        | none ↦ asking timeout sent peer
        | some peer' ↦ on_verdict timeout sent peer' (reply bytes)
      ]

  unfoldable pub exchange : List Arrival → Exchange A → Exchange A
  unfolding on_arrival
  exchange [] x = x
  exchange (h ∷ hs) (asking timeout sent peer) = exchange hs (on_arrival h timeout sent peer)
  exchange (h ∷ hs) (settled a peer sent) = settled a peer sent
  exchange (h ∷ hs) (aborted code packet) = aborted code packet
  exchange (h ∷ hs) (given_up sent) = given_up sent

  -- timeout = xopt.rexmtval, and the first request.
  abbrev pub exchange_start : Peer → Exchange A
  exchange_start peer = send_request rexmtval 0 peer
