-- ===== src/Xfer/Receive/Sound.antt =====
-- What tftp_xfer_recv has done with the packets when it waits and when it returns.
use network_tftp_tftp_hpa.Prelude.{
  ℕ, ◌+◌, ◌≤◌, ◌<◌, ◌≡◌, ◌≢◌, refl, sym, Bool, true, false, not, Option, none, some, List, [], ◌∷◌,
  ◌++◌, append-nil, append_assoc, length-append, arith, ◌==◌, ◌&&◌, length, get_elem?, ==_iff,
  Bool-cases, inl, inr,
}
use network_tftp_tftp_hpa.Packet.{Packet}
use network_tftp_tftp_hpa.Packet.Opcode
use network_tftp_tftp_hpa.Xfer.{
  finished, Config, Event, failed, timeout, runt, datagram, Wire, Next, wait, stop, u64, Result,
}
use network_tftp_tftp_hpa.Xfer.Block.{next_block}
use network_tftp_tftp_hpa.Xfer.Receive.Contract.{
  WriteLaws, in_sequence, payloads, last_block, after_first, transferred, Ended,
}
use network_tftp_tftp_hpa.Xfer.Receive.{
  WriteOps, Receiver, enter, reserve_next, acknowledge, close_file, close_window, published, accept,
  on_packet, on_event, run, prologue, take_initial, tftp_xfer_recv,
}

module _ {S : Type 0} (ops : WriteOps S) (laws : WriteLaws ops) (cfg : Config)
    (send_errno : List Wire → ℕ) (fits : cfg.max_bytes < u64) where
  open laws use {Accepts, Drained, stored, render}

  -- The invariant of the wait: what was published is `got`.
  record Holds (got : List ℕ) (st : Receiver S) : Type 0 where
    accepts : Accepts got st.io
    bytes_got : st.bytes ≡ length got
    limit : st.bytes ≤ cfg.max_bytes

  -- A return with the status OK: the file holds `got`, and its last packet's number is `last`.
  record Complete (got : List ℕ) (last : ℕ) (r : Result) (st : Receiver S) : Type 0 where
    file : stored st.io ≡ render got
    count : r.bytes ≡ length got
    limit : r.bytes ≤ cfg.max_bytes
    last_acked : r.last_block ≡ last
    ack_sent : get_elem? st.sent 0 ≡ some (Wire.ack last)

  -- After the packet `p` is taken, on top of `got`.
  Taken : List ℕ → ℕ → Packet → Next (Receiver S) → Type 0
  Taken got next p (wait st) =
      (length p.payload ≡ cfg.blocksize)
      × Holds (got ++ p.payload) st
      × (st.next ≡ next_block next cfg.rollover)
  Taken got next p (stop r st) =
      r.status ≡ finished
      → (length p.payload ≢ cfg.blocksize) × Complete (got ++ p.payload) p.block r st

  reserve_next-Taken :
      (got : List ℕ) (next : ℕ) (p : Packet) (st : Receiver S)
      → length p.payload ≡ cfg.blocksize
      → Holds (got ++ p.payload) st
      → st.pending ≡ none
      → st.next ≡ next_block next cfg.rollover
      → Taken got next p (reserve_next ops cfg send_errno st)
  unfolding Taken reserve_next enter
  reserve_next-Taken got next p st full h n e = grind (arith, laws.reserve)

  -- What the state owes when a window is closed.
  record Ready (got : List ℕ) (next : ℕ) (p : Packet) (final : Bool) (st : Receiver S)
      : Type 0 where
    full : (length p.payload == cfg.blocksize) ≡ not final
    bytes_got : st.bytes ≡ length (got ++ p.payload)
    limit : st.bytes ≤ cfg.max_bytes
    replied : st.pending ≡ none
    awaited : st.next ≡ next_block next cfg.rollover
    acked : st.last_acked ≡ p.block

  acknowledge-Taken :
      (got : List ℕ) (next : ℕ) (p : Packet) (final : Bool) (st : Receiver S)
      → Ready got next p final st
      → (final ≡ true → stored st.io ≡ render (got ++ p.payload))
      → (final ≡ false → Accepts (got ++ p.payload) st.io)
      → Taken got next p (acknowledge ops cfg send_errno final st)
  unfolding Taken acknowledge
  acknowledge-Taken got next p true st h f a = ground arith
  acknowledge-Taken got next p false st h f a =
      ground (
        arith,
        reserve_next-Taken got next p (record st { sent = Wire.ack st.last_acked ∷ st.sent }),
      )

  close_file-Taken :
      (got : List ℕ) (next : ℕ) (p : Packet) (final : Bool) (st : Receiver S)
      → Ready got next p final st
      → Accepts (got ++ p.payload) st.io
      → Drained (got ++ p.payload) st.io
      → Taken got next p (close_file ops cfg send_errno final st)
  unfolding Taken close_file
  close_file-Taken got next p false st h a d =
      acknowledge-Taken got next p false st h (λ x. cc) (λ _. a)
  close_file-Taken got next p true st h a d =
      grind (arith, laws.finish, acknowledge-Taken got next p true)

  close_window-Taken :
      (got : List ℕ) (next : ℕ) (p : Packet) (final : Bool) (st : Receiver S)
      → Ready got next p final st
      → Accepts (got ++ p.payload) st.io
      → Taken got next p (close_window ops cfg send_errno final st)
  unfolding Taken close_window
  close_window-Taken got next p final st h a =
      grind (arith, laws.drain, close_file-Taken got next p final)

  published-Taken :
      (got : List ℕ) (next : ℕ) (p : Packet) (st : Receiver S)
      → Accepts (got ++ p.payload) st.io
      → st.bytes ≡ length got
      → st.bytes + length p.payload ≤ cfg.max_bytes
      → st.pending ≡ none
      → st.next ≡ next
      → Taken got next p (published ops cfg send_errno p st)
  unfolding Taken published
  published-Taken got next p st a b l n e = grind (
    arith,
    reserve_next-Taken got next p,
    close_window-Taken got next p,
    length-append got p.payload,
  )

  accept-Taken :
      (got : List ℕ) (p : Packet) (st : Receiver S)
      → Holds got st
      → Taken got st.next p (accept ops cfg send_errno p st)
  unfolding Taken accept
  accept-Taken got p st h = grind (arith, laws.publish, published-Taken got st.next p)

  -- After an event that brings no awaited packet.
  Kept : List ℕ → ℕ → Next (Receiver S) → Type 0
  Kept got next (wait st) = Holds got st × (st.next ≡ next)
  Kept got next (stop r st) = r.status ≢ finished

  enter-Kept :
      (got : List ℕ) (restarted : Bool) (st : Receiver S)
      → Holds got st
      → Kept got st.next (enter ops cfg send_errno restarted st)
  unfolding Kept enter
  enter-Kept got restarted st h = ground arith

  on_packet-Kept :
      (got : List ℕ) (p : Packet) (st : Receiver S)
      → (p.opcode == Opcode.block_data && p.block == st.next) ≡ false
      → Holds got st
      → Kept got st.next (on_packet ops cfg send_errno p st)
  unfolding Kept on_packet
  on_packet-Kept got p st other h = ground arith

  on_packet-Taken :
      (got : List ℕ) (p : Packet) (st : Receiver S)
      → (p.opcode == Opcode.block_data && p.block == st.next) ≡ true
      → Holds got st
      → Taken got st.next p (on_packet ops cfg send_errno p st)
  unfolding Taken on_packet
  on_packet-Taken got p st awaited h = ground (arith, accept-Taken got p st h)

  -- The end of a transfer that had `got`, up to packet number `prev`, before it took `ps`.
  Outcome : List ℕ → ℕ → List Packet → Next (Receiver S) → Type 0
  Outcome got prev ps (wait st) = Holds (got ++ payloads ps) st
  Outcome got prev ps (stop r st) =
      r.status ≡ finished
      → Complete (got ++ payloads ps) (last_block prev ps) r st × Ended cfg.blocksize ps

  abbrev expected : ℕ → List Event → List Packet
  expected next es = in_sequence cfg.blocksize cfg.rollover next es

  run-stop :
      (es : List Event) (r : Result) (st : Receiver S)
      → run ops cfg send_errno es (stop r st) ≡ stop r st
  unfolding run
  run-stop [] r st = refl
  run-stop (e ∷ es) r st = refl

  Outcome-nil :
      (got : List ℕ) (prev : ℕ) (st : Receiver S) → Holds got st → Outcome got prev [] (wait st)
  unfolding Outcome payloads
  Outcome-nil got prev st h = rw append-nil h

  Outcome-cons :
      (got : List ℕ) (prev : ℕ) (p : Packet) (ps : List Packet) (n : Next (Receiver S))
      → length p.payload ≡ cfg.blocksize
      → Outcome (got ++ p.payload) p.block ps n
      → Outcome got prev (p ∷ ps) n
  unfolding Outcome payloads last_block
  Outcome-cons got prev p ps (wait st) full o = rw (← append_assoc) o
  Outcome-cons got prev p ps (stop r st) full o =
      rw (← append_assoc) (λ e. ((o e).0, inr (full, (o e).1)))

  Outcome-of_stop :
      (got : List ℕ) (prev : ℕ) (ps : List Packet) (r : Result) (st : Receiver S)
      → r.status ≢ finished
      → Outcome got prev ps (stop r st)
  unfolding Outcome
  Outcome-of_stop got prev ps r st ne e = absurd (ne e)

  -- From the wait behind a taken packet the rest of the trace is read on.
  Taken-Outcome :
      (got : List ℕ) (prev next : ℕ) (p : Packet) (es : List Event) (n : Next (Receiver S))
      → Taken got next p n
      → ((st : Receiver S)
          → Holds (got ++ p.payload) st
          → Outcome
              (got ++ p.payload)
              p.block
              (expected st.next es)
              (run ops cfg send_errno es (wait st)))
      → Outcome got prev (after_first cfg next p es) (run ops cfg send_errno es n)
  unfolding Taken
  Taken-Outcome got prev next p es (wait st) t later =
      rw ((==_iff _ _).1 t.0, ← t.2) (Outcome-cons got prev p _ _ t.0 (later st t.1))
  Taken-Outcome got prev next p es (stop r st) t later = rw run-stop (
      unfold Outcome payloads last_block in
      λ e. rw (not_full (t e).0, append-nil) ((t e).1, inl ((t e).0, refl)))
    where
      not_full : length p.payload ≢ cfg.blocksize → (length p.payload == cfg.blocksize) ≡ false
      not_full ne = ground arith

  Kept-Outcome :
      (got : List ℕ) (prev next : ℕ) (es : List Event) (n : Next (Receiver S))
      → Kept got next n
      → ((st : Receiver S)
          → Holds got st
          → Outcome got prev (expected st.next es) (run ops cfg send_errno es (wait st)))
      → Outcome got prev (expected next es) (run ops cfg send_errno es n)
  unfolding Kept
  Kept-Outcome got prev next es (wait st) k later = rw (← k.1) (later st k.0)
  Kept-Outcome got prev next es (stop r st) k later =
      rw run-stop (Outcome-of_stop got prev _ r st k)

  run-Outcome :
      (es : List Event) (got : List ℕ) (prev : ℕ) (st : Receiver S)
      → Holds got st
      → Outcome got prev (expected st.next es) (run ops cfg send_errno es (wait st))
  unfolding run in_sequence on_event
  run-Outcome [] got prev st h = Outcome-nil got prev st h
  run-Outcome (failed e ∷ es) got prev st h = rw run-stop (Outcome-of_stop got prev _ _ _ (λ x. cc))
  run-Outcome (timeout ∷ es) got prev st h =
      Kept-Outcome got prev st.next es _ (enter-Kept got true st h) (run-Outcome es got prev)
  run-Outcome (runt ∷ es) got prev st h = run-Outcome es got prev st h
  run-Outcome (datagram p ∷ es) got prev st h =
      elim (Bool-cases (p.opcode == Opcode.block_data && p.block == st.next)) [
        | inl awaited ↦ rw awaited (
            Taken-Outcome got prev st.next p es _ (on_packet-Taken got p st awaited h)
              (run-Outcome es (got ++ p.payload) p.block))
        | inr other ↦ rw other (
            Kept-Outcome got prev st.next es _ (on_packet-Kept got p st other h)
              (run-Outcome es got prev))
      ]

  prologue-Kept :
      (input_size : ℕ) (first_reply : Option (List ℕ)) (io : S)
      → Accepts [] io
      → Kept [] 1 (prologue ops cfg send_errno input_size first_reply io)
  unfolding Kept prologue enter
  prologue-Kept input_size first_reply io a = grind (arith, laws.reserve)

  take_initial-Outcome :
      (first_packet : Option Packet) (es : List Event) (n : Next (Receiver S))
      → Kept [] 1 n
      → Outcome [] 0
          (transferred cfg first_packet es)
          (run ops cfg send_errno es (take_initial ops cfg send_errno first_packet n))
  unfolding take_initial Kept
  take_initial-Outcome none es n k = Kept-Outcome [] 0 1 es n k (run-Outcome es [] 0)
  take_initial-Outcome (some p) es (wait st) k =
      Taken-Outcome [] 0 1 p es _ (rw (sym k.1) (accept-Taken [] p st k.0))
        (run-Outcome es p.payload p.block)
  take_initial-Outcome (some p) es (stop r st) k = rw run-stop (Outcome-of_stop [] 0 _ r st k)

  -- If tftp_xfer_recv returns TFTP_XFER_OK, then, whatever else came over the network, the file
  -- holds the conversion of the data bytes of exactly the awaited packets of the trace, in order;
  -- the result counts those bytes, and they stay within max_bytes; the result's last block and the
  -- last ACK sent are those of the last of these packets, the only one that is not full.
  pub tftp_xfer_recv_sound :
      (input_size : ℕ) (first_reply : Option (List ℕ)) (first_packet : Option Packet) (io : S)
      (es : List Event) {r : Result} {st : Receiver S}
      → Accepts [] io
      → tftp_xfer_recv ops cfg send_errno input_size first_reply first_packet io es ≡ stop r st
      → r.status ≡ finished
      → let ps = transferred cfg first_packet es in
        (stored st.io ≡ render (payloads ps))
        × (r.bytes ≡ length (payloads ps))
        × (r.bytes ≤ cfg.max_bytes)
        × (r.last_block ≡ last_block 0 ps)
        × (get_elem? st.sent 0 ≡ some (Wire.ack (last_block 0 ps)))
        × Ended cfg.blocksize ps
  unfolding tftp_xfer_recv Outcome
  tftp_xfer_recv_sound input_size first_reply first_packet io es a e =
      let n = prologue ops cfg send_errno input_size first_reply io in
      let k = prologue-Kept input_size first_reply io a in
      λ ok_status.
        let (c, ended) = (rw e at (take_initial-Outcome first_packet es n k)) ok_status in
        (c.file, c.count, c.limit, c.last_acked, c.ack_sent, ended)
