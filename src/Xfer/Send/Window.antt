-- ===== src/Xfer/Send/Window.antt =====
-- One window of tftp_xfer_send: its packets are stamped and sent.
use network_tftp_tftp_hpa.Prelude.{
  ℕ, ◌+◌, ◌≡◌, ◌≢◌, ◌⊎◌, refl, ap, inl, inr, some, List, [], ◌∷◌, ◌++◌, append_assoc, length,
  length-append, get_elem?, set, arith,
}
use network_tftp_tftp_hpa.Packet.{Packet}
use network_tftp_tftp_hpa.Packet.Opcode
use network_tftp_tftp_hpa.Xfer.{finished, Config, Answer, ok, fail, Wire, Next, wait, stop}
use network_tftp_tftp_hpa.Xfer.Block.{next_block}
use network_tftp_tftp_hpa.Xfer.Send.{
  ReadOps, Sender, stamp_window, send_window, send_packet, and_then,
}
use network_tftp_tftp_hpa.Xfer.Send.Contract.{
  ReadLaws, payloads_of, data_packet, numbered, block_after, wires, reversed,
}

pub get_elem?-append : (u v : List Packet) (p : Packet) → get_elem? (u ++ p ∷ v) (length u) ≡ some p
get_elem?-append [] v p = refl
get_elem?-append (q ∷ u) v p = get_elem?-append u v p

set-append : (u v : List Packet) (p q : Packet) → set (u ++ p ∷ v) (length u) q ≡ u ++ q ∷ v
set-append [] v p q = refl
set-append (r ∷ u) v p q = ap (λ l. r ∷ l) (set-append u v p q)

pub Answer-cases :
    {S A : Type 0} (a : Answer S A)
    → ((x : A) × (s : S) × (a ≡ ok x s)) ⊎ ((e : ℕ) × (s : S) × (a ≡ fail e s))
Answer-cases (ok x s) = inl (x, s, refl)
Answer-cases (fail e s) = inr (e, s, refl)

module _ {S : Type 0} (ops : ReadOps S) (laws : ReadLaws ops) (cfg : Config)
    (send_errno : List Wire → ℕ) where
  open laws use {Feeds, Lends}

  -- The engine goes on with a state of this kind, or returns something else than TFTP_XFER_OK.
  abbrev pub Goes : (Sender S → Type 0) → Next (Sender S) → Type 0
  Goes P (wait st) = P st
  Goes P (stop r st) = r.status ≢ finished

  pub Goes-map :
      {P Q : Sender S → Type 0} (n : Next (Sender S))
      → ((st : Sender S) → P st → Q st)
      → Goes P n
      → Goes Q n
  Goes-map (wait st) f g = f st g
  Goes-map (stop r st) f g = g

  pub Goes-and_then :
      (P Q : Sender S → Type 0) (n : Next (Sender S)) (k : Sender S → Next (Sender S))
      → ((st : Sender S) → P st → Goes Q (k st))
      → Goes P n
      → Goes Q (and_then ops cfg send_errno n k)
  Goes-and_then P Q (wait st) k f g = f st g
  Goes-and_then P Q (stop r st) k f g = g

  -- `todo` is stamped, behind `done`.
  abbrev pub Stamped : (done todo : List Packet) → List (List ℕ) → (st st' : Sender S) → Type 0
  Stamped done todo rest st st' =
      Lends (done ++ numbered cfg.rollover st.next (payloads_of todo)) rest st'.io
      × (st' ≡ record st { io = st'.io; next = block_after cfg.rollover st.next (length todo) })

  Stamped-cons :
      (done : List Packet) (p : Packet) (todo : List Packet) (rest : List (List ℕ)) (st : Sender S)
      (io : S) (t : Sender S)
      → Stamped
          (done ++ data_packet st.next p.payload ∷ [])
          todo
          rest
          (record st { io = io; next = next_block st.next cfg.rollover })
          t
      → Stamped done (p ∷ todo) rest st t
  unfolding numbered block_after
  Stamped-cons done p todo rest st io t g = (rw append_assoc at g.0, g.1)

  pub stamp_window-Stamped :
      (done todo : List Packet) (rest : List (List ℕ)) (st : Sender S)
      → Lends (done ++ todo) rest st.io
      → Goes
          (Stamped done todo rest st)
          (stamp_window ops cfg send_errno (length todo) (length done) st)
  unfolding stamp_window numbered block_after
  stamp_window-Stamped done [] rest st h = (h, refl)
  stamp_window-Stamped done (p ∷ todo) rest st h =
      elim (Answer-cases (ops.read_packet (length done) st.io)) [
        | inr (e, s, failed) ↦ rw (failed, stamp_window) (ground arith)
        | inl (q, s, found) ↦
            let kept = laws.packet (done ++ p ∷ todo) rest st.io s (length done) q h found in
            let same : q ≡ p = ground (arith, get_elem?-append done todo p, kept.1) in
            let dp = data_packet st.next p.payload in
            let io : S = ops.stamp (length done) Opcode.block_data st.next s in
            let stamped : Lends ((done ++ dp ∷ []) ++ todo) rest io = rw append_assoc (
              rw (set-append done todo p dp) at (
                laws.header (done ++ p ∷ todo) rest s (length done) Opcode.block_data st.next p
                  kept.0 (get_elem?-append done todo p))) in
            let st' : Sender S = record st { io = io; next = next_block st.next cfg.rollover } in
            let n : length (done ++ dp ∷ []) ≡ length done + 1 = length-append done (dp ∷ []) in
            let later = rw n at (stamp_window-Stamped (done ++ dp ∷ []) todo rest st' stamped) in
            rw (found, stamp_window)
              (Goes-map (stamp_window ops cfg send_errno (length todo) (length done + 1) st')
                (Stamped-cons done p todo rest st io) later)
      ]

  -- What is in the log stays in it, and `w` is the window.
  abbrev pub Sent : (w todo : List Packet) → List (List ℕ) → (st st' : Sender S) → Type 0
  Sent w todo rest st st' =
      Lends w rest st'.io × (st' ≡ record st { io = st'.io; sent = reversed (wires todo) st.sent })

  send_packet-Goes :
      (p : Packet) (size : ℕ) (st : Sender S)
      → Goes
          (λ t. t ≡ record st { sent = Wire.block p size ∷ st.sent })
          (send_packet ops cfg send_errno p size st)
  unfolding send_packet
  send_packet-Goes p size st = ground arith

  pub send_window-Sent :
      (done todo : List Packet) (rest : List (List ℕ)) (st : Sender S)
      → Lends (done ++ todo) rest st.io
      → Goes
          (Sent (done ++ todo) todo rest st)
          (send_window ops cfg send_errno (length todo) (length done) st)
  unfolding send_window
  send_window-Sent done [] rest st h = (h, refl)
  send_window-Sent done (p ∷ todo) rest st h =
      elim (Answer-cases (ops.read_packet (length done) st.io)) [
        | inr (e, s, failed) ↦ rw (failed, send_window) (ground arith)
        | inl (q, s, found) ↦
            let kept = laws.packet (done ++ p ∷ todo) rest st.io s (length done) q h found in
            let same : q ≡ p = ground (arith, get_elem?-append done todo p, kept.1) in
            let size = laws.size (done ++ p ∷ todo) rest s (length done) q kept.0 kept.1 in
            let n : length (done ++ p ∷ []) ≡ length done + 1 = length-append done (p ∷ []) in
            let st' : Sender S = record st {
              io = s;
              sent = Wire.block p (length p.payload + 4) ∷ st.sent;
            } in
            let later =
              rw n at (send_window-Sent (done ++ p ∷ []) todo rest st' (rw append_assoc kept.0)) in
            rw (found, size, same, send_window)
              (Goes-and_then _ _
                (send_packet ops cfg send_errno p (length p.payload + 4) (record st { io = s }))
                (send_window ops cfg send_errno (length todo) (length done + 1))
                (λ t e. rw e (
                  Goes-map (send_window ops cfg send_errno (length todo) (length done + 1) st')
                    (λ u g. (rw append_assoc at g.0, g.1)) later))
                (send_packet-Goes p (length p.payload + 4) (record st { io = s })))
      ]
