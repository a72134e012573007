-- ===== src/Xfer/Send/Sound.antt =====
-- What tftp_xfer_send has sent when it waits and when it returns.
use network_tftp_tftp_hpa.Prelude.{
  ℕ, ◌+◌, ◌-◌, ◌<◌, ◌≡◌, refl, sym, ap, ◌∙◌, subst, inl, inr, Bool, true, false, ◌||◌, ◌&&◌, List,
  [], ◌∷◌, ◌++◌, append_assoc, append-nil, length, length-append, get_elem?, arith, ◌==◌, ltb,
  if◌then◌else◌, Bool-cases, some,
}
use network_tftp_tftp_hpa.Packet.{Packet}
use network_tftp_tftp_hpa.Packet.Opcode
use network_tftp_tftp_hpa.Xfer.{
  finished, Config, Event, failed, timeout, runt, datagram, Wire, set_result, Next, wait, stop,
  Result, u64, add64, sub64,
}
use network_tftp_tftp_hpa.Xfer.Send.{
  ReadOps, Sender, stamp_window, send_window, open_window, and_then, add_lengths, window_done,
  resend_suffix, answer, on_packet, on_event, run, tftp_xfer_send,
}
use network_tftp_tftp_hpa.Xfer.Send.Contract.{
  ReadLaws, payloads_of, numbered, block_after, wires, reversed, total, Within, numbered-append,
  wires-append, Within-map, Within-reversed, Within-append, Within-right, Within-self,
  Among-append_left, Among-append_right, Among-reversed_old, Among-reversed_new, length-numbered,
  payloads_of-numbered, block_after-append, total-append, length-payloads_of,
}
use network_tftp_tftp_hpa.Xfer.Send.Window.{
  get_elem?-append, Answer-cases, Goes, Stamped, stamp_window-Stamped, Sent, send_window-Sent,
}

module _ {S : Type 0} (ops : ReadOps S) (laws : ReadLaws ops) (cfg : Config)
    (send_errno : List Wire → ℕ) (file : List (List ℕ)) (fits : total file < u64) where
  open laws use {Feeds, Lends}

  -- The packets of data, as they are sent.
  abbrev sent_as : List (List ℕ) → List Wire
  sent_as ds = wires (numbered cfg.rollover 1 ds)

  -- Between two windows: `done` is acknowledged and `rest` is to come.
  record Between (done rest : List (List ℕ)) (st : Sender S) : Type 0 where
    feeds : Feeds rest st.io
    whole : file ≡ done ++ rest
    awaited : st.next ≡ block_after cfg.rollover 1 (length done)
    bytes_done : st.bytes ≡ total done
    genuine : Within st.sent (sent_as file)
    delivered : Within (sent_as done) st.sent

  -- In the wait for an ACK of the window `w`.
  record Waits (done : List (List ℕ)) (w : List Packet) (rest : List (List ℕ)) (st : Sender S)
      : Type 0 where
    lends : Lends w rest st.io
    whole : file ≡ done ++ (payloads_of w ++ rest)
    stamped : w ≡ numbered cfg.rollover (block_after cfg.rollover 1 (length done)) (payloads_of w)
    counted : st.packet_count ≡ length w
    last_window : st.final ≡ true → rest ≡ []
    awaited : st.next ≡ block_after cfg.rollover 1 (length (done ++ payloads_of w))
    bytes_done : st.bytes ≡ total done
    genuine : Within st.sent (sent_as file)
    delivered : Within (sent_as (done ++ payloads_of w)) st.sent

  -- A return with the status TFTP_XFER_OK: the whole file is sent, and nothing else.
  pub record Delivered (r : Result) (st : Sender S) : Type 0 where
    pub count : r.bytes ≡ total file
    pub complete : Within (sent_as file) st.sent
    pub genuine : Within st.sent (sent_as file)

  Outcome : Next (Sender S) → Type 0
  Outcome (wait st) =
      (done : List (List ℕ)) × (w : List Packet) × (rest : List (List ℕ)) × Waits done w rest st
  Outcome (stop r st) = r.status ≡ finished → Delivered r st

  Outcome-of :
      (P : Sender S → Type 0) (n : Next (Sender S))
      → ((st : Sender S) → P st → Outcome (wait st))
      → Goes ops laws cfg send_errno P n
      → Outcome n
  unfolding Outcome
  Outcome-of P (wait st) f g = f st g
  Outcome-of P (stop r st) f g = λ e. absurd (g e)

  sent_as-append :
      (ds es : List (List ℕ))
      → sent_as (ds ++ es)
        ≡ sent_as ds ++ wires (numbered cfg.rollover (block_after cfg.rollover 1 (length ds)) es)
  sent_as-append ds es =
      ap wires (numbered-append cfg.rollover 1 ds es)
      ∙ wires-append (numbered cfg.rollover 1 ds)
          (numbered cfg.rollover (block_after cfg.rollover 1 (length ds)) es)

  -- The packets of a window are among those of the file.
  window-genuine :
      (done ds rest : List (List ℕ))
      → file ≡ done ++ (ds ++ rest)
      → Within
          (wires (numbered cfg.rollover (block_after cfg.rollover 1 (length done)) ds))
          (sent_as file)
  window-genuine done ds rest e =
      let block : ℕ = block_after cfg.rollover 1 (length done) in
      let own = wires (numbered cfg.rollover block ds) in
      let behind =
        wires (numbered cfg.rollover (block_after cfg.rollover block (length ds)) rest) in
      let split : sent_as file ≡ sent_as done ++ (own ++ behind) =
        ap sent_as e
        ∙ sent_as-append done (ds ++ rest)
        ∙ ap (λ l. sent_as done ++ l)
            (ap wires (numbered-append cfg.rollover block ds rest)
              ∙ wires-append (numbered cfg.rollover block ds)
                  (numbered cfg.rollover (block_after cfg.rollover block (length ds)) rest)) in
      subst (Within own) (sym split) (
        Within-map own own (sent_as done ++ (own ++ behind))
          (λ x h.
            Among-append_right x (sent_as done) (own ++ behind) (Among-append_left x own behind h))
          (Within-self own))

  held-genuine :
      (done : List (List ℕ)) (front todo : List Packet) (rest : List (List ℕ)) (st : Sender S)
      → Waits done (front ++ todo) rest st
      → Within (wires todo) (sent_as file)
  held-genuine done front todo rest st h =
      let all : Within (wires (front ++ todo)) (sent_as file) =
        subst (λ w. Within (wires w) (sent_as file)) (sym h.stamped)
          (window-genuine done (payloads_of (front ++ todo)) rest h.whole) in
      Within-right (wires front) (wires todo) (sent_as file)
        (subst (λ l. Within l (sent_as file)) (wires-append front todo) all)

  -- A part of the window is sent again.
  Waits-resent :
      (done : List (List ℕ)) (front todo : List Packet) (rest : List (List ℕ)) (st t : Sender S)
      → Waits done (front ++ todo) rest st
      → Sent ops laws cfg send_errno (front ++ todo) todo rest st t
      → Waits done (front ++ todo) rest t
  Waits-resent done front todo rest st t h g =
      let log : t.sent ≡ reversed (wires todo) st.sent = ap (λ (s : Sender S). s.sent) g.1 in
      record {
        lends = g.0;
        whole = h.whole;
        stamped = h.stamped;
        counted = ap (λ (s : Sender S). s.packet_count) g.1 ∙ h.counted;
        last_window = λ e. h.last_window (sym (ap (λ (s : Sender S). s.final) g.1) ∙ e);
        awaited = ap (λ (s : Sender S). s.next) g.1 ∙ h.awaited;
        bytes_done = ap (λ (s : Sender S). s.bytes) g.1 ∙ h.bytes_done;
        genuine =
            subst (λ l. Within l (sent_as file)) (sym log)
              (Within-reversed (wires todo) st.sent (sent_as file)
                (held-genuine done front todo rest st h) h.genuine);
        delivered = subst (Within (sent_as (done ++ payloads_of (front ++ todo)))) (sym log) (
            Within-map (sent_as (done ++ payloads_of (front ++ todo))) st.sent
              (reversed (wires todo) st.sent) (λ x. Among-reversed_old x (wires todo) st.sent)
              h.delivered);
      }

  resend :
      (done : List (List ℕ)) (front todo : List Packet) (rest : List (List ℕ)) (st : Sender S)
      → Waits done (front ++ todo) rest st
      → Outcome (send_window ops cfg send_errno (length todo) (length front) st)
  unfolding Outcome
  resend done front todo rest st h =
      Outcome-of _ (send_window ops cfg send_errno (length todo) (length front) st)
        (λ t g. (done, front ++ todo, rest, Waits-resent done front todo rest st t h g))
        (send_window-Sent ops laws cfg send_errno front todo rest st h.lends)

  -- The window that is opened behind `done`.
  Waits-opened :
      (done : List (List ℕ)) (w : List Packet) (rest : List (List ℕ)) (st t u : Sender S)
      → Between done (payloads_of w ++ rest) st
      → t.packet_count ≡ length w
      → (t.final ≡ true → rest ≡ [])
      → t.bytes ≡ st.bytes
      → t.sent ≡ st.sent
      → t.next ≡ block_after cfg.rollover st.next (length w)
      → Sent ops laws cfg send_errno
          (numbered cfg.rollover st.next (payloads_of w))
          (numbered cfg.rollover st.next (payloads_of w))
          rest
          t
          u
      → Waits done (numbered cfg.rollover st.next (payloads_of w)) rest u
  Waits-opened done w rest st t u h counted final bytes sent next g =
      let ds = payloads_of w in
      let n = numbered cfg.rollover st.next ds in
      let same : payloads_of n ≡ ds = payloads_of-numbered cfg.rollover st.next ds in
      let log : u.sent ≡ reversed (wires n) st.sent =
        ap (λ (s : Sender S). s.sent) g.1 ∙ ap (reversed (wires n)) sent in
      let place : n ≡ numbered cfg.rollover (block_after cfg.rollover 1 (length done)) ds =
        ap (λ b. numbered cfg.rollover b ds) h.awaited in
      let own : Within (wires n) (sent_as file) =
        subst (λ l. Within (wires l) (sent_as file)) (sym place)
          (window-genuine done ds rest h.whole) in
      let log' = reversed (wires n) st.sent in
      let new : Within (wires n) log' =
        Within-map (wires n) (wires n) log' (λ x. Among-reversed_new x (wires n) st.sent)
          (Within-self (wires n)) in
      let arrived : Within (sent_as (done ++ ds)) log' =
        subst (λ l. Within l log')
          (sym (sent_as-append done ds ∙ ap (λ p. sent_as done ++ wires p) (sym place)))
          (Within-append (sent_as done) (wires n) log'
            (Within-map (sent_as done) st.sent log' (λ x. Among-reversed_old x (wires n) st.sent)
              h.delivered)
            new) in
      record {
        lends = g.0;
        whole = rw same h.whole;
        stamped = rw same place;
        counted =
            ap (λ (s : Sender S). s.packet_count) g.1
            ∙ counted
            ∙ sym (length-numbered cfg.rollover st.next ds ∙ length-payloads_of w);
        last_window = λ e. final (sym (ap (λ (s : Sender S). s.final) g.1) ∙ e);
        awaited =
            let here : block_after cfg.rollover st.next (length w)
                ≡ block_after cfg.rollover (block_after cfg.rollover 1 (length done)) (length ds) =
              ap (λ b. block_after cfg.rollover b (length w)) h.awaited
              ∙ ap (block_after cfg.rollover (block_after cfg.rollover 1 (length done)))
                  (sym (length-payloads_of w)) in
            rw same (
              ap (λ (s : Sender S). s.next) g.1
              ∙ next
              ∙ here
              ∙ sym (block_after-append cfg.rollover 1 done ds));
        bytes_done = ap (λ (s : Sender S). s.bytes) g.1 ∙ bytes ∙ h.bytes_done;
        genuine =
            subst (λ l. Within l (sent_as file)) (sym log)
              (Within-reversed (wires n) st.sent (sent_as file) own h.genuine);
        delivered = rw same (subst (Within (sent_as (done ++ ds))) (sym log) arrived);
      }

  and_then-Outcome :
      (P : Sender S → Type 0) (n : Next (Sender S)) (k : Sender S → Next (Sender S))
      → ((t : Sender S) → P t → Outcome (k t))
      → Goes ops laws cfg send_errno P n
      → Outcome (and_then ops cfg send_errno n k)
  unfolding Outcome
  and_then-Outcome P (wait st) k f g = f st g
  and_then-Outcome P (stop r st) k f g = λ e. absurd (g e)

  -- A window is borrowed, stamped and sent.
  new_window :
      (done : List (List ℕ)) (w : List Packet) (rest : List (List ℕ)) (st : Sender S) (io : S)
      (final : Bool)
      → Between done (payloads_of w ++ rest) st
      → Lends w rest io
      → (final ≡ true → rest ≡ [])
      → Outcome (
          and_then ops cfg send_errno
            (stamp_window ops cfg send_errno
              (length w)
              0
              (record st { io = io; packet_count = length w; final = final }))
            (send_window ops cfg send_errno (length w) 0))
  unfolding Outcome
  new_window done w rest st io final h lends last =
      let st' : Sender S = record st { io = io; packet_count = length w; final = final } in
      let n = numbered cfg.rollover st.next (payloads_of w) in
      let size : length n ≡ length w =
        length-numbered cfg.rollover st.next (payloads_of w) ∙ length-payloads_of w in
      and_then-Outcome (Stamped ops laws cfg send_errno [] w rest st')
        (stamp_window ops cfg send_errno (length w) 0 st')
        (send_window ops cfg send_errno (length w) 0)
        (λ t g.
          let field : t
              ≡ record st' { io = t.io; next = block_after cfg.rollover st.next (length w) } =
            g.1 in
          Outcome-of (Sent ops laws cfg send_errno n n rest t)
            (send_window ops cfg send_errno (length w) 0 t)
            (λ u k. (
              done,
              n,
              rest,
              Waits-opened done w rest st t u h (ap (λ (s : Sender S). s.packet_count) field)
                  (λ e. last (sym (ap (λ (s : Sender S). s.final) field) ∙ e))
                  (ap (λ (s : Sender S). s.bytes) field) (ap (λ (s : Sender S). s.sent) field)
                  (ap (λ (s : Sender S). s.next) field) k,
            ))
            (rw size at (send_window-Sent ops laws cfg send_errno [] n rest t g.0)))
        (stamp_window-Stamped ops laws cfg send_errno [] w rest st' lends)

  open_window-Outcome :
      (done rest : List (List ℕ)) (st : Sender S)
      → Between done rest st
      → Outcome (open_window ops cfg send_errno st)
  unfolding Outcome open_window
  open_window-Outcome done rest st h = elim (Answer-cases (ops.read_window st.io)) [
    | inr (e, s, bad) ↦ rw (bad, open_window) (λ x. absurd (ground arith))
    | inl ((count, final), s, found) ↦
        let (w, ds, lends, n, e, last) = laws.window rest st.io s count final h.feeds found in
        let h' : Between done (payloads_of w ++ ds) st = subst (λ r. Between done r st) e h in
        rw (found, open_window)
          (elim (Bool-cases (count == 0 || ltb cfg.windowsize count)) [
            | inl bad ↦ rw bad (λ x. absurd (ground arith))
            | inr good ↦ rw (good, ← n) (new_window done w ds st s final h' lends last)
          ])
  ]

  add_lengths-total :
      (front todo : List Packet) (rest : List (List ℕ)) (io : S) (bytes : ℕ)
      → Lends (front ++ todo) rest io
      → bytes + total (payloads_of todo) < u64
      → add_lengths ops cfg send_errno (length todo) (length front) io bytes
        ≡ bytes + total (payloads_of todo)
  unfolding add_lengths
  add_lengths-total front [] rest io bytes h narrow = omega arith
  add_lengths-total front (p ∷ todo) rest io bytes h narrow =
      let size =
        laws.size (front ++ p ∷ todo) rest io (length front) p h (get_elem?-append front todo p) in
      let n : length (front ++ p ∷ []) ≡ length front + 1 = length-append front (p ∷ []) in
      let later = rw n at (
        add_lengths-total (front ++ p ∷ []) todo rest io (bytes + length p.payload)
          (rw append_assoc h) (omega arith)) in
      let one : add64 bytes (sub64 (length p.payload + 4) 4) ≡ bytes + length p.payload =
        omega arith in
      rw (add_lengths, size) (rw one (later ∙ omega arith))

  -- The state behind an acknowledged window.
  window_done-Outcome :
      (done : List (List ℕ)) (w : List Packet) (rest : List (List ℕ)) (st : Sender S)
      → Waits done w rest st
      → Outcome (window_done ops cfg send_errno st)
  unfolding Outcome window_done
  window_done-Outcome done w rest st h =
      let ds = payloads_of w in
      let sum : total file ≡ total done + (total ds + total rest) =
        ap total h.whole
        ∙ total-append done (ds ++ rest)
        ∙ ap (λ n. total done + n) (total-append ds rest) in
      let counted : add_lengths ops cfg send_errno st.packet_count 0 st.io st.bytes
          ≡ total (done ++ ds) =
        rw (h.counted, h.bytes_done)
          (add_lengths-total [] w rest st.io (total done) h.lends (omega arith)
            ∙ sym (total-append done ds)) in
      let st' : Sender S = record st {
        bytes = add_lengths ops cfg send_errno st.packet_count 0 st.io st.bytes;
        io = ops.read_release st.io;
      } in
      elim (Bool-cases st.final) [
        | inl final ↦
            let all : file ≡ done ++ ds =
              h.whole
              ∙ ap (λ r. done ++ (ds ++ r)) (h.last_window final)
              ∙ ap (λ r. done ++ r) (append-nil ds) in
            rw final (λ e. record {
              count = counted ∙ ap total (sym all);
              complete = subst (λ f. Within (sent_as f) st.sent) (sym all) h.delivered;
              genuine = h.genuine;
            })
        | inr more ↦
            subst
              (λ b. Outcome (
                if b
                then stop (set_result finished 0 st'.bytes) st'
                else open_window ops cfg send_errno st'))
              (sym more)
              (open_window-Outcome (done ++ ds) rest st' (record {
                feeds = laws.release w rest st.io h.lends;
                whole = h.whole ∙ sym (append_assoc done ds rest);
                awaited = h.awaited;
                bytes_done = counted;
                genuine = h.genuine;
                delivered = h.delivered;
              }))
      ]

  -- A callback that only reads leaves the wait as it is.
  Waits-moved :
      (done : List (List ℕ)) (w : List Packet) (rest : List (List ℕ)) (st : Sender S) (io : S)
      → Waits done w rest st
      → Lends w rest io
      → Waits done w rest (record st { io = io })
  Waits-moved done w rest st io h lends = record {
    lends = lends;
    whole = h.whole;
    stamped = h.stamped;
    counted = h.counted;
    last_window = h.last_window;
    awaited = h.awaited;
    bytes_done = h.bytes_done;
    genuine = h.genuine;
    delivered = h.delivered;
  }

  -- The rest of the window behind the packet that an ACK names, if it names one.
  resend_suffix-Outcome :
      (done : List (List ℕ)) (front todo : List Packet) (p : Packet) (rest : List (List ℕ))
      (acked : ℕ) (st : Sender S)
      → Waits done (front ++ p ∷ todo) rest st
      → Outcome (resend_suffix ops cfg send_errno (length todo) (length front) acked st)
  unfolding Outcome resend_suffix
  resend_suffix-Outcome done front [] p rest acked st h = (done, front ++ p ∷ [], rest, h)
  resend_suffix-Outcome done front (q ∷ todo) p rest acked st h =
      elim (Answer-cases (ops.read_packet (length front) st.io)) [
        | inr (e, s, bad) ↦ rw (bad, resend_suffix) (λ x. absurd (ground arith))
        | inl (found, s, got) ↦
            let kept =
              laws.packet (front ++ p ∷ q ∷ todo) rest st.io s (length front) found h.lends got in
            let st' : Sender S = record st { io = s } in
            let h' : Waits done (front ++ p ∷ q ∷ todo) rest st' =
              Waits-moved done (front ++ p ∷ q ∷ todo) rest st s h kept.0 in
            let shifted : Waits done ((front ++ p ∷ []) ++ q ∷ todo) rest st' =
              rw append_assoc h' in
            let n : length (front ++ p ∷ []) ≡ length front + 1 = length-append front (p ∷ []) in
            rw (got, resend_suffix)
              (elim (Bool-cases (acked == found.block)) [
                | inl here ↦
                    rw here (rw n at (resend done (front ++ p ∷ []) (q ∷ todo) rest st' shifted))
                | inr further ↦ rw further (
                    rw n at
                      (resend_suffix-Outcome done (front ++ p ∷ []) todo q rest acked st' shifted))
              ])
      ]

  resend_all :
      (done : List (List ℕ)) (w : List Packet) (rest : List (List ℕ)) (st : Sender S)
      → Waits done w rest st
      → Outcome (send_window ops cfg send_errno st.packet_count 0 st)
  resend_all done w rest st h =
      subst (λ n. Outcome (send_window ops cfg send_errno n 0 st)) (sym h.counted)
        (resend done [] w rest st h)

  answer-Outcome :
      (done : List (List ℕ)) (p : Packet) (w : List Packet) (rest : List (List ℕ))
      (received last : Packet) (st : Sender S)
      → Waits done (p ∷ w) rest st
      → Outcome (answer ops cfg send_errno received last st)
  unfolding answer Outcome
  answer-Outcome done p w rest received last st h =
      let finished = window_done-Outcome done (p ∷ w) rest st h in
      let again = resend_all done (p ∷ w) rest st h in
      let left : st.packet_count - 1 ≡ length w = ground (arith, h.counted) in
      let suffix : Outcome
          (resend_suffix ops cfg send_errno (st.packet_count - 1) 0 received.block st) =
        rw left (resend_suffix-Outcome done [] w p rest received.block st h) in
      let stay : Outcome (wait st) = (done, p ∷ w, rest, h) in
      elim (Bool-cases (received.opcode == Opcode.ack && received.block == last.block)) [
        | inl a ↦ rw a finished
        | inr a ↦ elim (Bool-cases (received.opcode == Opcode.oack && cfg.resend_oack)) [
          | inl b ↦ rw (a, b) again
          | inr b ↦ elim (Bool-cases (received.opcode == Opcode.ack)) [
            | inl c ↦ rw (a, b, c) suffix
            | inr c ↦ rw (a, b, c) stay
          ]
        ]
      ]

  -- In the wait, whatever the window is.
  on_packet-Outcome :
      (done : List (List ℕ)) (w : List Packet) (rest : List (List ℕ)) (received : Packet)
      (st : Sender S)
      → Waits done w rest st
      → Outcome (on_packet ops cfg send_errno received st)
  unfolding on_packet Outcome
  on_packet-Outcome done w rest received st h =
      elim (Bool-cases (received.opcode == Opcode.error)) [
        | inl bad ↦ rw bad (λ x. absurd (ground arith))
        | inr fine ↦ elim (Answer-cases (ops.read_packet (st.packet_count - 1) st.io)) [
          | inr (e, s, bad) ↦ rw (fine, bad) (λ x. absurd (ground arith))
          | inl (last, s, got) ↦
              let kept = laws.packet w rest st.io s (st.packet_count - 1) last h.lends got in
              rw (fine, got)
                (answered done w rest received last (record st { io = s }) (st.packet_count - 1)
                  (Waits-moved done w rest st s h kept.0) kept.1)
        ]
      ]
    where
      answered :
          (done : List (List ℕ)) (w : List Packet) (rest : List (List ℕ)) (received last : Packet)
          (st : Sender S) (n : ℕ)
          → Waits done w rest st
          → get_elem? w n ≡ some last
          → Outcome (answer ops cfg send_errno received last st)
      answered done [] rest received last st n h e = absurd (ground arith)
      answered done (p ∷ w) rest received last st n h e =
          answer-Outcome done p w rest received last st h

  on_event-Outcome :
      (e : Event) (st : Sender S) → Outcome (wait st) → Outcome (on_event ops cfg send_errno e st)
  unfolding on_event Outcome
  on_event-Outcome (failed e) st h = λ x. absurd (ground arith)
  on_event-Outcome timeout st (done, w, rest, h) = resend_all done w rest st h
  on_event-Outcome runt st h = h
  on_event-Outcome (datagram p) st (done, w, rest, h) = on_packet-Outcome done w rest p st h

  run-Outcome :
      (es : List Event) (n : Next (Sender S)) → Outcome n → Outcome (run ops cfg send_errno es n)
  unfolding run
  run-Outcome [] n h = h
  run-Outcome (e ∷ es) (stop r st) h = h
  run-Outcome (e ∷ es) (wait st) h =
      run-Outcome es (on_event ops cfg send_errno e st) (on_event-Outcome e st h)

  -- On an adapter that feeds the file, in packets, and promises what ReadLaws says: whatever comes
  -- over the network, if tftp_xfer_send returns TFTP_XFER_OK, then every packet of the file was sent
  -- with its number and its length, nothing but these packets was sent, and the result counts
  -- the data bytes of the file, which are less than 2^64.
  pub tftp_xfer_send_sound :
      (errno : ℕ) (io : S) (es : List Event) {r : Result} {st : Sender S}
      → Feeds file io
      → tftp_xfer_send ops cfg send_errno errno io es ≡ stop r st
      → r.status ≡ finished
      → Delivered r st
  unfolding tftp_xfer_send Outcome block_after numbered
  tftp_xfer_send_sound errno io es {r} {st} h e =
      let start : Sender S = record {
        io = io;
        next = 1;
        bytes = 0;
        packet_count = 0;
        final = false;
        errno = errno;
        sent = [];
      } in
      let between : Between [] file start = record {
        feeds = h;
        whole = refl;
        awaited = refl;
        bytes_done = refl;
        genuine = tt;
        delivered = tt;
      } in
      let all =
        run-Outcome es (open_window ops cfg send_errno start)
          (open_window-Outcome [] file start between) in
      let here : Outcome (stop r st) = subst Outcome e all in here
