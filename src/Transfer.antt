-- ===== src/Transfer.antt =====
-- Both ends of a transfer, tftp_xfer_send and tftp_xfer_recv of common/tftp-xfer.c over the file
-- adapters of common/tftp-io.c, and a network between them.
use network_tftp_tftp_hpa.Prelude.{
  ℕ, ◌+◌, ◌≤◌, ◌<◌, ◌≡◌, ◌≢◌, refl, sym, ap, subst, ◌∙◌, inl, inr, Bool, true, false, none, Option,
  some, List, [], ◌∷◌, ◌++◌, append_assoc, append-nil, length, length-append, length-take, take,
  drop, take-append-drop, arith, ◌==◌, ◌&&◌, Bool-cases, All, ◌^◌,
}
use network_tftp_tftp_hpa.Packet.{Packet}
use network_tftp_tftp_hpa.Packet.Opcode
use network_tftp_tftp_hpa.Stdio.{Stream}
use network_tftp_tftp_hpa.Xfer.{
  finished, Config, Event, failed, timeout, runt, datagram, Wire, stop, u64, Result,
}
use network_tftp_tftp_hpa.Xfer.Block.{next_block}
use network_tftp_tftp_hpa.Xfer.Send.{Sender, tftp_xfer_send}
use network_tftp_tftp_hpa.Xfer.Send.Contract.{numbered, wires, Among, Within}
use network_tftp_tftp_hpa.Xfer.Receive.{Receiver, tftp_xfer_recv}
use network_tftp_tftp_hpa.Xfer.Receive.Contract.{in_sequence, payloads, Ended}
use network_tftp_tftp_hpa.Io.{Io, tftp_io_reader_start, tftp_io_writer_start}
use network_tftp_tftp_hpa.Io.Codec.Decode.Spec.{rendered, held_cr}
use network_tftp_tftp_hpa.Io.Codec.RoundTrip.{decode-encode, open_cr-encode}
use network_tftp_tftp_hpa.Io.Reader.{reader_ops}
use network_tftp_tftp_hpa.Io.Reader.Window.{IsCut}
use network_tftp_tftp_hpa.Io.Writer.{writer_ops}
use network_tftp_tftp_hpa.Io.Writer.Drain.{render}
use network_tftp_tftp_hpa.Upload.{upload_sound}
use network_tftp_tftp_hpa.Download.{
  wire_text, blocks_of, blocks_of-IsCut, started-Filled, take_short, download_sound,
}

-- A network that may lose, repeat, delay and reorder datagrams: every DATA packet it brings is one
-- of those sent. What else it brings is not restricted.
abbrev pub Brought : List Wire → Event → Type 0
Brought sent (datagram p) =
    p.opcode ≡ Opcode.block_data → Among (Wire.block p (length p.payload + 4)) sent
Brought sent (failed e) = Unit
Brought sent timeout = Unit
Brought sent runt = Unit

-- What the writer makes of what the reader reads.
render-wire_text :
    (convert : Bool) (bytes : List ℕ) → render convert (wire_text convert bytes) ≡ bytes
unfolding render rendered held_cr
render-wire_text true bytes = rw (decode-encode bytes, open_cr-encode bytes) (append-nil bytes)
render-wire_text false bytes = append-nil bytes

-- Below 2^16 the numbers rise.
numbered-ge :
    (ro b n : ℕ) (p : Packet) (ds : List (List ℕ))
    → b + length ds ≤ 2 ^ 16
    → Among (Wire.block p n) (wires (numbered ro b ds))
    → b ≤ p.block
unfolding numbered next_block
numbered-ge ro b n p [] h a = elim a [ ]
numbered-ge ro b n p (d ∷ ds) h (inl e) = ground arith
numbered-ge ro b n p (d ∷ []) h (inr a) = elim a [ ]
numbered-ge ro b n p (d ∷ d' ∷ ds) h (inr a) =
    let next : next_block b ro ≡ b + 1 = ground arith in
    let above =
      numbered-ge ro (b + 1) n p (d' ∷ ds) (omega arith)
        (subst (λ k. Among (Wire.block p n) (wires (numbered ro k (d' ∷ ds)))) next a) in
    omega arith

-- A number below 2^16 names one packet only.
numbered_unique :
    (ro b n : ℕ) (p : Packet) (done : List (List ℕ)) (d : List ℕ) (todo : List (List ℕ))
    → b + length (done ++ d ∷ todo) ≤ 2 ^ 16
    → Among (Wire.block p n) (wires (numbered ro b (done ++ d ∷ todo)))
    → p.block ≡ b + length done
    → p.payload ≡ d
unfolding numbered next_block
numbered_unique ro b n p [] d todo h (inl e) k = ground arith
numbered_unique ro b n p [] d [] h (inr a) k = elim a [ ]
numbered_unique ro b n p [] d (d' ∷ todo) h (inr a) k =
    let next : next_block b ro ≡ b + 1 = ground arith in
    let above =
      numbered-ge ro (b + 1) n p (d' ∷ todo) (omega arith)
        (subst (λ k. Among (Wire.block p n) (wires (numbered ro k (d' ∷ todo)))) next a) in
    absurd (omega arith)
numbered_unique ro b n p (c ∷ done) d todo h (inl e) k = absurd (ground arith)
numbered_unique ro b n p (c ∷ done) d todo h (inr a) k =
    let some_more = length-append done (d ∷ todo) in
    let next : next_block b ro ≡ b + 1 = ground arith in
    numbered_unique ro (b + 1) n p done d todo (omega arith)
      (subst (λ k. Among (Wire.block p n) (wires (numbered ro k (done ++ d ∷ todo)))) next a)
      (omega arith)

abbrev joined : List (List ℕ) → List ℕ
joined [] = []
joined (d ∷ ds) = d ++ joined ds

joined-IsCut :
    (blocksize : ℕ) (text : List ℕ) (ds : List (List ℕ))
    → 0 < blocksize
    → IsCut blocksize text ds
    → joined ds ≡ text
joined-IsCut blocksize text [] some_size h = elim h [ ]
joined-IsCut blocksize text (d ∷ ds) some_size (e, inl (short, last)) =
    let n = length-take blocksize text in
    let d' = ap length e in
    let all = take_short blocksize text (omega arith) in
    ap (λ l. d ++ joined l) last ∙ append-nil d ∙ e ∙ all
joined-IsCut blocksize text (d ∷ ds) some_size (e, inr (full, cut)) =
    ap (λ l. l ++ joined ds) e
    ∙ ap (λ l. take blocksize text ++ l)
        (joined-IsCut blocksize (drop blocksize text) ds some_size cut)
    ∙ take-append-drop blocksize text

Among-Within : (x : Wire) (xs ys : List Wire) → Within xs ys → Among x xs → Among x ys
Among-Within x [] ys h a = elim a [ ]
Among-Within x (y ∷ xs) ys h (inl e) = subst (λ z. Among z ys) (sym e) h.0
Among-Within x (y ∷ xs) ys h (inr a) = Among-Within x xs ys h.1 a

ended :
    {bs : ℕ} (text d : List ℕ) (ds : List (List ℕ))
    → length d ≢ bs
    → IsCut bs text (d ∷ ds)
    → ds ≡ []
ended text d ds short (e, inl (_, last)) = last
ended text d ds short (e, inr (full, _)) = absurd (short full)

behind :
    {bs : ℕ} (text d : List ℕ) (ds : List (List ℕ))
    → length d ≡ bs
    → IsCut bs text (d ∷ ds)
    → IsCut bs (drop bs text) ds × (0 < length ds)
behind text d ds full (e, inl (short, _)) = absurd (short full)
behind text d [] full (e, inr (_, cut)) = elim cut [ ]
behind text d (d' ∷ ds) full (e, inr (_, cut)) = (cut, omega arith)

module _ (bs ro ro' : ℕ) (whole : List (List ℕ)) (few : length whole < 2 ^ 16) where
  -- The awaited packets, from the number behind `done` on, bring the rest of the file.
  in_sequence-rest :
      (text : List ℕ) (done todo : List (List ℕ)) (es : List Event)
      → whole ≡ done ++ todo
      → IsCut bs text todo
      → All (Brought (wires (numbered ro 1 whole))) es
      → Ended bs (in_sequence bs ro' (length done + 1) es)
      → payloads (in_sequence bs ro' (length done + 1) es) ≡ joined todo
  unfolding in_sequence payloads next_block
  in_sequence-rest text done [] es w c b h = elim c [ ]
  in_sequence-rest text done (d ∷ todo) [] w c b h = elim h [ ]
  in_sequence-rest text done (d ∷ todo) (failed e ∷ es) w c b h =
      in_sequence-rest text done (d ∷ todo) es w c b.1 h
  in_sequence-rest text done (d ∷ todo) (timeout ∷ es) w c b h =
      in_sequence-rest text done (d ∷ todo) es w c b.1 h
  in_sequence-rest text done (d ∷ todo) (runt ∷ es) w c b h =
      in_sequence-rest text done (d ∷ todo) es w c b.1 h
  in_sequence-rest text done (d ∷ todo) (datagram p ∷ es) w c b h =
      elim (Bool-cases (p.opcode == Opcode.block_data && p.block == length done + 1)) [
        | inr other ↦ rw other (in_sequence-rest text done (d ∷ todo) es w c b.1 (rw other at h))
        | inl awaited ↦
            let number : p.block ≡ 1 + length done = ground (arith, awaited) in
            let n = length-append done (d ∷ todo) in
            let m = ap length w in
            let a =
              subst (λ l. Among (Wire.block p (length p.payload + 4)) (wires (numbered ro 1 l))) w
                (b.0 (ground (arith, awaited))) in
            let same : p.payload ≡ d =
              numbered_unique ro 1 (length p.payload + 4) p done d todo (omega arith) a number in
            elim (rw awaited at h) [
              | inl (short, last) ↦
                  let end : todo ≡ [] =
                    ended text d todo (subst (λ l. length l ≢ bs) same short) c in
                  let off : (length p.payload == bs) ≡ false = ground (arith, short) in
                  rw (awaited, off, end, same) refl
              | inr (full, later) ↦
                  let on : (length p.payload == bs) ≡ true = ground (arith, full) in
                  let (cut, room) = behind text d todo (subst (λ l. length l ≡ bs) same full) c in
                  let next : next_block (length done + 1) ro' ≡ length (done ++ d ∷ []) + 1 =
                    ground (arith, length-append done (d ∷ [])) in
                  rw (awaited, on, same, next)
                    (ap (λ l. d ++ l)
                      (in_sequence-rest (drop bs text) (done ++ d ∷ []) todo es
                        (w ∙ sym (append_assoc done (d ∷ []) todo)) cut b.1
                        (rw (on, next) at later)))
            ]
      ]

Brought-Within :
    (xs ys : List Wire) (es : List Event) → Within xs ys → All (Brought xs) es → All (Brought ys) es
Brought-Within xs ys [] h b = tt
Brought-Within xs ys (failed e ∷ es) h b = (tt, Brought-Within xs ys es h b.1)
Brought-Within xs ys (timeout ∷ es) h b = (tt, Brought-Within xs ys es h b.1)
Brought-Within xs ys (runt ∷ es) h b = (tt, Brought-Within xs ys es h b.1)
Brought-Within xs ys (datagram p ∷ es) h b =
    (λ e. Among-Within _ xs ys h (b.0 e), Brought-Within xs ys es h b.1)

-- A transfer of a file in less than 2^16 blocks, in octet or netascii mode, over a network that
-- loses, repeats and reorders datagrams in any way, and that brings the receiver no DATA packet but
-- those of this sender: if tftp_xfer_send and tftp_xfer_recv both return TFTP_XFER_OK, the receiver's
-- file, empty at first, has the same bytes as the sender's, and both results count the same number
-- of bytes. The two sides agree on the block size; their rings, and what else the network
-- brings to either of them, are arbitrary.
pub transfer_exact :
    (source target : Stream) (convert : Bool) (window slots slots' : ℕ) (cfg cfg' : Config)
    (send_errno send_errno' : List Wire → ℕ) (errno input_size : ℕ) (first_reply : Option (List ℕ))
    (es es' : List Event) (reader writer : Io) {r r' : Result} {st : Sender Io} {st' : Receiver Io}
    → cfg'.blocksize ≡ cfg.blocksize
    → cfg'.max_bytes < u64
    → length (wire_text convert source.input) < u64
    → length (
        blocks_of
          (length (wire_text convert source.input))
          cfg.blocksize
          (wire_text convert source.input))
      < 2 ^ 16
    → target.output ≡ []
    → tftp_io_reader_start source convert window slots cfg.blocksize ≡ some reader
    → tftp_io_writer_start target convert slots' cfg'.blocksize ≡ some writer
    → tftp_xfer_send reader_ops cfg send_errno errno reader es ≡ stop r st
    → tftp_xfer_recv writer_ops cfg' send_errno' input_size first_reply none writer es'
      ≡ stop r' st'
    → r.status ≡ finished
    → r'.status ≡ finished
    → All (Brought st.sent) es'
    → (st'.io.file.output ≡ source.input) × (r'.bytes ≡ r.bytes)
transfer_exact source target convert window slots slots' cfg cfg' send_errno send_errno' errno
      input_size first_reply es es' reader writer size limit fits few blank_file start start' run
      run' done done' network =
    let text = wire_text convert source.input in
    let ds = blocks_of (length text) cfg.blocksize text in
    let some_size = (started-Filled source convert window slots cfg.blocksize reader start).1 in
    let cut = blocks_of-IsCut (length text) cfg.blocksize text some_size (omega arith) in
    let sent =
      download_sound source convert window slots cfg send_errno errno es reader fits start run
        done in
    let got =
      upload_sound target convert slots' cfg' send_errno' input_size first_reply none es' writer
        limit blank_file start' run' done' in
    let genuine = Brought-Within _ _ es' sent.2 network in
    let bytes : payloads (in_sequence cfg'.blocksize cfg'.rollover 1 es') ≡ text =
      in_sequence-rest cfg'.blocksize cfg.rollover cfg'.rollover ds few text [] ds es' refl
        (subst (λ n. IsCut n text ds) (sym size) cut) genuine got.5
      ∙ joined-IsCut cfg.blocksize text ds some_size cut in
    (
      got.0 ∙ ap (render convert) bytes ∙ render-wire_text convert source.input,
      got.1 ∙ ap length bytes ∙ sym sent.0,
    )
