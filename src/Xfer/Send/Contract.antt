-- ===== src/Xfer/Send/Contract.antt =====
-- What tftp_xfer_send relies on in the file adapter, and the packets that make up a file.
use network_tftp_tftp_hpa.Prelude.{
  ℕ, zero, suc, ◌+◌, ◌≡◌, ◌⊎◌, refl, inl, inr, true, Bool, some, List, [], ◌∷◌, ◌++◌, length,
  get_elem?, set, All, All-append, ap, arith,
}
use network_tftp_tftp_hpa.Packet.{Packet}
use network_tftp_tftp_hpa.Packet.Opcode
use network_tftp_tftp_hpa.Xfer.{ok, Wire}
use network_tftp_tftp_hpa.Xfer.Block.{next_block}
use network_tftp_tftp_hpa.Xfer.Send.{ReadOps}

-- The data bytes of packets.
abbrev pub payloads_of : List Packet → List (List ℕ)
payloads_of [] = []
payloads_of (p ∷ ps) = p.payload ∷ payloads_of ps

-- What a file adapter promises for a transfer. `Feeds ds s`: no window is held, and the packets
-- still to come have the data bytes `ds`. `Lends w ds s`: the packets `w` are held as a window, and
-- `ds` is to come behind it.
pub record ReadLaws {S : Type 0} (ops : ReadOps S) : Type 1 where
  pub Feeds : List (List ℕ) → S → Type 0
  pub Lends : List Packet → List (List ℕ) → S → Type 0
  pub window :
      (ds : List (List ℕ)) (s s' : S) (count : ℕ) (final : Bool)
      → Feeds ds s
      → ReadOps.read_window ops s ≡ ok (count, final) s'
      → (w : List Packet) × (rest : List (List ℕ)) × Lends w rest s'
        × (length w ≡ count)
        × (ds ≡ payloads_of w ++ rest)
        × (final ≡ true → rest ≡ [])
  pub packet :
      (w : List Packet) (rest : List (List ℕ)) (s s' : S) (n : ℕ) (p : Packet)
      → Lends w rest s
      → ReadOps.read_packet ops n s ≡ ok p s'
      → Lends w rest s' × (get_elem? w n ≡ some p)
  pub size :
      (w : List Packet) (rest : List (List ℕ)) (s : S) (n : ℕ) (p : Packet)
      → Lends w rest s
      → get_elem? w n ≡ some p
      → ReadOps.read_length ops n s ≡ ok (length p.payload + 4) s
  pub header :
      (w : List Packet) (rest : List (List ℕ)) (s : S) (n opcode block : ℕ) (p : Packet)
      → Lends w rest s
      → get_elem? w n ≡ some p
      → Lends
          (set w n (record p { opcode = opcode; block = block }))
          rest
          (ReadOps.stamp ops n opcode block s)
  pub release :
      (w : List Packet) (rest : List (List ℕ)) (s : S)
      → Lends w rest s
      → Feeds rest (ReadOps.read_release ops s)

-- A DATA packet.
abbrev pub data_packet : ℕ → List ℕ → Packet
data_packet block d = record { opcode = Opcode.block_data; block = block; payload = d }

-- The DATA packets for `ds`, numbered from `block` on.
unfoldable pub numbered : (rollover block : ℕ) → List (List ℕ) → List Packet
numbered rollover block [] = []
numbered rollover block (d ∷ ds) =
    data_packet block d ∷ numbered rollover (next_block block rollover) ds

-- The number behind `n` packets.
unfoldable pub block_after : (rollover block n : ℕ) → ℕ
block_after rollover block zero = block
block_after rollover block (suc n) = block_after rollover (next_block block rollover) n

-- Each packet as it is handed to send().
abbrev pub wires : List Packet → List Wire
wires [] = []
wires (p ∷ ps) = Wire.block p (length p.payload + 4) ∷ wires ps

-- A log with these packets sent on top of it; the newest comes first.
abbrev pub reversed : List Wire → List Wire → List Wire
reversed [] log = log
reversed (x ∷ xs) log = reversed xs (x ∷ log)

-- The number of data bytes.
abbrev pub total : List (List ℕ) → ℕ
total [] = 0
total (d ∷ ds) = length d + total ds

abbrev pub Among : Wire → List Wire → Type 0
Among x [] = ⊥
Among x (y ∷ ys) = (x ≡ y) ⊎ Among x ys

-- Every packet of the first list is in the second one.
abbrev pub Within : List Wire → List Wire → Type 0
Within xs ys = All (λ x. Among x ys) xs

pub numbered-append :
    (rollover block : ℕ) (ds es : List (List ℕ))
    → numbered rollover block (ds ++ es)
      ≡ numbered rollover block ds ++ numbered rollover (block_after rollover block (length ds)) es
unfolding numbered block_after
numbered-append rollover block [] es = refl
numbered-append rollover block (d ∷ ds) es =
    rw (numbered-append rollover (next_block block rollover) ds es) refl

pub wires-append : (ps qs : List Packet) → wires (ps ++ qs) ≡ wires ps ++ wires qs
wires-append [] qs = refl
wires-append (p ∷ ps) qs = rw (wires-append ps qs) refl

pub Among-append_left : (x : Wire) (ys zs : List Wire) → Among x ys → Among x (ys ++ zs)
Among-append_left x [] zs h = elim h [ ]
Among-append_left x (y ∷ ys) zs (inl e) = inl e
Among-append_left x (y ∷ ys) zs (inr h) = inr (Among-append_left x ys zs h)

pub Among-append_right : (x : Wire) (ys zs : List Wire) → Among x zs → Among x (ys ++ zs)
Among-append_right x [] zs h = h
Among-append_right x (y ∷ ys) zs h = inr (Among-append_right x ys zs h)

pub Among-reversed_old : (x : Wire) (ys log : List Wire) → Among x log → Among x (reversed ys log)
Among-reversed_old x [] log h = h
Among-reversed_old x (y ∷ ys) log h = Among-reversed_old x ys (y ∷ log) (inr h)

pub Among-reversed_new : (x : Wire) (ys log : List Wire) → Among x ys → Among x (reversed ys log)
Among-reversed_new x [] log h = elim h [ ]
Among-reversed_new x (y ∷ ys) log (inl e) = Among-reversed_old x ys (y ∷ log) (inl e)
Among-reversed_new x (y ∷ ys) log (inr h) = Among-reversed_new x ys (y ∷ log) h

-- All packets of a list stay within a list that grows.
pub Within-map :
    (xs ys zs : List Wire) → ((x : Wire) → Among x ys → Among x zs) → Within xs ys → Within xs zs
Within-map [] ys zs f h = tt
Within-map (x ∷ xs) ys zs f h = (f x h.0, Within-map xs ys zs f h.1)

pub Within-self : (xs : List Wire) → Within xs xs
Within-self [] = tt
Within-self (x ∷ xs) = (inl refl, Within-map xs xs (x ∷ xs) (λ y h. inr h) (Within-self xs))

pub Within-reversed :
    (xs log ys : List Wire) → Within xs ys → Within log ys → Within (reversed xs log) ys
Within-reversed [] log ys h k = k
Within-reversed (x ∷ xs) log ys h k = Within-reversed xs (x ∷ log) ys h.1 (h.0, k)

pub Within-append : (xs ys zs : List Wire) → Within xs zs → Within ys zs → Within (xs ++ ys) zs
Within-append xs ys zs = All-append (λ x. Among x zs) xs ys

pub length-numbered :
    (rollover block : ℕ) (ds : List (List ℕ)) → length (numbered rollover block ds) ≡ length ds
unfolding numbered
length-numbered rollover block [] = refl
length-numbered rollover block (d ∷ ds) =
    ap suc (length-numbered rollover (next_block block rollover) ds)

pub payloads_of-numbered :
    (rollover block : ℕ) (ds : List (List ℕ)) → payloads_of (numbered rollover block ds) ≡ ds
unfolding numbered
payloads_of-numbered rollover block [] = refl
payloads_of-numbered rollover block (d ∷ ds) =
    ap (λ l. d ∷ l) (payloads_of-numbered rollover (next_block block rollover) ds)

pub length-payloads_of : (ps : List Packet) → length (payloads_of ps) ≡ length ps
length-payloads_of [] = refl
length-payloads_of (p ∷ ps) = ap suc (length-payloads_of ps)

pub block_after-append :
    (rollover block : ℕ) (ds es : List (List ℕ))
    → block_after rollover block (length (ds ++ es))
      ≡ block_after rollover (block_after rollover block (length ds)) (length es)
unfolding block_after
block_after-append rollover block [] es = refl
block_after-append rollover block (d ∷ ds) es =
    block_after-append rollover (next_block block rollover) ds es

pub total-append : (ds es : List (List ℕ)) → total (ds ++ es) ≡ total ds + total es
total-append [] es = omega arith
total-append (d ∷ ds) es = omega (arith, total-append ds es)

pub Within-right : (xs ys zs : List Wire) → Within (xs ++ ys) zs → Within ys zs
Within-right [] ys zs h = h
Within-right (x ∷ xs) ys zs h = Within-right xs ys zs h.1
