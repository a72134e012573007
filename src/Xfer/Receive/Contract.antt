-- ===== src/Xfer/Receive/Contract.antt =====
-- What tftp_xfer_recv relies on in the file adapter, and which packets of a trace it should take.
use network_tftp_tftp_hpa.Prelude.{
  ℕ, ◌≡◌, ◌≢◌, ◌⊎◌, Option, none, some, List, [], ◌∷◌, ◌++◌, ◌==◌, ◌&&◌, length, if◌then◌else◌,
}
use network_tftp_tftp_hpa.Packet.{Packet}
use network_tftp_tftp_hpa.Packet.Opcode
use network_tftp_tftp_hpa.Xfer.{Config, ok, Event, datagram}
use network_tftp_tftp_hpa.Xfer.Block.{next_block}
use network_tftp_tftp_hpa.Xfer.Receive.{WriteOps}

-- What a file adapter promises for a transfer. `Accepts got s`: the data bytes published so far
-- are `got`. `Drained got s`: they are all handed to the file. `stored` is what the file holds, and
-- `render` the conversion that the adapter makes.
pub record WriteLaws {S : Type 0} (ops : WriteOps S) : Type 1 where
  pub Accepts : List ℕ → S → Type 0
  pub Drained : List ℕ → S → Type 0
  pub stored : S → List ℕ
  pub render : List ℕ → List ℕ
  pub reserve :
      (got : List ℕ) (s s' : S)
      → Accepts got s
      → WriteOps.write_reserve ops s ≡ ok tt s'
      → Accepts got s'
  pub publish :
      (got d : List ℕ) (s s' : S)
      → Accepts got s
      → WriteOps.write_publish ops d s ≡ ok tt s'
      → Accepts (got ++ d) s'
  pub drain :
      (got : List ℕ) (s s' : S)
      → Accepts got s
      → WriteOps.write_drain ops s ≡ ok tt s'
      → Accepts got s' × Drained got s'
  pub finish :
      (got : List ℕ) (s s' : S)
      → Drained got s
      → WriteOps.write_finish ops s ≡ ok tt s'
      → stored s' ≡ render got

-- The DATA packets of a trace that carry the awaited block number, up to the first that is not
-- full.
unfoldable pub in_sequence : (blocksize rollover next : ℕ) → List Event → List Packet
unfolding next_block
in_sequence bs ro next [] = []
in_sequence bs ro next (datagram p ∷ es) =
    let later = in_sequence bs ro (next_block next ro) es in
    let taken = p ∷ (if length p.payload == bs then later else []) in
    let skipped = in_sequence bs ro next es in
    if p.opcode == Opcode.block_data && p.block == next then taken else skipped
in_sequence bs ro next (_ ∷ es) = in_sequence bs ro next es

-- the data bytes of packets, in order
unfoldable pub payloads : List Packet → List ℕ
payloads [] = []
payloads (p ∷ ps) = p.payload ++ payloads ps

-- the number of the last of the packets, or `prev` if there is none
unfoldable pub last_block : ℕ → List Packet → ℕ
last_block prev [] = prev
last_block prev (p ∷ ps) = last_block p.block ps

-- a packet that is taken, and what follows it in the trace
abbrev pub after_first : Config → ℕ → Packet → List Event → List Packet
after_first cfg next p es =
    p
    ∷ (if length p.payload == cfg.blocksize
        then in_sequence cfg.blocksize cfg.rollover (next_block next cfg.rollover) es
        else [])

-- The packets that a transfer takes: DATA 1, if the request exchange has received it, and the
-- awaited packets of the trace.
abbrev pub transferred : Config → Option Packet → List Event → List Packet
transferred cfg none es = in_sequence cfg.blocksize cfg.rollover 1 es
transferred cfg (some p) es = after_first cfg 1 p es

-- Every packet is full but the last one, and there is a last one.
abbrev pub Ended : (blocksize : ℕ) → List Packet → Type 0
Ended bs [] = ⊥
Ended bs (p ∷ ps) = ((length p.payload ≢ bs) × (ps ≡ [])) ⊎ ((length p.payload ≡ bs) × Ended bs ps)
