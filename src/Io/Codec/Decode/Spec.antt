-- ===== src/Io/Codec/Decode/Spec.antt =====
-- What netascii decoding means for a byte sequence, and that the writing loop computes it.
use network_tftp_tftp_hpa.Prelude.{
  ℕ, ◌≡◌, refl, Bool, true, false, some, List, [], ◌∷◌, ◌++◌, append-nil, append_assoc, ◌==◌, take,
  if◌then◌else◌, arith, Option-cases, inl, inr, ap, ◌∙◌, Bool-cases,
}
use network_tftp_tftp_hpa.Stdio.{Stream, putc, output-putc, output-fwrite}
use network_tftp_tftp_hpa.Xfer.{ok}
use network_tftp_tftp_hpa.Io.{Io}
use network_tftp_tftp_hpa.Io.Codec.Decode.{put_next, netascii_write, octet_write, write_bytes}

-- What stands for a CR and the byte behind it.
abbrev pub after_cr : ℕ → List ℕ
after_cr c = if c == b'\n' then b'\n' ∷ [] else if c == 0 then b'\r' ∷ [] else b'\r' ∷ c ∷ []

-- The text for bytes in netascii, with a CR before them if `cr`.
unfoldable pub decode : (cr : Bool) → List ℕ → List ℕ
decode cr [] = []
decode true (c ∷ cs) = after_cr c ++ decode false cs
decode false (c ∷ cs) = if c == b'\r' then decode true cs else c ∷ decode false cs

-- Whether a CR is left over at the end.
unfoldable pub open_cr : (cr : Bool) → List ℕ → Bool
open_cr cr [] = cr
open_cr true (c ∷ cs) = open_cr false cs
open_cr false (c ∷ cs) = open_cr (c == b'\r') cs

pub decode-append :
    (cr : Bool) (a b : List ℕ) → decode cr (a ++ b) ≡ decode cr a ++ decode (open_cr cr a) b
unfolding decode open_cr
decode-append cr [] b = refl
decode-append true (c ∷ a) b = ground (
  arith,
  decode-append false a b,
  append_assoc (after_cr c) (decode false a) (decode (open_cr false a) b),
)
decode-append false (c ∷ a) b = ground (arith, decode-append true a b, decode-append false a b)

pub open_cr-append : (cr : Bool) (a b : List ℕ) → open_cr cr (a ++ b) ≡ open_cr (open_cr cr a) b
unfolding open_cr
open_cr-append cr [] b = refl
open_cr-append true (c ∷ a) b = open_cr-append false a b
open_cr-append false (c ∷ a) b = open_cr-append (c == b'\r') a b

-- The bytes that reach the file for packet data, and the CR that is held back, in either mode.
unfoldable pub rendered : (convert cr : Bool) → List ℕ → List ℕ
rendered true cr d = decode cr d
rendered false cr d = d

unfoldable pub held_cr : (convert cr : Bool) → List ℕ → Bool
held_cr true cr d = open_cr cr d
held_cr false cr d = cr

pub rendered-append :
    (convert cr : Bool) (a b : List ℕ)
    → rendered convert cr (a ++ b)
      ≡ rendered convert cr a ++ rendered convert (held_cr convert cr a) b
unfolding rendered held_cr
rendered-append true cr a b = decode-append cr a b
rendered-append false cr a b = refl

pub held_cr-append :
    (convert cr : Bool) (a b : List ℕ)
    → held_cr convert cr (a ++ b) ≡ held_cr convert (held_cr convert cr a) b
unfolding held_cr
held_cr-append true cr a b = open_cr-append cr a b
held_cr-append false cr a b = refl

-- A successful write of `d`: the text goes to the file, and nothing else changes.
pub record Written (text : List ℕ) (cr : Bool) (io io' : Io) : Type 0 where
  pub output : io'.file.output ≡ io.file.output ++ text
  pub write_cr : io'.write_cr ≡ cr
  pub frame : io' ≡ record io { file = io'.file; write_cr = io'.write_cr }

Written-refl : (io : Io) → Written [] io.write_cr io io
Written-refl io = record { output = rw append-nil; write_cr = refl; frame = refl }

abbrev Writes : List ℕ → Type 0
Writes cs =
    (b : Bool) (io io' : Io)
    → io.write_cr ≡ b
    → netascii_write cs io ≡ ok tt io'
    → Written (decode b cs) (open_cr b cs) io io'

-- One putc() in front of a write that succeeds.
put_next-Written :
    (c : ℕ) (cs : List ℕ) (io io' : Io)
    → Writes cs
    → put_next c (record io { write_cr = false }) (netascii_write cs) ≡ ok tt io'
    → Written (c ∷ decode false cs) (open_cr false cs) io io'
put_next-Written c cs io io' later h = elim (Option-cases (putc c io.file)) [
  | inl full ↦ cc (rw (full, put_next) at h)
  | inr (f, e) ↦
      after f e
        (later false (record io { file = f; write_cr = false }) io' refl (rw (e, put_next) at h))
]
  where
    after :
        (f : Stream)
        → putc c io.file ≡ some f
        → Written
            (decode false cs)
            (open_cr false cs)
            (record io { file = f; write_cr = false })
            io'
        → Written (c ∷ decode false cs) (open_cr false cs) io io'
    after f e w = record {
      output =
          w.output
          ∙ ap (λ o. o ++ decode false cs) (output-putc c io.file e)
          ∙ append_assoc io.file.output (c ∷ []) (decode false cs);
      write_cr = w.write_cr;
      frame = w.frame;
    }

-- A bare CR: it is written, and then the byte behind it.
bare_cr-Written :
    (c : ℕ) (cs : List ℕ) (io io' : Io)
    → Writes cs
    → put_next b'\r' io (λ io1. put_next c (record io1 { write_cr = false }) (netascii_write cs))
      ≡ ok tt io'
    → Written (b'\r' ∷ c ∷ decode false cs) (open_cr false cs) io io'
bare_cr-Written c cs io io' later h = elim (Option-cases (putc b'\r' io.file)) [
  | inl full ↦ cc (rw (full, put_next) at h)
  | inr (f, e) ↦
      after f e (put_next-Written c cs (record io { file = f }) io' later (rw (e, put_next) at h))
]
  where
    after :
        (f : Stream)
        → putc b'\r' io.file ≡ some f
        → Written (c ∷ decode false cs) (open_cr false cs) (record io { file = f }) io'
        → Written (b'\r' ∷ c ∷ decode false cs) (open_cr false cs) io io'
    after f e w = record {
      output =
          w.output
          ∙ ap (λ o. o ++ c ∷ decode false cs) (output-putc b'\r' io.file e)
          ∙ append_assoc io.file.output (b'\r' ∷ []) (c ∷ decode false cs);
      write_cr = w.write_cr;
      frame = w.frame;
    }

netascii_write-Written : (d : List ℕ) → Writes d
unfolding netascii_write decode open_cr
netascii_write-Written [] b io io' e h = ground (arith, Written-refl io)
netascii_write-Written (c ∷ cs) true io io' e h = ground (
  arith,
  put_next-Written c cs io io' (netascii_write-Written cs),
  put_next-Written b'\r' cs io io' (netascii_write-Written cs),
  bare_cr-Written c cs io io' (netascii_write-Written cs),
)
netascii_write-Written (c ∷ cs) false io io' e h = elim (Bool-cases (c == b'\r')) [
  | inl cr ↦ rw cr (held (netascii_write-Written cs true _ io' refl (rw (e, cr) at h)))
  | inr plain ↦
      rw plain (put_next-Written c cs io io' (netascii_write-Written cs) (rw (e, plain) at h))
]
  where
    held :
        {text : List ℕ} {cr : Bool}
        → Written text cr (record io { write_cr = true }) io'
        → Written text cr io io'
    held w = record { output = w.output; write_cr = w.write_cr; frame = w.frame }

-- What a successful write of `n` bytes of a packet's data does, in either mode.
pub write_bytes-Written :
    (d : List ℕ) (n : ℕ) (io io' : Io)
    → write_bytes d n io ≡ ok tt io'
    → Written
        (rendered io.convert io.write_cr (take n d))
        (held_cr io.convert io.write_cr (take n d))
        io
        io'
unfolding write_bytes octet_write rendered held_cr
write_bytes-Written d n io io' h = ground (
  arith,
  netascii_write-Written (take n d) io.write_cr io io',
  output-fwrite (take n d) io.file {f' = io'.file},
)
