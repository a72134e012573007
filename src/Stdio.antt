-- ===== src/Stdio.antt =====
-- What common/tftp-io.c uses of a stdio stream: getc, fread, putc, fwrite and fflush.
use network_tftp_tftp_hpa.Prelude.{
  ℕ, zero, suc, ◌≡◌, Bool, Option, none, some, List, [], ◌∷◌, ◌++◌, append_assoc, append-nil, ap,
  inl, inr, arith, ◌∙◌, Option-cases,
}

-- `input` is what is left to read; at its end the stream is at EOF, or in error if `read_error`.
-- `output` is what was written; the medium takes `room` more bytes, and then writes fail.
-- fflush() sets errno to `flush_errno`, and 0 is success.
pub record Stream : Type 0 where
  pub input : List ℕ
  pub read_error : Bool
  pub output : List ℕ
  pub room : ℕ
  pub flush_errno : ℕ

abbrev put_room : ℕ → ℕ → Stream → Option Stream
put_room zero c f = none
put_room (suc room) c f = some (record f { output = f.output ++ c ∷ []; room = room })

-- putc; `none` is EOF.
unfoldable pub putc : ℕ → Stream → Option Stream
putc c f = put_room f.room c f

-- fwrite of bytes; `none` if not all of them are written.
unfoldable pub fwrite : List ℕ → Stream → Option Stream
unfolding putc
fwrite [] f = some f
fwrite (c ∷ cs) f = elim (putc c f) [ none ↦ none | some f' ↦ fwrite cs f' ]

pub output-putc :
    (c : ℕ) (f : Stream) {f' : Stream} → putc c f ≡ some f' → f'.output ≡ f.output ++ c ∷ []
unfolding putc
output-putc c f h = ground arith

pub output-fwrite :
    (d : List ℕ) (f : Stream) {f' : Stream} → fwrite d f ≡ some f' → f'.output ≡ f.output ++ d
unfolding fwrite
output-fwrite [] f h = ground (arith, append-nil f.output)
output-fwrite (c ∷ cs) f {f'} h = elim (Option-cases (putc c f)) [
  | inl full ↦ absurd (no_room full)
  | inr (g, e) ↦
      output-fwrite cs g (rw (e, fwrite) at h)
      ∙ ap (λ o. o ++ cs) (output-putc c f e)
      ∙ append_assoc f.output (c ∷ []) cs
]
  where
    no_room : putc c f ≡ none → ⊥
    no_room e = cc (rw (e, fwrite) at h)
