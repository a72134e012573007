-- ===== src/Io/Codec/RoundTrip.antt =====
-- The two halves of the codec in common/tftp-io.c against each other: what one side reads from its
-- file and what the other side writes to its own.
use network_tftp_tftp_hpa.Prelude.{ℕ, ◌≡◌, refl, false, List, [], ◌∷◌, arith}
use network_tftp_tftp_hpa.Io.Codec.Encode.Spec.{encode}
use network_tftp_tftp_hpa.Io.Codec.Decode.Spec.{decode, open_cr}

pub decode-encode : (bytes : List ℕ) → decode false (encode bytes) ≡ bytes
unfolding encode decode
decode-encode [] = refl
decode-encode (c ∷ cs) = ground (arith, decode-encode cs)

-- No CR is left over at the end.
pub open_cr-encode : (bytes : List ℕ) → open_cr false (encode bytes) ≡ false
unfolding encode open_cr
open_cr-encode [] = refl
open_cr-encode (c ∷ cs) = ground (arith, open_cr-encode cs)
