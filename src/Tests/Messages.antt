-- ===== src/Tests/Messages.antt =====
-- Error packets.
use network_tftp_tftp_hpa.Prelude.{ℕ, ◌≡◌, refl, false, true, some, List, [], ◌∷◌, ◌++◌, arith}
use network_tftp_tftp_hpa.Text.Codes.{codes}
use network_tftp_tftp_hpa.Errors.{
  error_packet, protocol, error_code, make_errpacket, errpkt_to_string,
}
use network_tftp_tftp_hpa.Errors.RoundTrip.{make_errpacket-errpkt_to_string}
use network_tftp_tftp_hpa.Errors.Controls.{errpkt_to_string-control}

abbrev no_text : ℕ → List ℕ
no_text e = []

make_errpacket-errpkt_to_string_example :
    errpkt_to_string true (make_errpacket no_text (protocol 8) (some (codes "bad value"))) []
    ≡ codes "options negotiation failure" ++ codes ": " ++ codes "bad value"
unfolding error_code
make_errpacket-errpkt_to_string_example =
    make_errpacket-errpkt_to_string no_text true (protocol 8) (codes "bad value") [] (λ e. cc)
      (ground arith) (omega arith) (λ n e. ground arith)

errpkt_to_string-control_example :
    errpkt_to_string false (error_packet 1 (codes "no" ++ 10 ∷ codes "file")) []
    ≡ codes "file not found" ++ codes ": " ++ (codes "no" ++ 10 ∷ codes "file") ++ codes "..."
errpkt_to_string-control_example =
    errpkt_to_string-control false 1 (codes "no") 10 (codes "file") [] (λ e. cc) (ground arith) refl
      (ground arith) (omega arith)

-- A packet without a message.
errpkt_to_string-empty :
    errpkt_to_string true (error_packet 1 []) [] ≡ codes "file not found:  (no message)"
unfolding errpkt_to_string
errpkt_to_string-empty = refl
