-- ===== src/Tests/Lines.antt =====
-- Lines that a user types at the prompt of the client.
use network_tftp_tftp_hpa.Prelude.{◌≡◌, ◌↔◌, refl, true, false, [], ◌∷◌}
use network_tftp_tftp_hpa.Text.Codes.{codes}
use network_tftp_tftp_hpa.Daemon.Blksize.{below_mtu}
use network_tftp_tftp_hpa.Commands.{Handler, makeargv, getcmd, known, cmdtab, setwindowsize, cmd_of}
use network_tftp_tftp_hpa.Commands.Words.{makeargv-words}
use network_tftp_tftp_hpa.Commands.Found.{FirstMeant, getcmd_iff}
use network_tftp_tftp_hpa.Commands.Modes.{Options, modecmd, mode_octet, no_mode, modecmd_unknown}

two_words : makeargv (codes " get  a ") ≡ codes "get" ∷ codes "a" ∷ []
unfolding makeargv
two_words = refl

by_abbreviation : getcmd (codes "win") ≡ known (cmd_of (codes "win[dowsize]") setwindowsize)
unfolding getcmd
by_abbreviation = refl

makeargv-words_example : makeargv (codes " get  a ") ≡ codes "get" ∷ codes "a" ∷ []
makeargv-words_example =
    makeargv-words (b' ' ∷ []) (codes "get") ((b' ', b' ' ∷ [], codes "a") ∷ []) (b' ' ∷ [])
      (refl, tt) ((λ e. cc), (refl, (refl, (refl, tt))))
      ((refl, (refl, tt), ((λ e. cc), (refl, tt))), tt) (refl, tt)

getcmd_iff_example :
    (getcmd (codes "Mo") ≡ known (cmd_of (codes "m[ode]") Handler.modecmd))
    ↔ FirstMeant (codes "Mo") cmdtab (cmd_of (codes "m[ode]") Handler.modecmd)
getcmd_iff_example = getcmd_iff (codes "Mo") (cmd_of (codes "m[ode]") Handler.modecmd)

abbrev options : Options
options = record {
  mode = mode_octet;
  literal = false;
  tsize = true;
  no_options = false;
  trace = false;
  max_windowsize = 64;
  blksize = below_mtu 0;
}

modecmd_unknown_example :
    ((modecmd (codes "mode" ∷ codes "text" ∷ []) options).0 ≡ 0)
    × ((modecmd (codes "mode" ∷ codes "text" ∷ []) options).1 ≡ record options { mode = no_mode })
modecmd_unknown_example =
    modecmd_unknown (codes "mode") (codes "text") options
      ((λ e. cc), ((λ e. cc), ((λ e. cc), ((λ e. cc), ((λ e. cc), tt)))))
