-- ===== src/Client/Request.antt =====
-- tftp/tftp.c, makerequest(): the request that the client sends.
use network_tftp_tftp_hpa.Prelude.{
  ℕ, ◌+◌, Bool, true, false, not, Option, none, some, List, [], ◌∷◌, ◌++◌, ltb, ◌==◌, length,
  if◌then◌else◌,
}
use network_tftp_tftp_hpa.Packet.{segsize, max_segsize}
use network_tftp_tftp_hpa.Text.Decimal.{decimal}
use network_tftp_tftp_hpa.Daemon.Table.{blksize_name, tsize_name, windowsize_name}
use network_tftp_tftp_hpa.Client.{Optreq, optreq_init}

-- tsize >= 0
abbrev pub tsize_known : Option ℕ → Bool
tsize_known none = false
tsize_known (some n) = true

-- The options that are asked for: `max_blksize` is what tftp_max_blksize() gives, and `tsize` what
-- the caller has put into optreq.
unfoldable pub asked_for :
    (no_options : Bool) → (max_blksize max_windowsize : ℕ) → (tsize : Option ℕ) → Optreq
asked_for no_options max_blksize max_windowsize tsize = if no_options then optreq_init else record {
  has_blksize = not (max_blksize == segsize);
  has_window = ltb 1 max_windowsize;
  has_tsize = tsize_known tsize;
  window = if ltb 1 max_windowsize then max_windowsize else 1;
  blksize = max_blksize;
  tsize = tsize;
}

-- An option of optionbuf, if it is there.
abbrev pub entry : Bool → (name : List ℕ) → (value : ℕ) → (rest : List ℕ) → List ℕ
entry there name value rest = if there then name ++ 0 ∷ (decimal value ++ 0 ∷ rest) else rest

abbrev pub size_or_zero : Option ℕ → ℕ
size_or_zero none = 0
size_or_zero (some n) = n

-- optionbuf
unfoldable pub optionbuf : Optreq → List ℕ
optionbuf req = entry req.has_blksize blksize_name req.blksize (
    entry req.has_window windowsize_name req.window
      (entry req.has_tsize tsize_name (size_or_zero req.tsize) []))

-- makerequest: the bytes behind the opcode, or none for -1 with ENAMETOOLONG.
unfoldable pub makerequest : Optreq → (name mode : List ℕ) → Option (List ℕ)
unfolding optionbuf
makerequest req name mode =
    if ltb max_segsize ((length name + 1) + (length mode + 1) + length (optionbuf req))
    then none
    else some (name ++ 0 ∷ (mode ++ 0 ∷ optionbuf req))
