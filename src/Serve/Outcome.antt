-- ===== src/Serve/Outcome.antt =====
-- What becomes of the file of a write request.
use network_tftp_tftp_hpa.Prelude.{
  ℕ, ◌+◌, ◌≤◌, ◌<◌, ◌≡◌, ◌⊎◌, inl, inr, refl, sym, ap, subst, ◌∙◌, Bool, true, false, Option, none,
  some, List, [], length, arith, if◌then◌else◌, Bool-cases, Option-cases,
}
use network_tftp_tftp_hpa.Stdio.{Stream}
use network_tftp_tftp_hpa.Xfer.{Event, Wire, Result, Status, finished, Next, stop, wait, u64}
use network_tftp_tftp_hpa.Xfer.Receive.{Receiver, tftp_xfer_recv}
use network_tftp_tftp_hpa.Xfer.Receive.Timed.{Life, alive, timed_xfer_recv, timed_xfer_recv-alive}
use network_tftp_tftp_hpa.Xfer.Receive.Timed
use network_tftp_tftp_hpa.Xfer.Receive.Contract.{payloads, transferred, Ended}
use network_tftp_tftp_hpa.Io.{Io, tftp_io_writer_start}
use network_tftp_tftp_hpa.Io.Writer.{writer_ops}
use network_tftp_tftp_hpa.Io.Writer.Drain.{render}
use network_tftp_tftp_hpa.Upload.{upload_sound}
use network_tftp_tftp_hpa.Daemon.{Daemon}
use network_tftp_tftp_hpa.Errors.{system}
use network_tftp_tftp_hpa.Serve.{Heard, timer, nak, xfer_config}
use network_tftp_tftp_hpa.Serve.Writing.{
  Os, discard_upload, nak_of_write, is_ok, initial_reply, Served, underway, exited, served,
  finish_upload, unstarted, tftp_recvfile,
}

pub Next-cases :
    {S : Type 0} (n : Next S)
    → ((st : S) × (n ≡ wait st)) ⊎ ((r : Result) × (st : S) × (n ≡ stop r st))
Next-cases (wait st) = inl (st, refl)
Next-cases (stop r st) = inr (r, st, refl)

is_ok-finished : (s : Status) → is_ok s ≡ true → s ≡ finished
is_ok-finished Status.finished h = refl
is_ok-finished Status.send_error h = cc
is_ok-finished Status.recv_error h = cc
is_ok-finished Status.read_error h = cc
is_ok-finished Status.write_error h = cc
is_ok-finished Status.bad_data h = cc
is_ok-finished Status.size_exceeded h = cc
is_ok-finished Status.peer_error h = cc

Life-cases :
    {S : Type 0} (l : Life S)
    → ((st : S) × (l ≡ Timed.exited st))
      ⊎ ((st : S) × (l ≡ alive (wait st)))
      ⊎ ((r : Result) × (st : S) × (l ≡ alive (stop r st)))
Life-cases (alive (wait st)) = inr (inl (st, refl))
Life-cases (alive (stop r st)) = inr (inr (r, st, refl))
Life-cases (Timed.exited st) = inl (st, refl)

served-ne_exited : {s : Served} {c : List ℕ} → served s ≡ exited c → ⊥
served-ne_exited e = cc

served-ne_underway : {s : Served} {st : Receiver Io} → served s ≡ underway st → ⊥
served-ne_underway e = cc

served_inj : {s t : Served} → served s ≡ served t → s ≡ t
served_inj e = cc

-- The file is as it was before the upload: removed if it may be created, and empty if not.
abbrev pub untouched : (cancreate : Bool) → Option (List ℕ)
untouched cancreate = if cancreate then none else some []

module _ (os : Os) (flushed : os.fflush_errno ≡ 0) (truncated : os.ftruncate_errno ≡ 0)
    (unlinked : os.unlink_errno ≡ 0) where
  discard_upload-untouched :
      (cancreate : Bool) (content : List ℕ)
      → discard_upload os cancreate content ≡ untouched cancreate
  unfolding discard_upload
  discard_upload-untouched true content = ground arith
  discard_upload-untouched false content = ground arith

  finish_upload-failed :
      (cancreate : Bool) (r : Result) (content : List ℕ) (refusal : Option (List ℕ))
      (sent : List Wire) (last : Heard)
      → is_ok r.status ≡ false
      → (finish_upload os cancreate r content refusal sent last).content ≡ untouched cancreate
  unfolding finish_upload
  finish_upload-failed cancreate r content refusal sent last e =
      rw e (discard_upload-untouched cancreate content)

finish_upload-done :
    (os : Os) (cancreate : Bool) (r : Result) (content : List ℕ) (refusal : Option (List ℕ))
    (sent : List Wire) (last : Heard)
    → is_ok r.status ≡ true
    → ((finish_upload os cancreate r content refusal sent last).content ≡ some content)
      × ((finish_upload os cancreate r content refusal sent last).refusal ≡ refusal)
unfolding finish_upload
finish_upload-done os cancreate r content refusal sent last e = (rw e refl, refl)

nak_of_write-finished :
    (strerror : ℕ → List ℕ) (r : Result) → r.status ≡ finished → nak_of_write strerror r ≡ none
nak_of_write-finished strerror r e = rw e refl

-- The file holds the whole text of the packets that were awaited, and no error was sent; or it is
-- as it was before.
abbrev pub AllOrNothing :
    (cancreate convert : Bool) (d : Daemon) (max_upload : ℕ) → List Event → Served → Type 0
AllOrNothing cancreate convert d max_upload es s =
    let ps = transferred (xfer_config d max_upload) none es in
    ((s.content ≡ some (render convert (payloads ps)))
      × Ended d.segsize ps
      × (length (payloads ps) ≤ max_upload)
      × (s.refusal ≡ none))
    ⊎ (s.content ≡ untouched cancreate)

module _ (strerror : ℕ → List ℕ) (os : Os) (cancreate : Bool) (send_errno : List Wire → ℕ)
    (slots : ℕ) (file : Stream) (convert : Bool) (d : Daemon) (oack : Option (List ℕ))
    (max_upload : ℕ) (es : List Event) (last : Heard) (flushed : os.fflush_errno ≡ 0)
    (truncated : os.ftruncate_errno ≡ 0) (unlinked : os.unlink_errno ≡ 0) (fits : max_upload < u64)
    (empty : file.output ≡ []) where
  -- The transfer came to an end.
  after_transfer :
      (io : Io) (r : Result) (st : Receiver Io)
      → tftp_io_writer_start file convert slots d.segsize ≡ some io
      → tftp_xfer_recv writer_ops
          (xfer_config d max_upload)
          send_errno
          (d.segsize + 4)
          (some (initial_reply oack))
          none
          io
          es
        ≡ stop r st
      → AllOrNothing cancreate convert d max_upload es
          (finish_upload os cancreate r st.io.file.output (nak_of_write strerror r) st.sent last)
  after_transfer io r st start run = elim (Bool-cases (is_ok r.status)) [
    | inr failed ↦
        inr (finish_upload-failed os flushed truncated unlinked cancreate r _ _ _ _ failed)
    | inl done ↦
        let fin = is_ok-finished r.status done in
        let whole =
          upload_sound file convert slots (xfer_config d max_upload) send_errno (d.segsize + 4)
            (some (initial_reply oack)) none es io fits empty start run fin in
        let kept =
          finish_upload-done os cancreate r st.io.file.output (nak_of_write strerror r) st.sent last
            done in
        inl (
          kept.0 ∙ ap some whole.0,
          whole.5,
          omega (arith, whole.1, whole.2),
          kept.1 ∙ nak_of_write-finished strerror r fin,
        )
  ]

  tftp_recvfile-unstarted :
      tftp_io_writer_start file convert slots d.segsize ≡ none
      → tftp_recvfile strerror os cancreate send_errno slots file convert d oack max_upload es last
        ≡ served (
            finish_upload os cancreate
              (unstarted strerror os cancreate send_errno slots file convert d)
              file.output
              (some (nak strerror (system 22)))
              []
              last)
  unfolding tftp_recvfile
  tftp_recvfile-unstarted bad = ground (arith, bad)

  tftp_recvfile-stopped :
      (io : Io) (r : Result) (st : Receiver Io)
      → tftp_io_writer_start file convert slots d.segsize ≡ some io
      → timed_xfer_recv writer_ops
          (xfer_config d max_upload)
          send_errno
          (timer d.maxtimeout false)
          d.rexmtval
          (d.segsize + 4)
          (some (initial_reply oack))
          none
          io
          es
        ≡ alive (stop r st)
      → tftp_recvfile strerror os cancreate send_errno slots file convert d oack max_upload es last
        ≡ served
            (finish_upload os cancreate r st.io.file.output (nak_of_write strerror r) st.sent last)
  unfolding tftp_recvfile
  tftp_recvfile-stopped io r st start run = ground (arith, start, run)

  tftp_recvfile-waiting :
      (io : Io) (st : Receiver Io)
      → tftp_io_writer_start file convert slots d.segsize ≡ some io
      → timed_xfer_recv writer_ops
          (xfer_config d max_upload)
          send_errno
          (timer d.maxtimeout false)
          d.rexmtval
          (d.segsize + 4)
          (some (initial_reply oack))
          none
          io
          es
        ≡ alive (wait st)
      → tftp_recvfile strerror os cancreate send_errno slots file convert d oack max_upload es last
        ≡ underway st
  unfolding tftp_recvfile
  tftp_recvfile-waiting io st start run = ground (arith, start, run)

  tftp_recvfile-exited :
      (io : Io) (st : Receiver Io)
      → tftp_io_writer_start file convert slots d.segsize ≡ some io
      → timed_xfer_recv writer_ops
          (xfer_config d max_upload)
          send_errno
          (timer d.maxtimeout false)
          d.rexmtval
          (d.segsize + 4)
          (some (initial_reply oack))
          none
          io
          es
        ≡ Timed.exited st
      → tftp_recvfile strerror os cancreate send_errno slots file convert d oack max_upload es last
        ≡ exited st.io.file.output
  unfolding tftp_recvfile
  tftp_recvfile-exited io st start run = ground (arith, start, run)

  -- An upload into an empty file, whatever comes over the network. Timeouts may add up until
  -- timer() ends the process, which is the outcome `exited` with what the file holds by then; nothing is
  -- said of that. But if tftp_recvfile returns, either the file
  -- holds the whole text of exactly the packets that were awaited, no more than the limit, the last
  -- of them the only one that is not full, and no error was sent; or the file is as it was before,
  -- removed if it may be created and empty if not. The calls of discard_upload must succeed.
  pub tftp_recvfile-AllOrNothing :
      {s : Served}
      → tftp_recvfile strerror os cancreate send_errno slots file convert d oack max_upload es last
        ≡ served s
      → AllOrNothing cancreate convert d max_upload es s
  tftp_recvfile-AllOrNothing {s} e =
      let Goal = AllOrNothing cancreate convert d max_upload es in
      elim (Option-cases (tftp_io_writer_start file convert slots d.segsize)) [
        | inl bad ↦ subst Goal (served_inj (sym (tftp_recvfile-unstarted bad) ∙ e)) (
            inr (
              finish_upload-failed os flushed truncated unlinked cancreate
                (unstarted strerror os cancreate send_errno slots file convert d) file.output _ []
                last refl))
        | inr (io, start) ↦
            elim (Life-cases (
              timed_xfer_recv writer_ops (xfer_config d max_upload) send_errno
                (timer d.maxtimeout false) d.rexmtval (d.segsize + 4) (some (initial_reply oack))
                none io es)) [
                  | inl (st, run) ↦
                      let ended = tftp_recvfile-exited io st start run in
                      absurd (served-ne_exited (sym e ∙ ended))
                  | inr (inl (st, run)) ↦
                      let under = tftp_recvfile-waiting io st start run in
                      absurd (served-ne_underway (sym e ∙ under))
                  | inr (inr (r, st, run)) ↦
                      subst Goal (served_inj (sym (tftp_recvfile-stopped io r st start run) ∙ e)) (
                        after_transfer io r st start (
                          timed_xfer_recv-alive writer_ops (xfer_config d max_upload) send_errno
                            (timer d.maxtimeout false) d.rexmtval (d.segsize + 4)
                            (some (initial_reply oack)) none io es run))
                ]
      ]
