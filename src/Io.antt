-- ===== src/Io.antt =====
-- common/tftp-io.c in its unthreaded mode: the packet ring between the transfer engine and a file.
pub mod Codec
pub mod Reader
pub mod Writer
use network_tftp_tftp_hpa.Prelude.{
  ℕ, ◌+◌, Bool, false, ◌||◌, Option, none, List, [], ltb, ◌==◌, get_or, replicate, if◌then◌else◌,
  some,
}
use network_tftp_tftp_hpa.Packet.{Packet}
use network_tftp_tftp_hpa.Stdio.{Stream}

-- enum slot_state
pub data SlotState : Type 0 where
  empty reserved ready writing : SlotState

-- enum io_direction
pub data Direction : Type 0 where
  read write : Direction

-- struct tftp_io without the fields of the threaded mode. `convert` selects netascii_io_ops, and
-- `prevchar` is none for -1.
pub record Io : Type 0 where
  pub file : Stream
  pub convert : Bool
  pub packets : List Packet
  pub lengths : List ℕ
  pub states : List SlotState
  pub slots : ℕ
  pub window : ℕ
  pub blocksize : ℕ
  pub head : ℕ
  pub tail : ℕ
  pub count : ℕ
  pub held : ℕ
  pub error : ℕ
  pub eof : Bool
  pub newline : Bool
  pub prevchar : Option ℕ
  pub write_cr : Bool

abbrev pub blank : Packet
blank = record { opcode = 0; block = 0; payload = [] }

unfoldable pub io_next : ℕ → ℕ → ℕ
io_next slots n = if n + 1 == slots then 0 else n + 1

-- the packet in a slot
abbrev pub io_packet : Io → ℕ → Packet
io_packet io n = get_or io.packets n blank

-- The first error is kept; errno 0 counts as EIO.
unfoldable pub io_error : Io → ℕ → Io
io_error io e = if io.error == 0 then record io { error = if e == 0 then 5 else e } else io

-- io_start with threaded == false; `none` is NULL with EINVAL.
unfoldable pub io_start : Stream → Bool → (slots window blocksize : ℕ) → Direction → Option Io
io_start file convert slots window blocksize direction =
    let too_small : Bool = elim direction [ read ↦ ltb slots window | write ↦ false ] in
    if slots == 0 || blocksize == 0 || too_small
    then none
    else some (record {
      file = file;
      convert = convert;
      packets = replicate slots blank;
      lengths = replicate slots 0;
      states = elim direction [ read ↦ [] | write ↦ replicate slots empty ];
      slots = slots;
      window = window;
      blocksize = blocksize;
      head = 0;
      tail = 0;
      count = 0;
      held = 0;
      error = 0;
      eof = false;
      newline = false;
      prevchar = none;
      write_cr = false;
    })

unfoldable pub tftp_io_reader_start : Stream → Bool → (window slots blocksize : ℕ) → Option Io
tftp_io_reader_start file convert window slots blocksize =
    io_start file convert slots window blocksize read

unfoldable pub tftp_io_writer_start : Stream → Bool → (slots blocksize : ℕ) → Option Io
tftp_io_writer_start file convert slots blocksize = io_start file convert slots 0 blocksize write
