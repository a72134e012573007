-- ===== src/Negotiation.antt =====
-- The client's request and the daemon's answer to it: makerequest() and parse_oack() of tftp/tftp.c
-- against tftp(), parse_option(), negotiate_options() and build_oack() of tftpd/tftpd.c.
pub mod Asked
pub mod Answered
pub mod Answers
pub mod Agreed
pub mod Rejected
