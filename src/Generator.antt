-- ===== src/Generator.antt =====
-- src/tools/rtp_sender.cpp: the packet generator, with its WAV reader and its loop that drops and
-- reorders packets.
pub mod Args
pub mod Wav
pub mod Send
