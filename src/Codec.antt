-- ===== src/Codec.antt =====
-- The audio formats: G.711 companding (src/codec/G711.cpp) and the 8 kHz to 16 kHz upsampler
-- (src/codec/Resample.cpp).
pub mod G711
pub mod Resample
