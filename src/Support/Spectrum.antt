-- ===== src/Support/Spectrum.antt =====
-- A fading spectrum that is not implemented: where the CPU backend refuses it.
