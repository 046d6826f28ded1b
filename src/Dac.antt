-- ===== src/Dac.antt =====
-- The two programs of projects/dac_player: dac-player.c and adc-recorder.c.
pub mod Factor
pub mod Player
pub mod Recorder
pub mod Capture
