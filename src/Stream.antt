-- ===== src/Stream.antt =====
-- The programs that stream ADC samples: a child process copies the halves of a ring of RAM into a shared
-- buffer, and its parent sends them on (projects/adc_test/server/adc-test-server.c and
-- projects/dac_player/adc-recorder.c).
pub mod Child
pub mod Server
pub mod Client
