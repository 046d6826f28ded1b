-- ===== src/Lia.antt =====
-- The lock-in amplifier's command line program: projects/gen_test/src (copied unchanged to
-- rxchan16_test, txchan16_test and txchan16_test2), and what projects/rxchan16_test2/src changes.
pub mod Board
pub mod Registers
pub mod Init
pub mod Params
pub mod Main
