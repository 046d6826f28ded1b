-- ===== src/Tests.antt =====
-- Runs of the theorems at concrete inputs: gen_test's program on a board with 20 bytes of
-- configuration registers (projects/gen_test/src), the DMA programs on a small engine
-- (projects/counter_dma/dma_test.c), and the recorders (projects/adc_recorder and others).
mod Registers
mod Program
mod Runs
mod Engine
mod Recorder
mod Gpio
mod Stream
mod Dma
mod Buffers
mod Module
mod Uio
mod Client
mod Dac
mod Capture
