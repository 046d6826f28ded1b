-- ===== src/Dma.antt =====
-- The AXI DMA test programs: projects/counter_dma, dma_test, dma_lago, dma_lauri and dma_loopback,
-- each a dma_test.c. They share the register accesses, the status print and the two waiting loops. And
-- two programs of their own: dma_lauri/dma_test_h.c and the kernel module dma_loopback/axidma.c.
pub mod Device
pub mod Status
pub mod Programs
pub mod Writes
pub mod Loopback
pub mod Lago
pub mod Buffers
pub mod Module
pub mod Uio
