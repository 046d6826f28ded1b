-- ===== src/Dma/Loopback.antt =====
-- The `main` of projects/dma_loopback/dma_test.c (dma_lauri/dma_test.c is the same text), which copies 32
-- bytes through both channels of the engine.
pub mod Laws
use rfsoc.Common.{
  ℕ, zero, suc, ◌+◌, ◌≡◌, String, Bool, true, false, Option, none, some, [], ◌∷◌, if◌then◌else◌,
  ◌&&◌,
}
use rfsoc.Common.Int.{ℤ, pos}
use rfsoc.Common.Program.{Outcome, done, crashed, pure, ◌>>=◌, ◌>>◌}
use rfsoc.Dma.Device.{
  Engine, Host, printf, dma_set, mm2s_cr, mm2s_src_addr, mm2s_length, s2mm_cr, s2mm_dst_addr,
  s2mm_length,
}
use rfsoc.Dma.Status.{dma_s2mm_status, dma_mm2s_status, dma_s2mm_sync, dma_mm2s_sync}
use rfsoc.Dma.Programs.{section, memdump}

-- `poke` is the processor's store of a byte at a physical address.
module _ (e : Engine) (poke : ℕ → ℕ → e.State → e.State) where
  store : ℕ → ℕ → Host e.State → Outcome (Host e.State) (Unit {0})
  store address byte h = done tt (record h { engine = poke address byte h.engine })

  -- `memset(p, 0, n)`, with `p` mapped at `base`.
  unfoldable pub clear : ℕ → ℕ → Host e.State → Outcome (Host e.State) (Unit {0})
  unfolding store
  clear base zero = pure tt
  clear base (suc n) = do store base 0; clear (suc base) n

  -- `virtual_source_address[0] = 0x11223344`.
  unfoldable pub write_source : Host e.State → Outcome (Host e.State) (Unit {0})
  unfolding store
  write_source = do
    store 0x0e000000 0x44
    store 0x0e000001 0x33
    store 0x0e000002 0x22
    store 0x0e000003 0x11

module _ (e : Engine) where
  -- A message, the control registers of both channels, and both of the statuses.
  unfoldable pub both_sections : String → ℕ → Host e.State → Outcome (Host e.State) (Unit {0})
  both_sections message value = do
    printf message []
    dma_set e s2mm_cr value
    dma_set e mm2s_cr value
    dma_s2mm_status e
    dma_mm2s_status e

  -- A message, a register of the channel that reads the memory, and its status.
  unfoldable pub source_section : String → ℕ → ℕ → Host e.State → Outcome (Host e.State) (Unit {0})
  source_section message register value = do
    printf message []
    dma_set e register value
    dma_mm2s_status e

  -- The two waits. `none` means that the fuel of one of them ran out.
  unfoldable pub wait_both : ℕ → Host e.State → Outcome (Host e.State) (Option ℕ)
  wait_both fuel = do
    printf "Waiting for MM2S synchronization...\n" []
    r ← dma_mm2s_sync e fuel
    elim r [
      | none ↦ pure none
      | some status ↦ (do printf "Waiting for S2MM sychronization...\n" []; dma_s2mm_sync e fuel)
    ]

  -- From "Resetting DMA" to the end of the waits.
  unfoldable pub transfer : ℕ → Host e.State → Outcome (Host e.State) (Option ℕ)
  transfer fuel = do
    both_sections "Resetting DMA\n" 4
    both_sections "Halting DMA\n" 0
    section e "Writing destination address\n" s2mm_dst_addr 0x0f000000
    source_section "Writing source address...\n" mm2s_src_addr 0x0e000000
    section e "Starting S2MM channel with all interrupts masked...\n" s2mm_cr 0xf001
    source_section "Starting MM2S channel with all interrupts masked...\n" mm2s_cr 0xf001
    section e "Writing S2MM transfer length...\n" s2mm_length 32
    source_section "Writing MM2S transfer length...\n" mm2s_length 32
    wait_both fuel

  unfoldable pub show : String → ℕ → Host e.State → Outcome (Host e.State) (Unit {0})
  show heading base = do printf heading []; memdump e base 32

-- `main`: which of the three mappings succeed is `maps`, and an access through one that fails crashes.
-- `none` means that the fuel of a wait ran out.
unfoldable pub main :
    (e : Engine)
    → (ℕ → ℕ → e.State → e.State)
    → (ℕ → Bool)
    → ℕ
    → Host e.State
    → Outcome (Host e.State) (Option ℤ)
main e poke maps fuel =
    if maps 0x0e000000 && (maps 0x0f000000 && maps 0x40000000)
    then (do
      write_source e poke
      clear e poke 0x0f000000 32
      show e "Source memory block:      " 0x0e000000
      show e "Destination memory block: " 0x0f000000
      r ← transfer e fuel
      elim r [
        | none ↦ pure none
        | some status ↦ (do
          dma_s2mm_status e
          dma_mm2s_status e
          show e "Destination memory block: " 0x0f000000
          pure (some (pos 0)))
      ])
    else (λ h. crashed)
