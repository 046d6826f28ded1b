-- ===== src/Dma/Loopback/Laws.antt =====
-- The order in which the registers of both channels are written.
use rfsoc.Common.{ℕ, ◌/◌, ◌≡◌, refl, String, Option, none, some, [], ◌∷◌}
use rfsoc.Common.Program.{done, pure, ◌>>◌}
use rfsoc.Dma.Device.{
  Engine, Host, printf, mm2s_cr, mm2s_src_addr, mm2s_length, s2mm_cr, s2mm_dst_addr, s2mm_length,
}
use rfsoc.Dma.Status.{dma_s2mm_sync}
use rfsoc.Dma.Programs.{section}
use rfsoc.Dma.Programs.Laws.{recorded}
use rfsoc.Dma.Writes.{
  Writes, Writes->>=, Writes->>, Writes-printf, Writes-dma_set, Writes-dma_s2mm_status,
  Writes-dma_mm2s_status, Writes-dma_s2mm_sync, Writes-dma_mm2s_sync,
}
use rfsoc.Dma.Loopback.{both_sections, source_section, wait_both, transfer}

module _ (e : Engine) where
  Writes-section :
      (message : String) (register value : ℕ)
      → Writes e (section (recorded e) message register value) ((register / 4, value) ∷ [])
  unfolding section
  Writes-section message register value =
      Writes->> e (Writes-printf e message [])
        (Writes->> e (Writes-dma_set e register value) (Writes-dma_s2mm_status e))

  Writes-source_section :
      (message : String) (register value : ℕ)
      → Writes e (source_section (recorded e) message register value) ((register / 4, value) ∷ [])
  unfolding source_section
  Writes-source_section message register value =
      Writes->> e (Writes-printf e message [])
        (Writes->> e (Writes-dma_set e register value) (Writes-dma_mm2s_status e))

  Writes-both_sections :
      (message : String) (value : ℕ)
      → Writes e
          (both_sections (recorded e) message value)
          ((mm2s_cr / 4, value) ∷ (s2mm_cr / 4, value) ∷ [])
  unfolding both_sections
  Writes-both_sections message value = Writes->> e (Writes-printf e message []) (
      Writes->> e (Writes-dma_set e s2mm_cr value) (
        Writes->> e (Writes-dma_set e mm2s_cr value)
          (Writes->> e (Writes-dma_s2mm_status e) (Writes-dma_mm2s_status e))))

  -- After the first wait.
  Writes-second_wait :
      (fuel : ℕ) (r : Option ℕ)
      → Writes e {A = Option ℕ}
          (elim r [
            | none ↦ pure none
            | some status ↦ (do
              printf "Waiting for S2MM sychronization...\n" []
              dma_s2mm_sync (recorded e) fuel)
          ])
          []
  Writes-second_wait fuel none = record { run = λ h. (none, h, refl, refl) }
  Writes-second_wait fuel (some status) =
      Writes->> e (Writes-printf e _ []) (Writes-dma_s2mm_sync e fuel)

  Writes-wait_both : (fuel : ℕ) → Writes e (wait_both (recorded e) fuel) []
  unfolding wait_both
  Writes-wait_both fuel =
      Writes->> e (Writes-printf e "Waiting for MM2S synchronization...\n" [])
        (Writes->>= e (Writes-dma_mm2s_sync e fuel) (Writes-second_wait fuel))

  -- Whatever the engine answers, and however long it is waited for: up to the end of the waits the program
  -- writes the engine's registers ten times, in this order. Both channels are reset and halted, they are
  -- given the destination 0x0f000000 and the source 0x0e000000, both are started, and only then are the
  -- lengths written, that of the receiving channel first. The waits write nothing.
  pub transfer_writes :
      (fuel : ℕ) (h : Host (recorded e).State)
      → (r : Option ℕ) × (h' : Host (recorded e).State) × (transfer (recorded e) fuel h ≡ done r h')
        × (h'.engine.1
            ≡ (mm2s_length / 4, 32)
              ∷ (s2mm_length / 4, 32)
              ∷ (mm2s_cr / 4, 0xf001)
              ∷ (s2mm_cr / 4, 0xf001)
              ∷ (mm2s_src_addr / 4, 0x0e000000)
              ∷ (s2mm_dst_addr / 4, 0x0f000000)
              ∷ (mm2s_cr / 4, 0)
              ∷ (s2mm_cr / 4, 0)
              ∷ (mm2s_cr / 4, 4)
              ∷ (s2mm_cr / 4, 4)
              ∷ h.engine.1)
  unfolding transfer
  transfer_writes fuel h =
      let start =
        Writes->> e
          (Writes-section "Starting S2MM channel with all interrupts masked...\n" s2mm_cr 0xf001)
          (Writes->> e
            (Writes-source_section "Starting MM2S channel with all interrupts masked...\n" mm2s_cr
              0xf001)
            (Writes->> e (Writes-section "Writing S2MM transfer length...\n" s2mm_length 32) (
              Writes->> e (Writes-source_section "Writing MM2S transfer length...\n" mm2s_length 32)
                (Writes-wait_both fuel)))) in
      (Writes->> e (Writes-both_sections "Resetting DMA\n" 4) (
          Writes->> e (Writes-both_sections "Halting DMA\n" 0) (
            Writes->> e (Writes-section "Writing destination address\n" s2mm_dst_addr 0x0f000000) (
              Writes->> e
                (Writes-source_section "Writing source address...\n" mm2s_src_addr 0x0e000000)
                start)))).run
        h
