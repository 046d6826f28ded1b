-- ===== src/Dma/Programs/Laws.antt =====
-- The order in which the engine's registers are written.
use rfsoc.Common.{
  ℕ, zero, suc, ◌/◌, ◌≡◌, ◌∙◌, refl, ap, inl, inr, String, Option, none, some, List, [], ◌∷◌,
}
use rfsoc.Common.Program.{done, >>=-done, ◌>>=◌, ◌>>◌}
use rfsoc.Dma.Device.{Engine, Host, dma_set, dma_get, s2mm_cr, s2mm_sr, s2mm_dst_addr, s2mm_length}
use rfsoc.Dma.Status.{dma_s2mm_status, dma_s2mm_sync, sync_loop, sync_round, sync}
use rfsoc.Dma.Status.Laws.{
  IsComplete-or_IsBusy, sync_loop_complete, sync_loop_busy, sync_round_lem, print_status_lem,
}
use rfsoc.Dma.Programs.{section, receive}

-- An engine with a log of the writes, newest first, by word index.
abbrev pub recorded : Engine → Engine
recorded e = record {
  State = e.State × List (ℕ × ℕ);
  read = λ offset s. let (value, t) = e.read offset s.0 in (value, (t, s.1));
  write = λ offset value s. (e.write offset value s.0, (offset, value) ∷ s.1);
  ram = λ s. e.ram s.0;
}

module _ (e : Engine) where
  -- The waiting loop ends, or runs out of fuel, and writes nothing.
  sync_loop_keeps :
      (fuel register status : ℕ) (h : Host (recorded e).State)
      → (r : Option ℕ) × (h' : Host (recorded e).State) × (sync_loop
            (recorded e)
            fuel
            register
            status
            h
          ≡ done r h')
        × (h'.engine.1 ≡ h.engine.1)
  unfolding sync_loop
  sync_loop_keeps zero register status h = (none, h, refl, refl)
  sync_loop_keeps (suc fuel) register status h = elim (IsComplete-or_IsBusy status) [
    | inl c ↦ (some status, h, sync_loop_complete (recorded e) fuel register status h c, refl)
    | inr b ↦
        let (h1, p, q) = sync_round_lem (recorded e) register h in
        let (r, h2, s, t) = sync_loop_keeps fuel register _ h1 in
        (
          r,
          h2,
          sync_loop_busy (recorded e) fuel register status h b
              ∙ >>=-done (sync_round (recorded e) register) (sync_loop (recorded e) fuel register) p
              ∙ s,
          t ∙ ap (λ x. x.1) q,
        )
  ]

  section_lem :
      (message : String) (register value : ℕ) (h : Host (recorded e).State)
      → (h' : Host (recorded e).State) × (section (recorded e) message register value h
          ≡ done tt h')
        × (h'.engine.1 ≡ (register / 4, value) ∷ h.engine.1)
  unfolding section dma_s2mm_status dma_set
  section_lem message register value h =
      let (h', p, q) =
        print_status_lem (recorded e) "Stream to memory-mapped status (0x%08x@0x%02x):" s2mm_sr _ in
      (h', p, ap (λ x. x.1) q)

  -- Both waits, by the channel's status register.
  pub sync_keeps :
      (register fuel : ℕ) (h : Host (recorded e).State)
      → (r : Option ℕ) × (h' : Host (recorded e).State) × (sync (recorded e) fuel register h
          ≡ done r h')
        × (h'.engine.1 ≡ h.engine.1)
  unfolding sync dma_get
  sync_keeps register fuel h = sync_loop_keeps fuel register _ _

  -- Whatever the engine answers, and however long it is waited for: up to the wait the program writes
  -- the engine's registers five times, in this order. The channel is reset (4), halted (0), given the
  -- destination 0x0f000000 and started (0xf001), and only then is the length written. The wait writes
  -- nothing.
  pub receive_writes :
      (fuel length : ℕ) (h : Host (recorded e).State)
      → (r : Option ℕ) × (h' : Host (recorded e).State) × (receive (recorded e) fuel length h
          ≡ done r h')
        × (h'.engine.1
            ≡ (s2mm_length / 4, length)
              ∷ (s2mm_cr / 4, 0xf001)
              ∷ (s2mm_dst_addr / 4, 0x0f000000)
              ∷ (s2mm_cr / 4, 0)
              ∷ (s2mm_cr / 4, 4)
              ∷ h.engine.1)
  unfolding receive dma_s2mm_sync
  receive_writes fuel length h =
      let (h1, p1, q1) = section_lem "Resetting DMA\n" s2mm_cr 4 h in
      let (h2, p2, q2) = section_lem "Halting DMA\n" s2mm_cr 0 h1 in
      let (h3, p3, q3) = section_lem "Writing destination address\n" s2mm_dst_addr 0x0f000000 h2 in
      let (h4, p4, q4) =
        section_lem "Starting S2MM channel with all interrupts masked...\n" s2mm_cr 0xf001 h3 in
      let (h5, p5, q5) = section_lem "Writing S2MM transfer length...\n" s2mm_length length h4 in
      let (r, h6, p6, q6) = sync_keeps s2mm_sr fuel (record h5 {
        console =
            record { format = "Waiting for S2MM sychronization...\n"; args = [] } ∷ h5.console;
      }) in
      (r, h6, rw (◌>>◌, ◌>>=◌, p1, p2, p3, p4, p5, p6), q6 ∙ rw (q5, q4, q3, q2, q1) refl)
