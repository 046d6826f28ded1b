-- ===== src/Dma/Writes.antt =====
-- Programs of the DMA engine by what they write to its registers, whatever the engine answers.
use rfsoc.Common.{ℕ, ◌/◌, ◌≡◌, ◌∙◌, refl, sym, ap, String, List, [], ◌∷◌, ◌++◌}
use mathlib.Core.List.{append_assoc}
use rfsoc.Common.Program.{Outcome, done, Arg, >>=-done, ◌>>=◌, ◌>>◌}
use rfsoc.Dma.Device.{Engine, Host, printf, dma_set, s2mm_sr, mm2s_sr}
use rfsoc.Dma.Status.{dma_s2mm_status, dma_mm2s_status, dma_s2mm_sync, dma_mm2s_sync, sync}
use rfsoc.Dma.Status.Laws.{print_status_lem}
use rfsoc.Dma.Programs.Laws.{recorded, sync_keeps}

module _ (e : Engine) where
  -- It returns, and writes these registers, the last one first.
  pub record Writes {ℓ} {A : Type ℓ}
      (m : Host (recorded e).State → Outcome (Host (recorded e).State) A) (ws : List (ℕ × ℕ))
      : Type ℓ where
    pub run :
        (h : Host (recorded e).State)
        → (a : A) × (h' : Host (recorded e).State) × (m h ≡ done a h')
          × (h'.engine.1 ≡ ws ++ h.engine.1)

  pub Writes->>= {ℓ κ} :
      {A : Type ℓ} {B : Type κ} {m : Host (recorded e).State → Outcome (Host (recorded e).State) A}
      {f : A → Host (recorded e).State → Outcome (Host (recorded e).State) B} {ws vs : List (ℕ × ℕ)}
      → Writes m ws
      → ((a : A) → Writes (f a) vs)
      → Writes (m >>= f) (vs ++ ws)
  Writes->>= {m = m} {f = f} {ws = ws} {vs = vs} w v = record {
    run = λ h.
        let (a, h1, p, q) = w.run h in
        let (b, h2, r, s) = (v a).run h1 in
        (b, h2, >>=-done m f p ∙ r, s ∙ rw q (sym (append_assoc vs ws h.engine.1)));
  }

  pub Writes->> {ℓ κ} :
      {A : Type ℓ} {B : Type κ} {m : Host (recorded e).State → Outcome (Host (recorded e).State) A}
      {k : Host (recorded e).State → Outcome (Host (recorded e).State) B} {ws vs : List (ℕ × ℕ)}
      → Writes m ws
      → Writes k vs
      → Writes (m >> k) (vs ++ ws)
  Writes->> w v = Writes->>= w (λ a. v)

  pub Writes-printf : (format : String) (args : List Arg) → Writes (printf format args) []
  Writes-printf format args = record { run = λ h. (tt, _, refl, refl) }

  pub Writes-dma_set :
      (offset value : ℕ) → Writes (dma_set (recorded e) offset value) ((offset / 4, value) ∷ [])
  unfolding dma_set
  Writes-dma_set offset value = record { run = λ h. (tt, _, refl, refl) }

  pub Writes-dma_s2mm_status : Writes (dma_s2mm_status (recorded e)) []
  unfolding dma_s2mm_status
  Writes-dma_s2mm_status = record {
    run = λ h.
        let (h', p, q) =
          print_status_lem (recorded e) "Stream to memory-mapped status (0x%08x@0x%02x):" s2mm_sr
            h in
        (tt, h', p, ap (λ x. x.1) q);
  }

  pub Writes-dma_mm2s_status : Writes (dma_mm2s_status (recorded e)) []
  unfolding dma_mm2s_status
  Writes-dma_mm2s_status = record {
    run = λ h.
        let (h', p, q) =
          print_status_lem (recorded e) "Memory-mapped to stream status (0x%08x@0x%02x):" mm2s_sr
            h in
        (tt, h', p, ap (λ x. x.1) q);
  }

  pub Writes-dma_s2mm_sync : (fuel : ℕ) → Writes (dma_s2mm_sync (recorded e) fuel) []
  unfolding dma_s2mm_sync sync
  Writes-dma_s2mm_sync fuel = record { run = sync_keeps e s2mm_sr fuel }

  pub Writes-dma_mm2s_sync : (fuel : ℕ) → Writes (dma_mm2s_sync (recorded e) fuel) []
  unfolding dma_mm2s_sync sync
  Writes-dma_mm2s_sync fuel = record { run = sync_keeps e mm2s_sr fuel }
