-- ===== src/Tests/Dma.antt =====
-- The `main` functions of projects/dma_loopback and projects/dma_lago on an engine that is complete at once.
use rfsoc.Common.{Option, true, List, ◌∷◌, ℕ, ◌≡◌, refl, some, []}
use rfsoc.Common.Program.{Outcome, done, exited, crashed}
use rfsoc.Dma.Device.{Engine, Host, dma_set, dma_get}
use rfsoc.Dma.Status.{
  dma_s2mm_sync, sync_round, sync_loop, dma_s2mm_status, dma_mm2s_status, status_words,
}
use rfsoc.Dma.Programs.{section, receive}
use rfsoc.Dma.Programs.Laws.{recorded}
use rfsoc.Dma.Loopback.{transfer}
use rfsoc.Dma.Loopback.Laws.{transfer_writes}
use rfsoc.Dma.Lago.{Platform, main}
use rfsoc.Dma.Lago.Laws.{released, dumped, main_prints_pairs}

abbrev ready : Engine
ready = record {
  State = ℕ;
  read = λ offset s. (0x1002, s);
  write = λ offset value s. value;
  ram = λ s a. s;
}

abbrev quiet : Host (ℕ × List (ℕ × ℕ))
quiet = record { engine = (0, []); console = [] }

transfer_writes_example :
    (r : Option ℕ) × (h' : Host (ℕ × List (ℕ × ℕ))) × (transfer (recorded ready) 9 quiet
      ≡ done r h')
    × (h'.engine.1
        ≡ (10, 32)
          ∷ (22, 32)
          ∷ (0, 0xf001)
          ∷ (12, 0xf001)
          ∷ (6, 0x0e000000)
          ∷ (18, 0x0f000000)
          ∷ (0, 0)
          ∷ (12, 0)
          ∷ (0, 4)
          ∷ (12, 4)
          ∷ [])
transfer_writes_example = transfer_writes ready 9 quiet

abbrev unstarted : Host ℕ
unstarted = record { engine = 0; console = [] }

abbrev left_by {ℓ} : {A : Type ℓ} → Outcome (Host ℕ) A → Host ℕ
left_by (done a h) = h
left_by (exited n h) = h
left_by crashed = unstarted

abbrev received : Host ℕ
received = left_by (receive ready 9 4096 unstarted)

receives : receive ready 9 4096 unstarted ≡ done (some 0x1002) received
unfolding receive section dma_set dma_s2mm_sync sync_loop sync_round dma_s2mm_status dma_mm2s_status
    dma_get status_words
receives = refl

abbrev everywhere : Platform
everywhere = record { maps = λ base. true; unmaps = λ base. true }

main_prints_pairs_example :
    main ready everywhere 9 unstarted
    ≡ released ready 0x0f000000 everywhere (dumped ready 0x0f000000 received)
main_prints_pairs_example =
    main_prints_pairs ready everywhere 9 0x1002 unstarted received refl refl receives
