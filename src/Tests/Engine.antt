-- ===== src/Tests/Engine.antt =====
-- The DMA programs on small engines (projects/counter_dma/dma_test.c).
use rfsoc.Common.{
  Option, true, ◌<◌, List, ◌∷◌, ℕ, ◌+◌, ◌≡◌, refl, some, [], arith, ltb, if◌then◌else◌,
}
use rfsoc.Common.Program.{Outcome, done, exited, crashed}
use rfsoc.Dma.Device.{Engine, Host, s2mm_sr, dma_get}
use rfsoc.Dma.Status.{
  dma_s2mm_sync, sync_round, sync_loop, dma_s2mm_status, dma_mm2s_status, status_words,
}
use rfsoc.Common.Int.{pos}
use rfsoc.Dma.Programs.{Platform, receive, show_and_unmap}
use rfsoc.Dma.Programs.Laws.{recorded, receive_writes}
use rfsoc.Dma.Programs.Dump.{show_and_unmap_same}
use rfsoc.Dma.Status.Laws.{IsComplete, Settles, now, later, IsHalted, dma_s2mm_sync-Settles}

-- An engine that counts the reads, and is complete from the third one on.
abbrev counting : Engine
counting = record {
  State = ℕ;
  read = λ offset s. (if ltb s 2 then 0 else 0x1002, s + 1);
  write = λ offset value s. s;
  ram = λ s a. 0;
}

-- An engine that an error has halted.
abbrev stopped : Engine
stopped = record {
  State = Unit {0};
  read = λ offset s. (0x4041, s);
  write = λ offset value s. s;
  ram = λ s a. 0;
}

abbrev first : Host ℕ
first = record { engine = 0; console = [] }

abbrev second : Host ℕ
second = record { engine = 1; console = [] }

-- The state that a run leaves.
abbrev left_by {ℓ} : {A : Type ℓ} → Outcome (Host ℕ) A → Host ℕ
left_by (done a h) = h
left_by (exited n h) = h
left_by crashed = first

settles : Settles counting s2mm_sr 1 0
settles = later 0 0 (now 3 (refl, refl))

returned :
    dma_s2mm_sync counting 2 first ≡ done (some 0x1002) (left_by (dma_s2mm_sync counting 2 first))
unfolding dma_s2mm_sync sync_loop sync_round dma_s2mm_status dma_mm2s_status dma_get status_words
returned = refl

always_halted : IsHalted stopped s2mm_sr (λ s. Unit {0})
always_halted = record { stays = λ offset s x. x; lacks = λ s x. refl }

dma_s2mm_sync-Settles_example :
    (status : ℕ) × (h' : Host ℕ) × (dma_s2mm_sync counting 2 first ≡ done (some status) h')
    × IsComplete status
dma_s2mm_sync-Settles_example = dma_s2mm_sync-Settles counting 2 1 first settles (omega arith)

receive_writes_example :
    (r : Option ℕ) × (h' : Host (ℕ × List (ℕ × ℕ))) × (receive
        (recorded counting)
        9
        1024
        (record { engine = (0, []); console = [] })
      ≡ done r h')
    × (h'.engine.1 ≡ (22, 1024) ∷ (12, 0xf001) ∷ (18, 0x0f000000) ∷ (12, 0) ∷ (12, 4) ∷ [])
receive_writes_example = receive_writes counting 9 1024 (record { engine = (0, []); console = [] })

-- An engine whose state is what it has put from 0x0f000000 on.
abbrev filling : Engine
filling = record {
  State = ℕ;
  read = λ offset s. (0x1002, s);
  write = λ offset value s. s;
  ram = λ s a. if ltb a 0x0f000000 then 7 else s;
}

abbrev everywhere : Platform
everywhere = record { maps = λ base. true; unmaps = true }

low_same : (a : ℕ) → a < 0x0f000000 → filling.ram 1 a ≡ filling.ram 2 a
low_same a h = ground arith

show_and_unmap_same_example :
    (t t' : Host ℕ) × (show_and_unmap filling everywhere (record { engine = 1; console = [] })
      ≡ done (some (pos 0)) t)
    × (show_and_unmap filling everywhere (record { engine = 2; console = [] })
        ≡ done (some (pos 0)) t')
    × (t.console ≡ t'.console)
show_and_unmap_same_example =
    show_and_unmap_same filling everywhere (record { engine = 1; console = [] })
      (record { engine = 2; console = [] }) refl refl refl low_same
