-- ===== src/Dma/Status.antt =====
-- `dma_s2mm_status`, `dma_mm2s_status`, `dma_mm2s_sync` and `dma_s2mm_sync`
-- (projects/counter_dma/dma_test.c).
pub mod Laws
use rfsoc.Common.{
  ℕ, zero, suc, ◌^◌, ◌≡◌, String, Bool, true, false, not, ◌&&◌, ◌||◌, Option, some, none, List, [],
  ◌∷◌, ◌++◌, bit_and, ◌==◌, if◌then◌else◌,
}
use rfsoc.Common.Int.{pos}
use rfsoc.Common.Program.{Outcome, done, Arg, int, pure, ◌>>=◌, ◌>>◌}
use rfsoc.Dma.Device.{Engine, Host, dma_get, printf, s2mm_sr, mm2s_sr}

-- `status & mask` as a condition.
abbrev pub has : ℕ → ℕ → Bool
has status mask = not (bit_and status mask == 0)

-- `if (status & mask) printf(name)`.
abbrev pub flag : ℕ → ℕ → String → List String
flag status mask name = if has status mask then name ∷ [] else []

-- What is printed of a status word between its heading and the end of the line.
unfoldable pub status_words : ℕ → List String
status_words status =
    (if has status 0x00000001 then " halted" else " running")
    ∷ (flag status 0x00000002 " idle"
        ++ flag status 0x00000008 " SGIncld"
        ++ flag status 0x00000010 " DMAIntErr"
        ++ flag status 0x00000020 " DMASlvErr"
        ++ flag status 0x00000040 " DMADecErr"
        ++ flag status 0x00000100 " SGIntErr"
        ++ flag status 0x00000200 " SGSlvErr"
        ++ flag status 0x00000400 " SGDecErr"
        ++ flag status 0x00001000 " IOC_Irq"
        ++ flag status 0x00002000 " Dly_Irq"
        ++ flag status 0x00004000 " Err_Irq")

module _ (e : Engine) where
  print_words : List String → Host e.State → Outcome (Host e.State) (Unit {0})
  print_words [] = pure tt
  print_words (w ∷ ws) = do printf w []; print_words ws

  unfoldable pub print_status : String → ℕ → Host e.State → Outcome (Host e.State) (Unit {0})
  unfolding print_words
  print_status heading register = do
    status ← dma_get e register
    printf heading (int (pos status) ∷ int (pos register) ∷ [])
    print_words (status_words status)
    printf "\n" []

  unfoldable pub dma_s2mm_status : Host e.State → Outcome (Host e.State) (Unit {0})
  unfolding print_status
  dma_s2mm_status = print_status "Stream to memory-mapped status (0x%08x@0x%02x):" s2mm_sr

  unfoldable pub dma_mm2s_status : Host e.State → Outcome (Host e.State) (Unit {0})
  unfolding print_status
  dma_mm2s_status = print_status "Memory-mapped to stream status (0x%08x@0x%02x):" mm2s_sr

  -- The body of both waiting loops, ending with the next read of the channel's status.
  unfoldable pub sync_round : ℕ → Host e.State → Outcome (Host e.State) ℕ
  sync_round register = do dma_s2mm_status; dma_mm2s_status; dma_get e register

  -- `while (!(status & 1<<12) || !(status & 1<<1))`. `none` means that the fuel ran out.
  unfoldable pub sync_loop : ℕ → ℕ → ℕ → Host e.State → Outcome (Host e.State) (Option ℕ)
  sync_loop zero register status = pure none
  sync_loop (suc fuel) register status =
      let again = sync_round register >>= sync_loop fuel register in
      if not (has status 0x1000) || not (has status 0x2) then again else pure (some status)

  unfoldable pub sync : ℕ → ℕ → Host e.State → Outcome (Host e.State) (Option ℕ)
  sync fuel register = do status ← dma_get e register; sync_loop fuel register status

  -- The status with which the loop was left.
  unfoldable pub dma_mm2s_sync : ℕ → Host e.State → Outcome (Host e.State) (Option ℕ)
  unfolding sync
  dma_mm2s_sync fuel = sync fuel mm2s_sr

  unfoldable pub dma_s2mm_sync : ℕ → Host e.State → Outcome (Host e.State) (Option ℕ)
  unfolding sync
  dma_s2mm_sync fuel = sync fuel s2mm_sr
