-- ===== src/Dma/Programs.antt =====
-- The `main` of projects/counter_dma/dma_test.c, with its memdump, and what the `main` of dma_test and
-- of dma_lago share with it.
pub mod Laws
pub mod Dump
use rfsoc.Common.{
  ℕ, zero, suc, ◌+◌, ◌%◌, ◌≡◌, String, Bool, true, false, Option, none, some, [], ◌∷◌, ◌==◌,
  if◌then◌else◌,
}
use rfsoc.Common.Int.{ℤ, pos}
use rfsoc.Common.Program.{Outcome, done, exited, crashed, int, pure, ◌>>=◌, ◌>>◌}
use rfsoc.Dma.Device.{Engine, Host, printf, dma_set, s2mm_cr, s2mm_dst_addr, s2mm_length}
use rfsoc.Dma.Status.{dma_s2mm_status, dma_s2mm_sync}

-- Which physical addresses map, with the lengths that the program gives, and whether the registers'
-- mapping can be released.
pub record Platform : Type 0 where
  pub maps : ℕ → Bool
  pub unmaps : Bool

module _ (e : Engine) where
  -- A message, a register and the status: what `main` does five times.
  unfoldable pub section : String → ℕ → ℕ → Host e.State → Outcome (Host e.State) (Unit {0})
  section message register value = do printf message []; dma_set e register value; dma_s2mm_status e

  -- From "Resetting DMA" to the wait. `none` means that the fuel of the wait ran out.
  unfoldable pub receive : ℕ → ℕ → Host e.State → Outcome (Host e.State) (Option ℕ)
  receive fuel length = do
    section "Resetting DMA\n" s2mm_cr 4
    section "Halting DMA\n" s2mm_cr 0
    section "Writing destination address\n" s2mm_dst_addr 0x0f000000
    section "Starting S2MM channel with all interrupts masked...\n" s2mm_cr 0xf001
    section "Writing S2MM transfer length...\n" s2mm_length length
    printf "Waiting for S2MM sychronization...\n" []
    dma_s2mm_sync e fuel

  -- `printf("%02x", p[offset]); if (offset % 4 == 3) printf(" ")`, with `p` mapped at `base`.
  print_byte : ℕ → ℕ → Host e.State → Outcome (Host e.State) (Unit {0})
  print_byte base offset h =
      (do
        printf "%02x" (int (pos (e.ram h.engine (base + offset))) ∷ [])
        if offset % 4 == 3 then printf " " [] else pure tt)
        h

  dump_loop : ℕ → ℕ → ℕ → Host e.State → Outcome (Host e.State) (Unit {0})
  unfolding print_byte
  dump_loop base zero offset = printf "\n" []
  dump_loop base (suc n) offset = do print_byte base offset; dump_loop base n (suc offset)

  unfoldable pub memdump : ℕ → ℕ → Host e.State → Outcome (Host e.State) (Unit {0})
  unfolding dump_loop
  memdump base byte_count = dump_loop base byte_count 0

  -- The end of `main`, from the dump on.
  unfoldable pub show_and_unmap : Platform → Host e.State → Outcome (Host e.State) (Option ℤ)
  show_and_unmap p = do
    printf "Destination memory block: " []
    if p.maps 0x0f00000 then memdump 0x0f00000 1024 else (λ h. crashed)
    if p.unmaps
        then pure (some (pos 0))
        else (do printf "Can't unmap memory from user space.\n" []; exited (pos 0))

  -- `main` of counter_dma. The first access to the registers crashes if they are not mapped; the
  -- source is mapped and never used. `none` means that the fuel of the wait ran out.
  unfoldable pub main : Platform → ℕ → Host e.State → Outcome (Host e.State) (Option ℤ)
  main p fuel =
      if p.maps 0x40400000
      then (do r ← receive fuel 1024; elim r [ some status ↦ show_and_unmap p | none ↦ pure none ])
      else (λ h. crashed)
