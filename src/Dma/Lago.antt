-- ===== src/Dma/Lago.antt =====
-- The memdump and the `main` of projects/dma_lago/dma_test.c, and the `main` of projects/dma_test/dma_test.c,
-- which maps 0x0f00000 for the destination and has the same text otherwise.
pub mod Laws
pub mod Short
use rfsoc.Common.{
  ℕ, zero, suc, ◌+◌, ◌*◌, ◌≡◌, Bool, true, false, Option, none, some, [], ◌∷◌, if◌then◌else◌, ◌&&◌,
}
use rfsoc.Common.Int.{ℤ, pos, signed16}
use rfsoc.Common.Memory.{load16}
use rfsoc.Common.Program.{Outcome, done, exited, crashed, int, pure, ◌>>=◌, ◌>>◌}
use rfsoc.Dma.Device.{Engine, Host, printf}
use rfsoc.Dma.Programs.{receive}

-- Which physical addresses map and can be unmapped, with the lengths that the program gives.
pub record Platform : Type 0 where
  pub maps : ℕ → Bool
  pub unmaps : ℕ → Bool

-- `if (munmap(...) == -1) { printf(...); exit(0); }`, of the mapping of `base`.
unfoldable pub unmap : {S : Type 0} → Platform → ℕ → Host S → Outcome (Host S) (Unit {0})
unmap p base =
    if p.unmaps base
    then pure tt
    else (do printf "Can't unmap memory from user space.\n" []; exited (pos 0))

module _ (e : Engine) where
  -- The body of memdump's loop, with `p` mapped at `base`.
  unfoldable pub print_pair : ℕ → ℕ → Host e.State → Outcome (Host e.State) (Unit {0})
  print_pair base i h =
      let m = e.ram h.engine in
      printf "%5d %5d\n"
        (int (signed16 (load16 m (base + 4 * i + 0)))
          ∷ int (signed16 (load16 m (base + 4 * i + 2)))
          ∷ [])
        h

  unfoldable pub pair_loop : ℕ → ℕ → ℕ → Host e.State → Outcome (Host e.State) (Unit {0})
  pair_loop base zero i = pure tt
  pair_loop base (suc n) i = do print_pair base i; pair_loop base n (suc i)

  unfoldable pub dump_pairs : ℕ → ℕ → Host e.State → Outcome (Host e.State) (Unit {0})
  dump_pairs base byte_count = pair_loop base byte_count 0

  -- The end of `main`, from the dump on, with the destination mapped from the address `base`.
  unfoldable pub show : ℕ → Platform → Host e.State → Outcome (Host e.State) (Option ℤ)
  show base p = do
    printf "Destination memory block: " []
    if p.maps base then dump_pairs base 4096 else (λ h. crashed)
    unmap p 0x40400000
    unmap p 0x0e000000
    unmap p base
    pure (some (pos 0))

  -- The first access to the registers crashes if they are not mapped; the source is mapped and never used.
  -- `none` means that the fuel of the wait ran out.
  unfoldable pub run : ℕ → Platform → ℕ → Host e.State → Outcome (Host e.State) (Option ℤ)
  run base p fuel =
      if p.maps 0x40400000
      then (do r ← receive e fuel 4096; elim r [ some status ↦ show base p | none ↦ pure none ])
      else (λ h. crashed)

  unfoldable pub main : Platform → ℕ → Host e.State → Outcome (Host e.State) (Option ℤ)
  main = run 0x0f000000

  -- `main` of dma_test.
  unfoldable pub main_test : Platform → ℕ → Host e.State → Outcome (Host e.State) (Option ℤ)
  main_test = run 0x0f00000
