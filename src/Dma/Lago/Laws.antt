-- ===== src/Dma/Lago/Laws.antt =====
-- What dma_lago's dump shows, and how the program ends.
use rfsoc.Common.{
  ℕ, zero, suc, ◌+◌, ◌*◌, ◌≡◌, refl, inl, inr, true, Bool-cases, some, Option, List, [], ◌∷◌, ◌&&◌,
  if◌then◌else◌,
}
use rfsoc.Common.Int.{ℤ, pos, signed16}
use rfsoc.Common.Memory.{load16}
use rfsoc.Common.Program.{Outcome, done, exited, int, Line, pure, ◌>>=◌, ◌>>◌}
use rfsoc.Dma.Device.{Engine, Host}
use rfsoc.Dma.Programs.{receive}
use rfsoc.Dma.Lago.{Platform, unmap, print_pair, pair_loop, dump_pairs, show, run, main}

-- The line for the pair of samples `i` of a memory mapped at `base`.
abbrev pub pair_line : (ℕ → ℕ) → ℕ → ℕ → Line
pair_line m base i = record {
  format = "%5d %5d\n";
  args =
      int (signed16 (load16 m (base + 4 * i + 0)))
      ∷ int (signed16 (load16 m (base + 4 * i + 2)))
      ∷ [];
}

-- The lines of `n` pairs from `i` on, the newest first, before what was printed already.
abbrev pub pair_lines : (ℕ → ℕ) → ℕ → ℕ → ℕ → List Line → List Line
pair_lines m base zero i ls = ls
pair_lines m base (suc n) i ls = pair_lines m base n (suc i) (pair_line m base i ∷ ls)

module _ (e : Engine) where
  pair_loop_lem :
      (base n i : ℕ) (h : Host e.State)
      → pair_loop e base n i h
        ≡ done tt (record h { console = pair_lines (e.ram h.engine) base n i h.console })
  unfolding pair_loop print_pair
  pair_loop_lem base zero i h = refl
  pair_loop_lem base (suc n) i h = pair_loop_lem base n (suc i) _

  -- What the three unmaps and the return after them give.
  release : ℕ → Platform → Host e.State → Outcome (Host e.State) (Option ℤ)
  release base p = do unmap p 0x40400000; unmap p 0x0e000000; unmap p base; pure (some (pos 0))

  abbrev pub released : ℕ → Platform → Host e.State → Outcome (Host e.State) (Option ℤ)
  released base p h =
      if p.unmaps 0x40400000 && (p.unmaps 0x0e000000 && p.unmaps base)
      then done (some (pos 0)) h
      else exited (pos 0) (record h {
        console =
            record { format = "Can't unmap memory from user space.\n"; args = [] } ∷ h.console;
      })

  release_lem : (base : ℕ) (p : Platform) (h : Host e.State) → release base p h ≡ released base p h
  unfolding release unmap
  release_lem base p h = elim (Bool-cases (p.unmaps 0x40400000)) [
    | inl a ↦ elim (Bool-cases (p.unmaps 0x0e000000)) [
      | inl b ↦ elim (Bool-cases (p.unmaps base)) [
        | inl c ↦ rw (a, b, c) refl
        | inr c ↦ rw (a, b, c) refl
      ]
      | inr b ↦ rw (a, b) refl
    ]
    | inr a ↦ rw a refl
  ]

  -- What is printed and left after the dump, by the address that is mapped for the destination.
  abbrev pub dumped : ℕ → Host e.State → Host e.State
  dumped base h = record h {
    console =
        pair_lines (e.ram h.engine) base 4096 0
          (record { format = "Destination memory block: "; args = [] } ∷ h.console);
  }

  pub run_lem :
      (base : ℕ) (p : Platform) (fuel status : ℕ) (h h1 : Host e.State)
      → p.maps 0x40400000 ≡ true
      → p.maps base ≡ true
      → receive e fuel 4096 h ≡ done (some status) h1
      → run e base p fuel h ≡ released base p (dumped base h1)
  unfolding run show dump_pairs release
  run_lem base p fuel status h h1 m d r =
      let heading : Line = record { format = "Destination memory block: "; args = [] } in
      rw
        (
          m,
          ◌>>=◌,
          r,
          ◌>>◌,
          d,
          pair_loop_lem base 4096 0 (record h1 { console = heading ∷ h1.console }),
        )
        (release_lem base p _)

  -- If the registers and the destination map and the wait for the engine ends, the program prints a heading
  -- and 4096 lines, the line `i` with the two 16-bit samples at the addresses 0x0f000000 + 4 i and + 2 as
  -- the memory is then, and it returns 0 if all three mappings can be released; otherwise it prints one
  -- more line and exits with 0.
  pub main_prints_pairs :
      (p : Platform) (fuel status : ℕ) (h h1 : Host e.State)
      → p.maps 0x40400000 ≡ true
      → p.maps 0x0f000000 ≡ true
      → receive e fuel 4096 h ≡ done (some status) h1
      → main e p fuel h ≡ released 0x0f000000 p (dumped 0x0f000000 h1)
  unfolding main
  main_prints_pairs p fuel status h h1 m d r = run_lem 0x0f000000 p fuel status h h1 m d r
