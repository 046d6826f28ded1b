-- ===== src/Dma/Programs/Dump.antt =====
-- What counter_dma's dump shows.
use rfsoc.Common.{
  ℕ, zero, suc, ◌+◌, ◌%◌, ◌<◌, ◌≤◌, ◌≡◌, ◌∙◌, refl, ap, true, some, List, [], ◌∷◌, arith, ◌==◌,
  if◌then◌else◌,
}
use rfsoc.Common.Int.{pos}
use rfsoc.Common.Program.{done, int, Line, ◌>>=◌, ◌>>◌, >>=-done}
use rfsoc.Dma.Device.{Engine, Host}
use rfsoc.Dma.Programs.{Platform, print_byte, dump_loop, memdump, show_and_unmap}

-- The console after the dump of `n` bytes from `offset` on, of a memory mapped at `base`.
dumped : (ℕ → ℕ) → ℕ → ℕ → ℕ → List Line → List Line
dumped m base zero offset ls = record { format = "\n"; args = [] } ∷ ls
dumped m base (suc n) offset ls =
    let byte = record { format = "%02x"; args = int (pos (m (base + offset))) ∷ [] } ∷ ls in
    dumped m base n (suc offset)
      (if offset % 4 == 3 then record { format = " "; args = [] } ∷ byte else byte)

-- It depends on the bytes dumped only.
dumped_same :
    (m m' : ℕ → ℕ) (base n offset top : ℕ) (ls : List Line)
    → ((a : ℕ) → a < top → m a ≡ m' a)
    → base + offset + n ≤ top
    → dumped m base n offset ls ≡ dumped m' base n offset ls
unfolding dumped
dumped_same m m' base zero offset top ls same h = refl
dumped_same m m' base (suc n) offset top ls same h =
    let e : m (base + offset) ≡ m' (base + offset) = same (base + offset) (omega arith) in
    rw e (dumped_same m m' base n (suc offset) top _ same (omega arith))

module _ (e : Engine) where
  print_byte_lem :
      (base offset : ℕ) (h : Host e.State)
      → let byte =
          record { format = "%02x"; args = int (pos (e.ram h.engine (base + offset))) ∷ [] }
          ∷ h.console in
        print_byte e base offset h
        ≡ done tt (record h {
          console = if offset % 4 == 3 then record { format = " "; args = [] } ∷ byte else byte;
        })
  unfolding print_byte
  print_byte_lem base offset h = ground arith

  dump_loop_lem :
      (base n offset : ℕ) (h : Host e.State)
      → dump_loop e base n offset h
        ≡ done tt (record h { console = dumped (e.ram h.engine) base n offset h.console })
  unfolding dump_loop dumped
  dump_loop_lem base zero offset h = refl
  dump_loop_lem base (suc n) offset h =
      >>=-done (print_byte e base offset) (λ _. dump_loop e base n (suc offset))
        (print_byte_lem base offset h)
      ∙ dump_loop_lem base n (suc offset) _

  memdump_lem :
      (base n : ℕ) (h : Host e.State)
      → memdump e base n h
        ≡ done tt (record h { console = dumped (e.ram h.engine) base n 0 h.console })
  unfolding memdump
  memdump_lem base n h = dump_loop_lem base n 0 h

  show_and_unmap_lem :
      (p : Platform) (h : Host e.State)
      → p.maps 0x0f00000 ≡ true
      → p.unmaps ≡ true
      → show_and_unmap e p h
        ≡ done (some (pos 0)) (record h {
          console =
              dumped
                (e.ram h.engine)
                0x0f00000
                1024
                0
                (record { format = "Destination memory block: "; args = [] } ∷ h.console);
        })
  unfolding show_and_unmap
  show_and_unmap_lem p h m u =
      let heading : Line = record { format = "Destination memory block: "; args = [] } in
      let h1 : Host e.State = record h { console = heading ∷ h.console } in
      rw (m, ◌>>◌, ◌>>=◌, memdump_lem 0x0f00000 1024 h1, u)

  -- Two runs of counter_dma that reach the dump with the same output, and whose memories agree below
  -- 0x0f000000, print the same and return 0, if the destination maps and the registers' mapping can be
  -- released: what the memory holds from 0x0f000000 on is not shown.
  pub show_and_unmap_same :
      (p : Platform) (h h' : Host e.State)
      → p.maps 0x0f00000 ≡ true
      → p.unmaps ≡ true
      → h.console ≡ h'.console
      → ((a : ℕ) → a < 0x0f000000 → e.ram h.engine a ≡ e.ram h'.engine a)
      → (t t' : Host e.State) × (show_and_unmap e p h ≡ done (some (pos 0)) t)
        × (show_and_unmap e p h' ≡ done (some (pos 0)) t')
        × (t.console ≡ t'.console)
  show_and_unmap_same p h h' m u c same =
      let heading : Line = record { format = "Destination memory block: "; args = [] } in
      (
        _,
        _,
        show_and_unmap_lem p h m u,
        show_and_unmap_lem p h' m u,
        dumped_same (e.ram h.engine) (e.ram h'.engine) 0x0f00000 1024 0 0x0f000000
              (heading ∷ h.console) same (omega arith)
            ∙ ap (λ ls. dumped (e.ram h'.engine) 0x0f00000 1024 0 (heading ∷ ls)) c,
      )
