-- ===== src/Lia/Main/Once.antt =====
-- The check of `main` for the first access (projects/gen_test/src/lia_rp.c).
use rfsoc.Common.{
  true, ℕ, [], ◌∷◌, ◌≤◌, ◌≡◌, ◌≢◌, refl, inl, inr, ◌==◌, Bool-cases, if◌then◌else◌, arith, le→leb,
  ne→==,
}
use rfsoc.Common.Int.{pos}
use rfsoc.Common.Memory.{IsBytes, load32}
use rfsoc.Common.Program.{done, ◌>>=◌, ◌>>◌}
use rfsoc.Lia.Board.{cfg, mapped, Board}
use rfsoc.Lia.Board.Laws.{dev_read_lem}
use rfsoc.Lia.Registers.{Os}
use rfsoc.Lia.Init.{Libc, init_system}
use rfsoc.Lia.Init.Laws.{after_init, init_system_runs, init_system_lem}
use rfsoc.Lia.Main.{first_access}

abbrev pub announced : Board → Board
announced b = record b {
  console = record { format = "Initializing registers...\n"; args = [] } ∷ b.console;
}

module _ (os : Os) (c : Libc) where
  pub first_access_not_first :
      (b : Board) (size : ℕ)
      → b.ptr cfg ≡ mapped size
      → 20 ≤ size
      → load32 (b.mem cfg) 0 ≢ 0
      → first_access os c b ≡ done tt b
  unfolding first_access
  first_access_not_first b size p h ne =
      rw
        (
          dev_read_lem cfg 0 b (rw p (le→leb 4 size (omega arith))),
          ◌>>=◌,
          ne→== (load32 (b.mem cfg) 0) 0 ne,
        )
        refl

  pub first_access_first :
      (b : Board) (size : ℕ)
      → b.ptr cfg ≡ mapped size
      → 20 ≤ size
      → (load32 (b.mem cfg) 0 == 0) ≡ true
      → first_access os c b ≡ done tt (after_init c (announced b))
  unfolding first_access
  first_access_first b size p h z =
      rw
        (
          dev_read_lem cfg 0 b (rw p (le→leb 4 size (omega arith))),
          ◌>>=◌,
          z,
          ◌>>◌,
          init_system_runs c (announced b) size p h,
        )
        refl

  -- If the configuration registers are mapped over 20 bytes or more and hold bytes, the check returns, initialises the registers when the reset register reads 0 and does nothing
  -- otherwise, and leaves a value other than 0 in it. A second check, as in the next run of the program, then
  -- does nothing.
  pub first_access_once :
      (b : Board) (size : ℕ)
      → b.ptr cfg ≡ mapped size
      → 20 ≤ size
      → IsBytes (b.mem cfg)
      → (b' : Board) × (first_access os c b ≡ done tt b')
        × ((if load32 (b.mem cfg) 0 == 0 then init_system c (announced b) else done (pos 0) b)
            ≡ done (pos 0) b')
        × (load32 (b'.mem cfg) 0 ≢ 0)
        × (first_access os c b' ≡ done tt b')
  unfolding first_access
  first_access_once b size p h bytes = elim (Bool-cases (load32 (b.mem cfg) 0 == 0)) [
    | inr n ↦
        let ne : load32 (b.mem cfg) 0 ≢ 0 = λ z. ground arith in
        let stays = first_access_not_first b size p h ne in (b, stays, rw n refl, ne, stays)
    | inl y ↦
        let b' = after_init c (announced b) in
        let (b2, runs, kp, ki, x, f, bits, above, others) =
          init_system_lem c (announced b) size p h bytes in
        let same : b2 ≡ b' = ground (arith, runs, init_system_runs c (announced b) size p h) in
        let ne : load32 (b'.mem cfg) 0 ≢ 0 = λ z.
          let z2 : load32 (b2.mem cfg) 0 ≡ 0 = rw same z in
          omega (arith, bits 0 (omega arith), z2) in
        let first = first_access_first b size p h y in
        (
          b',
          first,
          rw y (init_system_runs c (announced b) size p h),
          ne,
          first_access_not_first b' size p h ne,
        )
  ]
