-- ===== src/Dma/Uio/Crash.antt =====
-- When otro_dma.c crashes.
use rfsoc.Common.{
  ℕ, zero, suc, ◌≡◌, ◌↔◌, inl, inr, refl, true, false, Bool-cases, Option, none, some, arith, ltb,
  ◌==◌,
}
use rfsoc.Common.Int.{pos, ltb_ℤ}
use rfsoc.Common.Program.{crashed, ◌>>=◌, ◌>>◌}
use rfsoc.Dma.Device.{Engine, Host}
use rfsoc.Dma.Programs.Laws.{recorded}
use rfsoc.Dma.Uio.{Calls, Process, move_size, run_transfer, main}
use rfsoc.Dma.Uio.Laws.{beside_log, announced, Writes-fill, Writes-move, main_moves}

-- A `malloc` gives a null pointer, or the registers are not mapped.
pub data Faults (c : Calls) : Type 0 where
  no_source : c.out_buff ≡ 0 → Faults c
  no_registers : c.maps ≡ false → Faults c
  no_destination : c.in_buff ≡ 0 → Faults c

-- `fopen` crashes or gives a null pointer, or a fault comes after it.
pub data Fails (c : Calls) : Type 0 where
  no_mode : c.fopen ≡ none → Fails c
  no_file : c.fopen ≡ some 0 → Fails c
  faults : Faults c → Fails c

module _ (e : Engine) (p : Process e.State) where
  transfer_crashes :
      (c : Calls) (size_fd : ℕ) (h : Host (recorded e).State)
      → Faults c
      → run_transfer (recorded e) (beside_log p) c size_fd h ≡ crashed
  unfolding run_transfer
  transfer_crashes c size_fd h fault = elim (Bool-cases (size_fd == 0)) [
    | inl n ↦ rw n refl
    | inr y ↦ elim (Bool-cases (c.out_buff == 0)) [
      | inl a ↦ rw (y, a) refl
      | inr b ↦
          let (u, h2, r, w) = (Writes-fill e p c.out_buff move_size 0).run (announced c h) in
          elim (Bool-cases c.maps) [
            | inr m ↦ rw (y, b, ◌>>◌, ◌>>=◌, r, m) refl
            | inl m ↦
                let (v, h3, s, x) = (Writes-move e p c.out_buff c.in_buff).run h2 in
                elim fault [
                  | no_source z ↦ ground arith
                  | no_registers z ↦ ground arith
                  | no_destination z ↦
                      let i : (c.in_buff == 0) ≡ true = ground arith in
                      rw (y, b, ◌>>◌, ◌>>=◌, r, m, s, i) refl
                ]
          ]
    ]
  ]

  main-Faults :
      (c : Calls) (h : Host (recorded e).State) (f : Option ℕ)
      → c.fopen ≡ f
      → ltb_ℤ c.uio_fd (pos 0) ≡ false
      → Faults c
      → main (recorded e) (beside_log p) c h ≡ crashed
  unfolding main
  main-Faults c h none found opens fault = rw (opens, found) refl
  main-Faults c h (some size_fd) found opens fault =
      let z : ltb size_fd 0 ≡ false = ground arith in
      rw (opens, found, z) (transfer_crashes c size_fd h fault)

  main-Fails :
      (c : Calls) (h : Host (recorded e).State)
      → ltb_ℤ c.uio_fd (pos 0) ≡ false
      → Fails c
      → main (recorded e) (beside_log p) c h ≡ crashed
  unfolding main run_transfer
  main-Fails c h opens (no_mode n) = rw (opens, n) refl
  main-Fails c h opens (no_file n) = rw (opens, n) refl
  main-Fails c h opens (faults f) = main-Faults c h c.fopen refl opens f

  crash_has_cause :
      (c : Calls) (h : Host (recorded e).State) (f : Option ℕ)
      → c.fopen ≡ f
      → ltb_ℤ c.uio_fd (pos 0) ≡ false
      → main (recorded e) (beside_log p) c h ≡ crashed
      → Fails c
  crash_has_cause c h none found opens crash = no_mode found
  crash_has_cause c h (some zero) found opens crash = no_file found
  crash_has_cause c h (some (suc n)) found opens crash = elim (Bool-cases (c.out_buff == 0)) [
    | inl a ↦ faults (no_source (ground arith))
    | inr a ↦ elim (Bool-cases (c.in_buff == 0)) [
      | inl b ↦ faults (no_destination (ground arith))
      | inr b ↦ elim (Bool-cases c.maps) [
        | inr m ↦ faults (no_registers m)
        | inl m ↦
            let (h', ls, r, w, l) =
              main_moves e p c (suc n) h opens found (omega arith) (ground arith) (ground arith)
                m in
            ground (arith, r, crash)
      ]
    ]
  ]

  -- If the device opens, the program crashes in these cases and in no others: `fopen`, which gets a null
  -- pointer for the mode, crashes or gives a null pointer; one of the two `malloc`s gives a null pointer; or
  -- the registers are not mapped. The test `sizeFd < 0` prevents none of them.
  pub main_crashes :
      (c : Calls) (h : Host (recorded e).State)
      → ltb_ℤ c.uio_fd (pos 0) ≡ false
      → (main (recorded e) (beside_log p) c h ≡ crashed) ↔ Fails c
  main_crashes c h opens = (crash_has_cause c h c.fopen refl opens, main-Fails c h opens)
