-- ===== src/Dac/Factor.antt =====
-- The argument of both programs and the register that takes it (projects/dac_player/dac-player.c; in
-- projects/dac_player/adc-recorder.c the register is at 4).
use rfsoc.Common.{
  ℕ, ◌+◌, ◌-◌, ◌%◌, ◌^◌, ◌≤◌, ◌≡◌, ◌||◌, ◌&&◌, ◌∙◌, Bool, Option, none, some, ◌==◌, if◌then◌else◌,
  arith,
}
use rfsoc.Common.Int.{ℤ, pos, negsuc, pos_part, ltb_ℤ}
use rfsoc.Common.Memory.{Memory, load16, store16, load16-store16}
use rfsoc.Common.Text.{Text}

-- What `strtol` gives for a text: the number, whether it sets `errno`, and whether it reads nothing.
pub record Strtol : Type 0 where
  pub number : ℤ
  pub sets_errno : Bool
  pub reads_nothing : Bool

-- The number, or none for the usage message. With a wrong number of arguments `strtol` is not called, and
-- the number -1 is refused whatever `end` holds.
unfoldable pub factor : (Text → Strtol) → ℕ → Text → Option ℤ
factor strtol argc argv1 =
    let s = strtol argv1 in
    let number = if argc == 3 then s.number else negsuc 0 in
    if (argc == 3 && (s.sets_errno || s.reads_nothing))
      || ltb_ℤ number (pos 10)
      || ltb_ℤ (pos 65535) number
    then none
    else some number

-- `*((uint16_t *)(cfg + offset)) = (uint16_t)number - 1`, for a number that is not negative.
unfoldable pub set_factor : ℕ → ℤ → Memory → Memory
set_factor offset number cfg =
    store16 cfg offset ((pos_part number % 2 ^ 16 + (2 ^ 16 - 1)) % 2 ^ 16)

-- A factor that is accepted is between 10 and 65535.
pub factor-bounds :
    (strtol : Text → Strtol) (argc : ℕ) (argv1 : Text) (number : ℤ)
    → factor strtol argc argv1 ≡ some number
    → (argc ≡ 3) × ((n : ℕ) × (number ≡ pos n) × (10 ≤ n) × (n ≤ 65535))
unfolding factor
factor-bounds strtol argc argv1 number h = ground arith

-- The register then holds one less.
pub set_factor_lem :
    (offset n : ℕ) (cfg : Memory)
    → 10 ≤ n
    → n ≤ 65535
    → load16 (set_factor offset (pos n) cfg) offset ≡ n - 1
unfolding set_factor
set_factor_lem offset n cfg low high = load16-store16 cfg offset _ (omega arith) ∙ omega arith
