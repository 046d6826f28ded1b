-- ===== src/Lia/Init.antt =====
-- `init_system` and the setters of zynq_io.c (projects/gen_test/src/zynq_io.c), and the
-- `init_system` of projects/rxchan16_test2/src/zynq_io.c.
pub mod Laws
pub mod Samples
use rfsoc.Common.{ℕ, if◌then◌else◌, ◌*◌, Bool, [], ◌∷◌, bit_and, bit_or}
use rfsoc.Common.Int.{ℤ, pos, signed32, word32, is_int32}
use rfsoc.Common.Bits.{not32}
use rfsoc.Common.Text.{Text}
use rfsoc.Common.Program.{Outcome, int, str, scaled, pure, ◌>>=◌, ◌>>◌}
use rfsoc.Lia.Board.{cfg, Board, dev_read, dev_write, printf}
use rfsoc.Lia.Registers.{
  cfg_reset_gral_offset, cfg_kp_offset, cfg_ki_offset, cfg_x_value_offset, cfg_f_value_offset,
}

-- The arithmetic of `float` and the C library's conversions.
pub record Libc : Type 1 where
  pub Float : Type 0
  -- The `float` nearest to `n / 10 ^ k`.
  pub literal : ℕ → ℕ → Float
  -- The integer part of the `float` nearest to `value * pow(2, k)`; of an infinity or a NaN, an
  -- integer that `int32_t` does not hold.
  pub scale : Float → ℕ → ℤ
  -- What the conversion of that `float` to `int32_t` gives when the type does not hold it. C leaves
  -- this open.
  pub overflow : Float → ℕ → ℤ
  -- `printf` of a float.
  pub show : Float → Text
  -- `atof`, narrowed to a `float` argument; whether `atof` of a text is above a number.
  pub atof : Text → Float
  pub atof_above : Text → ℕ → Bool
  pub atoi : Text → ℤ
  -- `strtoul(text, NULL, 16)`, cut to 32 bits.
  pub strtoul16 : Text → ℕ

-- `(float)(value * pow(2, k))` as the `int32_t` argument of `dev_write`, in its 32-bit pattern.
unfoldable pub times_pow : (c : Libc) → c.Float → ℕ → ℕ
times_pow c value k =
    let z = c.scale value k in word32 (if is_int32 z then z else c.overflow value k)

module _ (c : Libc) where
  unfoldable pub set_frequency : ℕ → c.Float → Board → Outcome Board (Unit {0})
  set_frequency offset value = do
    dev_write cfg offset (times_pow c value 8)
    printf "The output frequency is now: %.3f Hz\n" (str (c.show value) ∷ [])

  -- The argument is printed by `%d`.
  unfoldable pub set_kconstant : ℕ → ℕ → Board → Outcome Board (Unit {0})
  set_kconstant offset value = do
    dev_write cfg offset value
    printf "The value of k constant is: %d \n" (int (signed32 value) ∷ [])

  unfoldable pub set_xvalue : ℕ → c.Float → Board → Outcome Board (Unit {0})
  set_xvalue offset value = do
    dev_write cfg offset (times_pow c value 31)
    x_value ← dev_read cfg cfg_x_value_offset
    printf "The value of X is now: %.9f \n" (scaled (pos x_value) 31 ∷ [])

-- `reg_val = dev_read(cfg_ptr, ...); dev_write(cfg_ptr, ..., reg_val & ~mask)`.
unfoldable pub clear_reset : ℕ → Board → Outcome Board (Unit {0})
clear_reset mask = do
  reg_val ← dev_read cfg cfg_reset_gral_offset
  dev_write cfg cfg_reset_gral_offset (bit_and reg_val (not32 mask))

-- `reg_val = dev_read(cfg_ptr, ...); dev_write(cfg_ptr, ..., reg_val | mask)`.
unfoldable pub set_reset : ℕ → Board → Outcome Board (Unit {0})
set_reset mask = do
  reg_val ← dev_read cfg cfg_reset_gral_offset
  dev_write cfg cfg_reset_gral_offset (bit_or reg_val mask)

unfoldable pub init_system : Libc → Board → Outcome Board ℤ
init_system c = do
  clear_reset 1
  set_frequency c cfg_f_value_offset (c.literal 10000 0)
  set_kconstant c cfg_kp_offset 2097152
  set_kconstant c cfg_ki_offset 32
  set_xvalue c cfg_x_value_offset (c.literal 999998994 9)
  set_reset 1
  pure (pos 0)

abbrev pub cfg_nsamples_offset : ℕ
cfg_nsamples_offset = 0x4

-- rxchan16_test2: three reset bits, and the number of samples.
unfoldable pub init_system_samples : Board → Outcome Board ℤ
init_system_samples = do
  clear_reset 1
  clear_reset 2
  clear_reset 4
  dev_write cfg cfg_nsamples_offset (1024 * 1024)
  set_reset 1
  set_reset 2
  set_reset 4
  pure (pos 0)
