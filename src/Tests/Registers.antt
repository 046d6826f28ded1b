-- ===== src/Tests/Registers.antt =====
-- The register operations and the two `init_system` at concrete boards (projects/gen_test/src/zynq_io.c).
use rfsoc.Common.{
  ◌==◌, if◌then◌else◌, ℕ, ◌+◌, ◌-◌, ◌*◌, ◌%◌, ◌^◌, ◌≤◌, ◌<◌, ◌≡◌, ◌≢◌, refl, ◌⊎◌, true, [], ◌∷◌,
  arith, max, ltb,
}
use rfsoc.Common.Int.{pos}
use rfsoc.Common.Bits.{bit}
use rfsoc.Common.Memory.{Memory, load32, IsBytes}
use rfsoc.Common.Text.{Text}
use rfsoc.Common.Program.{done}
use rfsoc.Lia.Board.{Device, cfg, sts, xadc, null, mapped, Board, put, power_on}
use rfsoc.Lia.Registers.{Os, size, cfg_init}
use rfsoc.Lia.Init.{Libc, init_system, init_system_samples, cfg_nsamples_offset}
use rfsoc.Lia.Main.{first_access}
use rfsoc.Lia.Main.Once.{announced, first_access_once}
use rfsoc.Lia.Init.Samples.{init_system_samples_lem}
use rfsoc.Lia.Registers.{cfg_reset_gral_offset}

-- Numbers in place of floats; decimal digits, read without a check.
abbrev digits : ℕ → Text → ℕ
digits n [] = n
digits n (d ∷ ds) = digits (n * 10 + d % 48) ds

abbrev pub test_libc : Libc
test_libc = record {
  Float = ℕ;
  literal = λ n k. n;
  scale = λ f k. pos (f * 2 ^ k);
  overflow = λ f k. pos (2 ^ 31 - 1);
  show = λ f. [];
  atof = λ t. digits 0 t;
  atof_above = λ t n. ltb n (digits 0 t);
  atoi = λ t. pos (digits 0 t % 2 ^ 31);
  strtoul16 = λ t. digits 0 t;
}

-- A system whose devices all open and map, over 20 bytes.
abbrev pub test_os : Os
test_os = record { open_file = λ path. pos 3; size_file = λ path. size 20; can_map = λ fd n. true }

-- Every byte 1 at first.
abbrev pub ones : Device → Memory
ones d i = 1

abbrev pub mapped_board : Board
mapped_board = record (power_on ones) { ptr = λ d. mapped 20 }

ones-IsBytes : IsBytes (ones cfg)
ones-IsBytes i = omega arith

sts_writable : ¬ ((xadc ≡ cfg) ⊎ (xadc ≡ sts))
sts_writable h = ground arith

abbrev cfg_board : Board
cfg_board = record (power_on ones) {
  fd = put cfg (pos 3) (λ d. pos 0);
  ptr = put cfg (mapped 20) (λ d. null);
  dev_size = 20;
}

cfg_board_made : cfg_init test_os (power_on ones) ≡ done (pos 0) cfg_board
unfolding cfg_init
cfg_board_made = refl

init_system_samples_lem_example :
    (b' : Board) × (init_system_samples mapped_board ≡ done (pos 0) b')
    × (load32 (b'.mem cfg) cfg_nsamples_offset ≡ 2 ^ 20)
    × ((k : ℕ)
        → k < 32
        → bit k (load32 (b'.mem cfg) cfg_reset_gral_offset)
          ≡ max (bit k (load32 (ones cfg) cfg_reset_gral_offset)) (bit k 7))
    × ((i : ℕ) → 8 ≤ i → b'.mem cfg i ≡ 1)
    × ((d : Device) → d ≢ cfg → b'.mem d ≡ ones d)
init_system_samples_lem_example =
    init_system_samples_lem mapped_board 20 refl (omega arith) ones-IsBytes

-- A board whose registers read 0.
abbrev pub blank_board : Board
blank_board = record mapped_board { mem = λ d i. 0 }

pub blank-IsBytes : IsBytes (blank_board.mem cfg)
blank-IsBytes i = omega arith

first_access_once_example :
    (b' : Board) × (first_access test_os test_libc blank_board ≡ done tt b')
    × ((if load32 (blank_board.mem cfg) 0 == 0
          then init_system test_libc (announced blank_board)
          else done (pos 0) blank_board)
        ≡ done (pos 0) b')
    × (load32 (b'.mem cfg) 0 ≢ 0)
    × (first_access test_os test_libc b' ≡ done tt b')
first_access_once_example =
    first_access_once test_os test_libc blank_board 20 refl (omega arith) blank-IsBytes
