-- ===== src/Lia/Registers/Laws.antt =====
-- What the register operations read, write and return.
use rfsoc.Common.{ℕ, String, ◌≡◌, ◌≢◌, refl, ◌⊎◌, inl, inr, true, some, none, [], ◌∷◌, arith}
use rfsoc.Common.Int.{ℤ, pos, negsuc}
use rfsoc.Common.Memory.{Memory}
use rfsoc.Common.Program.{done, int, ◌>>=◌, ◌>>◌}
use rfsoc.Lia.Board.{Device, intc, cfg, sts, xadc, map_failed, mapped, Board, in_reach, written}
use rfsoc.Lia.Board.Laws.{dev_write_lem}
use rfsoc.Lia.Registers.{device_of, rd_reg_value, wr_reg_value, Os, cfg_init}

-- The devices for which `wr_reg_value` writes.
abbrev pub IsWritable : Device → Type 0
IsWritable d = (d ≡ cfg) ⊎ (d ≡ sts)

abbrev pub logged : String → ℕ → Board → Board
logged format value b = record b {
  console = record { format = format; args = int (pos value) ∷ [] } ∷ b.console;
}

abbrev pub after_write : Device → ℕ → ℕ → Board → Board
after_write d reg_off reg_val b =
    logged "Complete. Data written: 0x%08x\n" reg_val (written d reg_off reg_val b)

pub wr_reg_value_runs :
    (n_dev : ℤ) (d : Device) (reg_off reg_val : ℕ) (b : Board)
    → device_of n_dev ≡ some d
    → IsWritable d
    → in_reach (b.ptr d) reg_off ≡ true
    → wr_reg_value n_dev reg_off reg_val b ≡ done (pos 0) (after_write d reg_off reg_val b)
unfolding wr_reg_value
wr_reg_value_runs n_dev intc reg_off reg_val b e w r = ground arith
wr_reg_value_runs n_dev cfg reg_off reg_val b e w r =
    rw (e, wr_reg_value, dev_write_lem cfg reg_off reg_val b r, ◌>>=◌, ◌>>◌)
wr_reg_value_runs n_dev sts reg_off reg_val b e w r =
    rw (e, wr_reg_value, dev_write_lem sts reg_off reg_val b r, ◌>>=◌, ◌>>◌)
wr_reg_value_runs n_dev xadc reg_off reg_val b e w r = ground arith

-- A device number outside 0 to 3 is refused by both with -1 and a message, and no device is touched.
pub reg_value_invalid :
    (n_dev : ℤ) (reg_off reg_val : ℕ) (b : Board)
    → device_of n_dev ≡ none
    → let b' = record b {
      console = record { format = "Invalid option: %d\n"; args = int n_dev ∷ [] } ∷ b.console;
    } in
      (rd_reg_value n_dev reg_off b ≡ done (negsuc 0) b')
      × (wr_reg_value n_dev reg_off reg_val b ≡ done (negsuc 0) b')
unfolding rd_reg_value wr_reg_value
reg_value_invalid n_dev reg_off reg_val b e = (rw (e, rd_reg_value), rw (e, wr_reg_value))

-- For the interrupt controller and the XADC (0 and 3) a write reports "Data written" and returns 0,
-- and leaves every register as it was, whatever is mapped.
pub wr_reg_value_ignored :
    (n_dev : ℤ) (d : Device) (reg_off reg_val : ℕ) (b : Board)
    → device_of n_dev ≡ some d
    → ¬ (IsWritable d)
    → wr_reg_value n_dev reg_off reg_val b
      ≡ done (pos 0) (record b {
        console =
            record { format = "Complete. Data written: 0x%08x\n"; args = int (pos reg_val) ∷ [] }
            ∷ b.console;
      })
unfolding wr_reg_value
wr_reg_value_ignored n_dev intc reg_off reg_val b e no_write = rw (e, wr_reg_value)
wr_reg_value_ignored n_dev cfg reg_off reg_val b e no_write = absurd (no_write (inl refl))
wr_reg_value_ignored n_dev sts reg_off reg_val b e no_write = absurd (no_write (inr refl))
wr_reg_value_ignored n_dev xadc reg_off reg_val b e no_write = rw (e, wr_reg_value)

-- Whether `cfg_init` and `sts_init` got their mapping can be told from what they return.
abbrev Mapped : Device → ℤ → Board → Board → Type 0
Mapped d r b b' =
    ((r ≡ pos 0) × ((n : ℕ) × (b'.ptr d ≡ mapped n) × (b'.dev_size ≡ n)))
    ⊎ ((r ≡ negsuc 0) × ((b'.ptr d ≡ map_failed) ⊎ (b'.ptr d ≡ b.ptr d)))

-- When `cfg_init` returns at all it returns 0 or -1. With 0 the pointer is a mapping of the size
-- that the sysfs file gives; with -1 it is `MAP_FAILED`, or untouched if the device file did not open.
-- The other pointers and all registers stay as they were.
cfg_init_lem :
    (os : Os) (b b' : Board) (r : ℤ)
    → cfg_init os b ≡ done r b'
    → Mapped cfg r b b' × ((d : Device) → d ≢ cfg → b'.ptr d ≡ b.ptr d) × (b'.mem ≡ b.mem)
unfolding cfg_init
cfg_init_lem os b b' r e = ground arith
