-- ===== src/Lia/Registers.antt =====
-- The register operations of zynq_io.c (projects/gen_test/src/zynq_io.c and zynq_io.h): reading and
-- writing one register by device number, the status listing, and the mapping of the devices.
pub mod Laws
use rfsoc.Common.{ℕ, String, Bool, Option, none, some, List, [], ◌∷◌, ◌==◌, if◌then◌else◌}
use rfsoc.Common.Text.{codes}
use rfsoc.Common.Int.{ℤ, pos, negsuc, signed32, ltb_ℤ}
use rfsoc.Common.Program.{Outcome, done, exited, Arg, int, str, scaled, pure, ◌>>=◌, ◌>>◌}
use rfsoc.Lia.Board.{
  Device, intc, cfg, sts, xadc, Ptr, mapped, map_failed, Board, put, dev_read, dev_write, printf,
}

abbrev pub cfg_reset_gral_offset : ℕ
cfg_reset_gral_offset = 0x0

abbrev pub cfg_kp_offset : ℕ
cfg_kp_offset = 0x4

abbrev pub cfg_ki_offset : ℕ
cfg_ki_offset = 0x8

abbrev pub cfg_x_value_offset : ℕ
cfg_x_value_offset = 0xC

abbrev pub cfg_f_value_offset : ℕ
cfg_f_value_offset = 0x10

abbrev pub sts_status_offset : ℕ
sts_status_offset = 0x0

-- The `switch (n_dev)` of both functions; `none` is its default.
abbrev pub device_of : ℤ → Option Device
device_of (pos n) =
    if n == 0
    then some intc
    else if n == 1
    then some cfg
    else if n == 2
    then some sts
    else if n == 3
    then some xadc
    else none
device_of (negsuc n) = none

invalid_option : ℤ → Board → Outcome Board ℤ
invalid_option n_dev = do printf "Invalid option: %d\n" (int n_dev ∷ []); pure (negsuc 0)

received : Device → ℕ → Board → Outcome Board ℤ
received d reg_off = do
  reg_val ← dev_read d reg_off
  printf "Complete. Received data 0x%08x\n" (int (pos reg_val) ∷ [])
  pure (signed32 reg_val)

-- The pattern read is returned as an `int32_t`.
unfoldable pub rd_reg_value : ℤ → ℕ → Board → Outcome Board ℤ
unfolding invalid_option received
rd_reg_value n_dev reg_off = elim (device_of n_dev) [
  | some d ↦ received d reg_off
  | none ↦ invalid_option n_dev
]

-- The calls for the interrupt controller and for the XADC are commented out: nothing is written.
write_case : Device → ℕ → ℕ → Board → Outcome Board (Unit {0})
write_case intc reg_off reg_val = pure tt
write_case cfg reg_off reg_val = dev_write cfg reg_off reg_val
write_case sts reg_off reg_val = dev_write sts reg_off reg_val
write_case xadc reg_off reg_val = pure tt

data_written : Device → ℕ → ℕ → Board → Outcome Board ℤ
data_written d reg_off reg_val = do
  write_case d reg_off reg_val
  printf "Complete. Data written: 0x%08x\n" (int (pos reg_val) ∷ [])
  pure (pos 0)

-- `reg_val` is the 32-bit pattern of the `int32_t`.
unfoldable pub wr_reg_value : ℤ → ℕ → ℕ → Board → Outcome Board ℤ
unfolding invalid_option write_case data_written
wr_reg_value n_dev reg_off reg_val = elim (device_of n_dev) [
  | some d ↦ data_written d reg_off reg_val
  | none ↦ invalid_option n_dev
]

-- `%d` prints the word as an `int`; the quotients by `pow(2, k)` are exact doubles.
unfoldable pub rd_cfg_status : Board → Outcome Board ℤ
rd_cfg_status = do
  k_p ← dev_read cfg cfg_kp_offset
  printf "#K_p constant = %d\n" (int (signed32 k_p) ∷ [])
  k_i ← dev_read cfg cfg_ki_offset
  printf "#K_i constant = %d\n" (int (signed32 k_i) ∷ [])
  x_value ← dev_read cfg cfg_x_value_offset
  printf "#X_value      = %.9f\n" (scaled (pos x_value) 31 ∷ [])
  f_value ← dev_read cfg cfg_f_value_offset
  printf "#Output freq  = %.3f Hz\n" (scaled (pos f_value) 8 ∷ [])
  printf "\n" []
  printf "Status from registers complete!\n" []
  pure (pos 0)

-- What the file of a map's size gives: it cannot be opened, it is empty, or a number comes out of
-- it. (A text that is no number leaves `size` unset: the number is then any.)
pub data SizeFile : Type 0 where
  absent eof : SizeFile
  size : ℕ → SizeFile

-- The system calls: `open` on a path, the file of a map's size, and whether `mmap` succeeds on a
-- descriptor with a length.
pub record Os : Type 0 where
  pub open_file : String → ℤ
  pub size_file : String → SizeFile
  pub can_map : ℤ → ℕ → Bool

fail : String → Board → Outcome Board ℕ
fail message b =
    exited (negsuc 0) (record b { console = record { format = message; args = [] } ∷ b.console })

set_fd : Device → ℤ → Board → Outcome Board (Unit {0})
set_fd d fd b = done tt (record b { fd = put d fd b.fd })

set_size : ℕ → Board → Outcome Board (Unit {0})
set_size n b = done tt (record b { dev_size = n })

set_ptr : Device → Ptr → Board → Outcome Board (Unit {0})
set_ptr d p b = done tt (record b { ptr = put d p b.ptr })

give_up : String → List Arg → Board → Outcome Board ℤ
give_up format args = do printf format args; pure (negsuc 0)

-- The steps that `cfg_init` and `sts_init` share, with their paths and messages.
module _ (os : Os) where
  unfoldable pub get_memory_size : String → Board → Outcome Board ℕ
  unfolding fail
  get_memory_size sysfs_path_file b = elim (os.size_file sysfs_path_file) [
    | absent ↦ fail "unable to open the uio size file\n" b
    | eof ↦ fail "unable to get the size of the uio size file\n" b
    | size n ↦ done n b
  ]

  map_device : Device → ℤ → String → String → Board → Outcome Board ℤ
  map_device d fd size_path bad_map = do
    dev_size ← get_memory_size size_path
    set_size dev_size
    set_ptr d (if os.can_map fd dev_size then mapped dev_size else map_failed)
    if os.can_map fd dev_size then pure (pos 0) else give_up bad_map []

  dev_init : Device → String → String → String → String → Board → Outcome Board ℤ
  unfolding set_fd set_size set_ptr give_up get_memory_size map_device
  dev_init d uiod size_path bad_file bad_map = do
    set_fd d (os.open_file uiod)
    if ltb_ℤ (os.open_file uiod) (pos 1)
        then give_up bad_file (str (codes uiod) ∷ [])
        else map_device d (os.open_file uiod) size_path bad_map

  unfoldable pub cfg_init : Board → Outcome Board ℤ
  unfolding dev_init
  cfg_init =
      dev_init cfg "/dev/uio1" "/sys/class/uio/uio1/maps/map0/size"
        "cfg_init: Invalid UIO device file:%s.\n" "cfg_init: mmap call failure.\n"

  unfoldable pub sts_init : Board → Outcome Board ℤ
  unfolding dev_init
  sts_init =
      dev_init sts "/dev/uio2" "/sys/class/uio/uio2/maps/map0/size"
        "sts_init: Invalid UIO device file:%s.\n" "sts_init: mmap call failure.\n"
