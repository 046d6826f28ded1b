-- ===== src/Tests/Program.antt =====
-- The command line, the sampling loop and whole runs at concrete inputs
-- (projects/gen_test/src/lia_rp.c).
use rfsoc.Common.{take, some, get_elem?, ◌≡◌, ◌≢◌, refl, true, false, List, [], ◌∷◌, arith}
use rfsoc.Common.Int.{pos, InInt32}
use rfsoc.Common.Memory.{load32}
use rfsoc.Common.Text.{Text, codes}
use rfsoc.Common.Program.{done, exited}
use rfsoc.Lia.Board.{cfg, power_on}
use rfsoc.Lia.Params.{
  Globals, parse_param, reset_flags, choose_action, strcpy_s, dispatch, parse_set, above_max,
}
use rfsoc.Lia.Params.Laws.{action, idle}
use rfsoc.Lia.Params.Accept.{parse_param_exit}
use rfsoc.Lia.Main.{Process}
use rfsoc.Lia.Main.Laws.{Boots}
use rfsoc.Tests.Registers.{test_libc, test_os, ones}

-- The globals as the C program starts with them.
abbrev pub fresh : Globals
fresh = record {
  n_dev = pos 0;
  reg_off = 0;
  reg_val = 0;
  f_read_reg = false;
  f_write_reg = false;
  f_get_cfg_status = false;
  f_init_system = false;
  f_set_cfg_reg = false;
  f_to_file = false;
  f_to_stdout = false;
  f_file = false;
  f_count = false;
  f_byte = false;
  f_show_version = false;
  f_x_val = false;
  f_kp_val = false;
  f_ki_val = false;
  f_f_val = false;
  char_action = [];
  sc_register = [];
  char_reg = [];
  char_file = [];
  char_reg_value = [];
  messages = [];
}

abbrev pub set_kp : List Text
set_kp = codes "lia_rp" ∷ codes "-s" ∷ codes "kp" ∷ codes "42" ∷ []

abbrev pub set_fv : List Text
set_fv = codes "lia_rp" ∷ codes "-s" ∷ codes "fv" ∷ codes "9000000" ∷ []

-- What the globals hold after `-s kp 42`.
abbrev kp_globals : Globals
kp_globals = record fresh {
  reg_off = 4;
  f_set_cfg_reg = true;
  f_kp_val = true;
  char_action = codes "-s";
  char_reg = codes "kp";
  char_reg_value = codes "42";
}

abbrev fv_globals : Globals
fv_globals = record fresh {
  reg_off = 16;
  f_set_cfg_reg = true;
  char_action = codes "-s";
  char_reg = codes "fv";
  char_reg_value = codes "9000000";
  messages = record { format = "Error: maximum frequency is 8.4 MHz\n"; args = [] } ∷ [];
}

fv_exits : parse_param test_libc set_fv fresh ≡ exited (pos 1) fv_globals
unfolding parse_param reset_flags choose_action strcpy_s dispatch parse_set above_max
fv_exits = refl

refused : parse_param test_libc [] fresh ≡ done false fresh
unfolding parse_param reset_flags
refused = refl

pub atoi_range : (t : Text) → InInt32 (test_libc.atoi t)
atoi_range t = record { above = omega arith; below = omega arith }

pub boots : Boots test_os 20 20
boots = record {
  cfg_fd = 2;
  sts_fd = 2;
  cfg_opens = refl;
  sts_opens = refl;
  cfg_size = refl;
  sts_size = refl;
  cfg_maps = refl;
  sts_maps = refl;
}

abbrev pub started : Process
started = record { board = power_on ones; globals = fresh }

pub running : load32 (started.board.mem cfg) 0 ≢ 0
unfolding load32
running h = ground arith

parse_param_exit_example :
    (pos 1 ≡ pos 1)
    × (action fv_globals ≡ record idle { set_cfg_reg = true })
    × (fv_globals.char_action ≡ codes "-s")
    × (fv_globals.char_reg ≡ codes "fv")
    × (val : Text) × (get_elem? set_fv 3 ≡ some val)
    × (test_libc.atof_above (take 15 val) 8400000 ≡ true)
parse_param_exit_example =
    parse_param_exit test_libc set_fv fresh fv_globals (pos 1) atoi_range refl fv_exits
