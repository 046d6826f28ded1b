-- ===== src/Lia/Main.antt =====
-- `main`, `show_usage` and the sampling loop of lia_rp.c (projects/gen_test/src/lia_rp.c).
pub mod Sampling
pub mod Laws
pub mod Gain
pub mod Once
pub mod Status
pub mod Streaming
pub mod Initialise
pub mod Frequency
use rfsoc.Common.{
  ℕ, ◌/◌, ◌^◌, String, Bool, true, false, ◌||◌, List, [], ◌∷◌, bit_and, ◌==◌, if◌then◌else◌,
}
use rfsoc.Common.Int.{ℤ, pos, negsuc, signed16, word32, div_trunc}
use rfsoc.Common.Memory.{store32}
use rfsoc.Common.Text.{Text, codes}
use rfsoc.Common.Program.{
  Outcome, done, exited, crashed, Arg, int, str, scaled, modulus, degrees, pure, ◌>>=◌, ◌>>◌,
}
use rfsoc.Lia.Board.{Device, cfg, sts, null, Board, put, dev_read, printf}
use rfsoc.Lia.Registers.{
  Os, cfg_init, sts_init, rd_reg_value, wr_reg_value, rd_cfg_status, cfg_reset_gral_offset,
  sts_status_offset,
}
use rfsoc.Lia.Init.{Libc, set_frequency, set_xvalue, set_reset, init_system}
use rfsoc.Lia.Params.{Globals, parse_param}

-- The globals of both files. `sts` is read by the program and written by the hardware.
pub record Process : Type 0 where
  pub board : Board
  pub globals : Globals

-- A call of a function of zynq_io.c.
abbrev pub on_board {ℓ} : {A : Type ℓ} → (Board → Outcome Board A) → Process → Outcome Process A
on_board m p = elim (m p.board) [
  | done a b ↦ done a (record p { board = b })
  | exited n b ↦ exited n (record p { board = b })
  | crashed ↦ crashed
]

experiment : Text
experiment = codes "LIA"

version_line : Board → Outcome Board (Unit {0})
version_line =
    printf "Digital Lock-in Amplifier (LIA) BRC v%dr%d data v%d\n"
      (int (pos 1) ∷ int (pos 0) ∷ int (pos 1) ∷ [])

usage_lines : Text → Board → Outcome Board (Unit {0})
unfolding experiment
usage_lines progname = do
  printf "\tDigital Lock-in Amplifier\n" []
  printf "\t(c) 2018, LabDPR, http://labdpr.cab.cnea.gov.ar\n" []
  printf "\n\tDPR Lab. 2018\n" []
  printf "\tH. Arnaldi, lharnaldi@gmail.com\n" []
  printf "\t%s v%dr%d comms soft\n\n" (str experiment ∷ int (pos 1) ∷ int (pos 0) ∷ [])
  printf "Usage: %s <action> <register> <value> [options]\n" (str progname ∷ [])
  printf "\n\tActions:\n" []
  printf "\t-a\t\t\t\tGet all registers status\n" []
  printf "\t-s\t\t\t\tSet registers\n" []
  printf "\t-o\t\t\t\tStart LIA and send data to stdout\n" []
  printf "\t-i\t\t\t\tInitialise registers to default values\n" []
  printf "\t-v\t\t\t\tShow LIA version\n" []
  printf "\n\tRegisters:\n" []
  printf "\tkp, ki, xv, fv\t\t\tSpecify register values\n" []
  printf "\n\n" []

unfoldable pub show_usage : Bool → Text → Board → Outcome Board (Unit {0})
unfolding version_line usage_lines
show_usage f_show_version progname = if f_show_version then version_line else usage_lines progname

-- The status word that the hardware shows at the next read.
unfoldable pub latch : ℕ → Board → Outcome Board (Unit {0})
latch word b = done tt (record b { mem = put sts (store32 (b.mem sts) 0 word) b.mem })

-- `I_sig` and `Q_sig`: the two halves of `position`.
unfoldable pub in_phase : ℕ → ℤ
in_phase position = signed16 (bit_and position 0xFFFF)

unfoldable pub quadrature : ℕ → ℤ
quadrature position = signed16 (bit_and (position / 2 ^ 16) 0xFFFF)

abbrev is_zero : ℤ → Bool
is_zero (pos n) = n == 0
is_zero (negsuc n) = false

-- The line of one sample. `Q_sig / I_sig` is a division of integers: by zero it is a fault.
unfoldable pub print_sample : ℤ → ℤ → Board → Outcome Board (Unit {0})
print_sample i_sig q_sig b =
    if is_zero i_sig
    then crashed
    else printf "%5d %5d %.9lf %.9lf %.9f %.9f\n"
        (int i_sig
          ∷ int q_sig
          ∷ scaled i_sig 13
          ∷ scaled q_sig 13
          ∷ modulus i_sig q_sig 13
          ∷ degrees (div_trunc q_sig i_sig)
          ∷ [])
        b

-- `while (!interrupted)`, over the words that the status register shows until the signal.
unfoldable pub sample_loop : List ℕ → Board → Outcome Board (Unit {0})
sample_loop [] = pure tt
sample_loop (word ∷ words) = do
  latch word
  position ← dev_read sts sts_status_offset
  print_sample (in_phase position) (quadrature position)
  sample_loop words

-- `munmap` of one device: nothing can be read through the pointer any more.
unmap : Device → Board → Outcome Board (Unit {0})
unmap d b = done tt (record b { ptr = put d null b.ptr })

module _ (os : Os) (c : Libc) where
  -- The chain of `if` on the flags, with the words that a sampling run sees.
  unfoldable pub perform : List ℕ → Globals → Board → Outcome Board (Unit {0})
  perform words g =
      if g.f_read_reg
      then (do rd_reg_value g.n_dev g.reg_off; pure tt)
      else if g.f_write_reg
      then (do wr_reg_value g.n_dev g.reg_off g.reg_val; pure tt)
      else if g.f_set_cfg_reg
      then (if g.f_f_val
          then set_frequency c g.reg_off (c.atof g.char_reg_value)
          else if g.f_x_val
          then set_xvalue c g.reg_off (c.atof g.char_reg_value)
          else (do wr_reg_value (pos 1) g.reg_off (word32 (c.atoi g.char_reg_value)); pure tt))
      else if g.f_get_cfg_status
      then (do rd_cfg_status; pure tt)
      else if g.f_init_system
      then (do printf "Initializing registers...\n" []; init_system c; pure tt)
      else if g.f_to_file || g.f_to_stdout
      then (do set_reset 1; sample_loop words)
      else pure tt

  -- "Check if it is the first time we access the PL".
  unfoldable pub first_access : Board → Outcome Board (Unit {0})
  first_access = do
    reset ← dev_read cfg cfg_reset_gral_offset
    if reset == 0
        then (do printf "Initializing registers...\n" []; init_system c; pure tt)
        else pure tt

  -- `main` after the command line: the results of the two `_init` calls are not looked at.
  unfoldable pub session : List ℕ → Globals → Board → Outcome Board ℤ
  unfolding unmap
  session words g = do
    cfg_init os
    sts_init os
    first_access
    perform words g
    unmap cfg
    unmap sts
    pure (pos 0)

  -- `argv[0]` is passed on to `show_usage` as it is, `progname` its text.
  unfoldable pub main : Text → List Text → List ℕ → Process → Outcome Process ℤ
  main progname argv words p = elim (parse_param c argv p.globals) [
    | exited n g ↦ exited n (record p { globals = g })
    | crashed ↦ crashed
    | done false g ↦
        (do on_board (show_usage g.f_show_version progname); pure (pos 1))
          (record p { globals = g })
    | done true g ↦ on_board (session words g) (record p { globals = g })
  ]
