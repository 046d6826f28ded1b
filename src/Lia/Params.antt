-- ===== src/Lia/Params.antt =====
-- The command line of the lock-in amplifier: the globals of lia_rp.c that it fills in, `StrcpyS` and
-- `parse_param` (projects/gen_test/src/lia_rp.c).
pub mod Laws
pub mod Accept
use rfsoc.Common.{
  ℕ, ◌-◌, ◌^◌, Bool, true, false, not, ◌&&◌, ◌||◌, Option, none, some, List, [], ◌∷◌, ltb,
  get_elem?, take, drop, length, if◌then◌else◌,
}
use rfsoc.Common.Int.{ℤ, pos, negsuc, ltb_ℤ}
use rfsoc.Common.Text.{Text, codes, same_text, same_prefix}
use rfsoc.Common.Program.{Outcome, done, exited, crashed, Line, pure, ◌>>=◌, ◌>>◌}
use rfsoc.Lia.Init.{Libc}
use rfsoc.Lia.Registers.{cfg_kp_offset, cfg_ki_offset, cfg_x_value_offset, cfg_f_value_offset}

abbrev pub max_chr_len : ℕ
max_chr_len = 1024

-- An `int` used as a flag is a Bool. `reg_val` is the 32-bit pattern. `messages`: what
-- `parse_param` printed, newest first.
pub record Globals : Type 0 where
  pub n_dev : ℤ
  pub reg_off : ℕ
  pub reg_val : ℕ
  pub f_read_reg : Bool
  pub f_write_reg : Bool
  pub f_get_cfg_status : Bool
  pub f_init_system : Bool
  pub f_set_cfg_reg : Bool
  pub f_to_file : Bool
  pub f_to_stdout : Bool
  pub f_file : Bool
  pub f_count : Bool
  pub f_byte : Bool
  pub f_show_version : Bool
  pub f_x_val : Bool
  pub f_kp_val : Bool
  pub f_ki_val : Bool
  pub f_f_val : Bool
  pub char_action : Text
  pub sc_register : Text
  pub char_reg : Text
  pub char_file : Text
  pub char_reg_value : Text
  pub messages : List Line

-- `StrcpyS(dst, cch, src)`: what `dst` holds afterwards.
unfoldable pub strcpy_s : Text → ℕ → Text → Text
strcpy_s dst cch src = if ltb 0 cch then take (cch - 1) src else dst

-- "Initialize default flag values": all but `fInitSystem` and `fshowversion`.
unfoldable pub reset_flags : Globals → Globals
reset_flags g = record g {
  f_read_reg = false;
  f_write_reg = false;
  f_get_cfg_status = false;
  f_set_cfg_reg = false;
  f_to_file = false;
  f_to_stdout = false;
  f_file = false;
  f_count = false;
  f_byte = false;
  f_x_val = false;
  f_kp_val = false;
  f_ki_val = false;
  f_f_val = false;
}

-- What a part of `parse_param` does: it returns, or leaves the rest to be done.
pub data Step : Type 0 where
  returns : Bool → Step
  goes_on : Step

-- The chain on `charAction`.
unfoldable pub choose_action : Globals → Globals × Step
choose_action g =
    if same_text g.char_action (codes "-r")
    then (record g { f_read_reg = true }, goes_on)
    else if same_text g.char_action (codes "-w")
    then (record g { f_write_reg = true }, goes_on)
    else if same_text g.char_action (codes "-a")
    then (record g { f_get_cfg_status = true }, returns true)
    else if same_text g.char_action (codes "-v")
    then (record g { f_show_version = true }, returns false)
    else if same_text g.char_action (codes "-s")
    then (record g { f_set_cfg_reg = true }, goes_on)
    else if same_text g.char_action (codes "-o")
    then (record g { f_to_stdout = true }, returns true)
    else if same_text g.char_action (codes "-i")
    then (record g { f_init_system = true }, returns true)
    else (g, returns false)

abbrev pub message : Globals → Line → Globals
message g l = record g { messages = l ∷ g.messages }

-- The register named after `-s`.
unfoldable pub register_offset : Text → Option ℕ
register_offset reg =
    if same_text reg (codes "kp")
    then some cfg_kp_offset
    else if same_text reg (codes "ki")
    then some cfg_ki_offset
    else if same_text reg (codes "xv")
    then some cfg_x_value_offset
    else if same_text reg (codes "fv")
    then some cfg_f_value_offset
    else none

-- `if (strncmp(charReg, name, 2) == 0) { if (too large) { printf; exit(1); } flag = 1; }`.
unfoldable pub value_check :
    Text → Bool → Line → (Globals → Globals) → Globals → Outcome Globals (Unit {0})
value_check name too_large error set_flag g =
    if same_prefix 2 g.char_reg name
    then if too_large then exited (pos 1) (message g error) else done tt (set_flag g)
    else done tt g

abbrev pub frequency_error : Line
frequency_error = record { format = "Error: maximum frequency is 8.4 MHz\n"; args = [] }

abbrev pub max_error : Line
max_error = record { format = "Error: maximum value is 2^31\n"; args = [] }

-- `while (arg < argc)`, over the arguments from `arg` on.
unfoldable pub option_loop : List Text → Globals → Globals × Step
option_loop [] g = (g, goes_on)
option_loop (arg ∷ []) g = (g, returns false)
option_loop (arg ∷ name ∷ rest) g =
    let next =
      option_loop rest (record g { char_file = strcpy_s g.char_file 16 name; f_file = true }) in
    if same_text arg (codes "-f") then next else (g, returns false)

-- "Input combination validity checks".
unfoldable pub combination_checks : Globals → Outcome Globals Bool
combination_checks g =
    if g.f_write_reg && not g.f_byte
    then done false (message g (record { format = "Error: No byte value provided\n"; args = [] }))
    else if g.f_to_file && not g.f_file
    then done false (message g (record { format = "Error: No filename provided\n"; args = [] }))
    else done true g

-- `argv` holds the `argc` arguments, the program's name first. `argv[argc]` is NULL and nothing is
-- known past it: reading a string there crashes.
module _ (c : Libc) (argv : List Text) where
  -- The branch for a single register, `-r` and `-w`, from the device's number on.
  unfoldable pub register_values : Globals → Outcome Globals Bool
  register_values g = elim (get_elem? argv 3) [
    | none ↦ crashed
    | some off ↦
        let g' = record g { reg_off = c.strtoul16 off } in
        if g.f_write_reg
        then elim (get_elem? argv 4) [
          | none ↦ crashed
          | some val ↦ done true (record g' { reg_val = c.strtoul16 val })
        ]
        else done true g'
  ]

  unfoldable pub parse_register : Globals → Outcome Globals Bool
  unfolding register_values
  parse_register g = elim (get_elem? argv 2) [
    | none ↦ crashed
    | some dev ↦
        let reg = strcpy_s g.char_reg max_chr_len dev in
        let g' = record g { char_reg = reg } in
        if same_text reg (codes "cfg")
        then register_values (record g' { n_dev = pos 1 })
        else if same_text reg (codes "sts")
        then register_values (record g' { n_dev = pos 2 })
        else done false g'
  ]

  unfoldable pub above_max : Text → Bool
  above_max value = ltb_ℤ (pos (2 ^ 31)) (c.atoi value)

  unfoldable pub check_value : Globals → Outcome Globals (Unit {0})
  unfolding value_check
  check_value g =
      let value = g.char_reg_value in
      (do
        value_check (codes "fv") (c.atof_above value 8400000) frequency_error
            (λ h. record h { f_f_val = true })
        value_check (codes "kp") (above_max value) max_error (λ h. record h { f_kp_val = true })
        value_check (codes "ki") (above_max value) max_error (λ h. record h { f_ki_val = true })
        value_check (codes "xv") (above_max value) max_error (λ h. record h { f_x_val = true }))
        g

  -- The branch for `-s`, and the `return 1` at the end of the function.
  unfoldable pub parse_set : Globals → Outcome Globals Bool
  unfolding check_value register_offset
  parse_set g = elim (get_elem? argv 2) [
    | none ↦ crashed
    | some name ↦
        let reg = strcpy_s g.char_reg max_chr_len name in
        let g' = record g { char_reg = reg } in
        elim (register_offset reg) [
          | none ↦ done false g'
          | some off ↦ elim (get_elem? argv 3) [
            | none ↦ crashed
            | some val ↦
                (do check_value; pure true)
                  (record g' { reg_off = off; char_reg_value = strcpy_s g.char_reg_value 16 val })
          ]
        ]
  ]

  -- The last branch.
  unfoldable pub parse_options : Globals → Outcome Globals Bool
  unfolding option_loop combination_checks
  parse_options g = elim (get_elem? argv 2) [
    | none ↦ crashed
    | some name ↦
        let (g', step) =
          option_loop (drop 3 argv)
            (record g { sc_register = strcpy_s g.sc_register max_chr_len name }) in
        elim step [ returns r ↦ done r g' | goes_on ↦ combination_checks g' ]
  ]

  unfoldable pub dispatch : Globals → Outcome Globals Bool
  dispatch g =
      if g.f_read_reg || g.f_write_reg
      then parse_register g
      else if g.f_set_cfg_reg
      then parse_set g
      else parse_options g

  unfoldable pub parse_param : Globals → Outcome Globals Bool
  parse_param g =
      let g0 = reset_flags g in
      if ltb (length argv) 2 then done false g0 else elim (get_elem? argv 1) [
        | none ↦ crashed
        | some action ↦
            let (g', step) =
              choose_action
                (record g0 { char_action = strcpy_s g0.char_action max_chr_len action }) in
            elim step [ returns r ↦ done r g' | goes_on ↦ dispatch g' ]
      ]
