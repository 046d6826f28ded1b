-- ===== src/Lia/Params/Laws.antt =====
-- What `parse_param` accepts, and when it ends the process.
use rfsoc.Common.{
  take, ℕ, ◌≡◌, ◌∙◌, ap, refl, ◌⊎◌, inl, inr, Bool, true, false, some, List, arith, Bool-cases,
  Option-cases, if◌then◌else◌, get_elem?, sym,
}
use rfsoc.Common.Int.{ℤ, pos}
use rfsoc.Common.Text.{Text, codes, same_text, same_text→eq}
use rfsoc.Common.Program.{Outcome, done, exited, crashed, ◌>>=◌, ◌>>◌}
use rfsoc.Lia.Init.{Libc}
use rfsoc.Lia.Params.{
  Globals, strcpy_s, value_check, above_max, message, max_error, frequency_error, parse_register,
  register_offset, check_value, parse_set, register_values,
}

-- The flags that choose what `main` does, in the order of its tests.
pub record Action : Type 0 where
  pub read_reg : Bool
  pub write_reg : Bool
  pub set_cfg_reg : Bool
  pub get_cfg_status : Bool
  pub init_system : Bool
  pub to_file : Bool
  pub to_stdout : Bool

abbrev pub action : Globals → Action
action g = record {
  read_reg = g.f_read_reg;
  write_reg = g.f_write_reg;
  set_cfg_reg = g.f_set_cfg_reg;
  get_cfg_status = g.f_get_cfg_status;
  init_system = g.f_init_system;
  to_file = g.f_to_file;
  to_stdout = g.f_to_stdout;
}

abbrev pub idle : Action
idle = record {
  read_reg = false;
  write_reg = false;
  set_cfg_reg = false;
  get_cfg_status = false;
  init_system = false;
  to_file = false;
  to_stdout = false;
}

-- The devices and the registers by their names on the command line.
abbrev pub IsDevice : Text → ℤ → Type 0
IsDevice name n = ((name ≡ codes "cfg") × (n ≡ pos 1)) ⊎ ((name ≡ codes "sts") × (n ≡ pos 2))

abbrev pub IsRegister : Text → ℕ → Type 0
IsRegister name off =
    ((name ≡ codes "kp") × (off ≡ 4))
    ⊎ ((name ≡ codes "ki") × (off ≡ 8))
    ⊎ ((name ≡ codes "xv") × (off ≡ 12))
    ⊎ ((name ≡ codes "fv") × (off ≡ 16))

-- What `main` may rely on after an accepted command line.
pub data Accepted (g : Globals) : Type 0 where
  reads : action g ≡ record idle { read_reg = true } → IsDevice g.char_reg g.n_dev → Accepted g
  writes : action g ≡ record idle { write_reg = true } → IsDevice g.char_reg g.n_dev → Accepted g
  sets :
      action g ≡ record idle { set_cfg_reg = true } → IsRegister g.char_reg g.reg_off → Accepted g
  lists_status : action g ≡ record idle { get_cfg_status = true } → Accepted g
  initialises : action g ≡ record idle { init_system = true } → Accepted g
  streams : action g ≡ record idle { to_stdout = true } → Accepted g

register_offset_cases : (reg : Text) (off : ℕ) → register_offset reg ≡ some off → IsRegister reg off
unfolding register_offset
register_offset_cases reg off h = ground (
  arith,
  same_text→eq reg (codes "kp"),
  same_text→eq reg (codes "ki"),
  same_text→eq reg (codes "xv"),
  same_text→eq reg (codes "fv"),
)

module _ (c : Libc) (argv : List Text) where
  pub check_kp :
      (g : Globals)
      → let g' = record g { char_reg = codes "kp" } in
        check_value c argv g' ≡ (
          if above_max c argv g.char_reg_value
          then exited (pos 1) (message g' max_error)
          else done tt (record g' { f_kp_val = true }))
  unfolding check_value value_check
  check_kp g = elim (Bool-cases (above_max c argv g.char_reg_value)) [
    | inl p ↦ rw (p, check_value, value_check, ◌>>=◌, ◌>>◌)
    | inr p ↦ rw (p, check_value, value_check, ◌>>=◌, ◌>>◌)
  ]

  pub check_ki :
      (g : Globals)
      → let g' = record g { char_reg = codes "ki" } in
        check_value c argv g' ≡ (
          if above_max c argv g.char_reg_value
          then exited (pos 1) (message g' max_error)
          else done tt (record g' { f_ki_val = true }))
  unfolding check_value value_check
  check_ki g = elim (Bool-cases (above_max c argv g.char_reg_value)) [
    | inl p ↦ rw (p, check_value, value_check, ◌>>=◌, ◌>>◌)
    | inr p ↦ rw (p, check_value, value_check, ◌>>=◌, ◌>>◌)
  ]

  check_xv :
      (g : Globals)
      → let g' = record g { char_reg = codes "xv" } in
        check_value c argv g' ≡ (
          if above_max c argv g.char_reg_value
          then exited (pos 1) (message g' max_error)
          else done tt (record g' { f_x_val = true }))
  unfolding check_value value_check
  check_xv g = elim (Bool-cases (above_max c argv g.char_reg_value)) [
    | inl p ↦ rw (p, check_value, value_check, ◌>>=◌, ◌>>◌)
    | inr p ↦ rw (p, check_value, value_check, ◌>>=◌, ◌>>◌)
  ]

  pub check_fv :
      (g : Globals)
      → let g' = record g { char_reg = codes "fv" } in
        check_value c argv g' ≡ (
          if c.atof_above g.char_reg_value 8400000
          then exited (pos 1) (message g' frequency_error)
          else done tt (record g' { f_f_val = true }))
  unfolding check_value value_check
  check_fv g = elim (Bool-cases (c.atof_above g.char_reg_value 8400000)) [
    | inl p ↦ rw (p, check_value, value_check, ◌>>=◌, ◌>>◌)
    | inr p ↦ rw (p, check_value, value_check, ◌>>=◌, ◌>>◌)
  ]

  -- How the value of `-s` is taken, from the state that its checks see.
  pub data SetOutcome (h : Globals) (o : Outcome Globals Bool) : Type 0 where
    too_fast :
        h.char_reg ≡ codes "fv"
        → c.atof_above h.char_reg_value 8400000 ≡ true
        → o ≡ exited (pos 1) (message h frequency_error)
        → SetOutcome h o
    too_large :
        above_max c argv h.char_reg_value ≡ true
        → o ≡ exited (pos 1) (message h max_error)
        → SetOutcome h o
    passes :
        (h' : Globals)
        → action h' ≡ action h
        → h'.reg_off ≡ h.reg_off
        → h'.char_reg ≡ h.char_reg
        → o ≡ done true h'
        → SetOutcome h o

  abbrev pub then_true : Outcome Globals (Unit {0}) → Outcome Globals Bool
  then_true o = elim o [ done _ g ↦ done true g | exited n g ↦ exited n g | crashed ↦ crashed ]

  abbrev checked : Globals → Outcome Globals Bool
  checked h = then_true (check_value c argv h)

  checked_kp :
      (g : Globals) → let h = record g { char_reg = codes "kp" } in SetOutcome h (checked h)
  checked_kp g = elim (Bool-cases (above_max c argv g.char_reg_value)) [
    | inl p ↦ too_large p (ap then_true (check_kp g) ∙ rw p)
    | inr p ↦
        passes (record g { char_reg = codes "kp"; f_kp_val = true }) refl refl refl
          (ap then_true (check_kp g) ∙ rw p)
  ]

  checked_ki :
      (g : Globals) → let h = record g { char_reg = codes "ki" } in SetOutcome h (checked h)
  checked_ki g = elim (Bool-cases (above_max c argv g.char_reg_value)) [
    | inl p ↦ too_large p (ap then_true (check_ki g) ∙ rw p)
    | inr p ↦
        passes (record g { char_reg = codes "ki"; f_ki_val = true }) refl refl refl
          (ap then_true (check_ki g) ∙ rw p)
  ]

  checked_xv :
      (g : Globals) → let h = record g { char_reg = codes "xv" } in SetOutcome h (checked h)
  checked_xv g = elim (Bool-cases (above_max c argv g.char_reg_value)) [
    | inl p ↦ too_large p (ap then_true (check_xv g) ∙ rw p)
    | inr p ↦
        passes (record g { char_reg = codes "xv"; f_x_val = true }) refl refl refl
          (ap then_true (check_xv g) ∙ rw p)
  ]

  checked_fv :
      (g : Globals) → let h = record g { char_reg = codes "fv" } in SetOutcome h (checked h)
  checked_fv g = elim (Bool-cases (c.atof_above g.char_reg_value 8400000)) [
    | inl p ↦ too_fast refl p (ap then_true (check_fv g) ∙ rw p)
    | inr p ↦
        passes (record g { char_reg = codes "fv"; f_f_val = true }) refl refl refl
          (ap then_true (check_fv g) ∙ rw p)
  ]

  checked_register :
      (g : Globals) (reg : Text) (off : ℕ)
      → register_offset reg ≡ some off
      → let h = record g { char_reg = reg } in SetOutcome h (checked h)
  checked_register g reg off e = elim (register_offset_cases reg off e) [
    | inl (p, _) ↦ rw p (checked_kp g)
    | inr (inl (p, _)) ↦ rw p (checked_ki g)
    | inr (inr (inl (p, _))) ↦ rw p (checked_xv g)
    | inr (inr (inr (p, _))) ↦ rw p (checked_fv g)
  ]

  register_values_lem :
      (g g' : Globals)
      → register_values c argv g ≡ done true g'
      → (action g' ≡ action g) × (g'.char_reg ≡ g.char_reg) × (g'.n_dev ≡ g.n_dev)
  unfolding register_values
  register_values_lem g g' h = ground arith

  pub parse_register_lem :
      (g g' : Globals)
      → parse_register c argv g ≡ done true g'
      → (action g' ≡ action g) × IsDevice g'.char_reg g'.n_dev
  unfolding parse_register
  parse_register_lem g g' h = elim (Option-cases (get_elem? argv 2)) [
    | inl p ↦ let e : crashed ≡ done true g' = rw (p, parse_register) at h in cc
    | inr (dev, p) ↦
        let reg = strcpy_s g.char_reg 1024 dev in
        elim (Bool-cases (same_text reg (codes "cfg"))) [
          | inl q ↦
              let e = sym (rw (p, parse_register, q)) ∙ h in
              let (a, name, n) =
                register_values_lem (record g { char_reg = reg; n_dev = pos 1 }) g' e in
              (a, inl (name ∙ same_text→eq reg (codes "cfg") q, n))
          | inr q ↦ elim (Bool-cases (same_text reg (codes "sts"))) [
            | inl r ↦
                let e = sym (rw (p, parse_register, q, r)) ∙ h in
                let (a, name, n) =
                  register_values_lem (record g { char_reg = reg; n_dev = pos 2 }) g' e in
                (a, inr (name ∙ same_text→eq reg (codes "sts") r, n))
            | inr r ↦
                let e : done false (record g { char_reg = reg }) ≡ done true g' =
                  sym (rw (p, parse_register, q, r)) ∙ h in
                ground arith
          ]
        ]
  ]

  pub parse_register-no_exit : (g g' : Globals) (n : ℤ) → ¬ (parse_register c argv g ≡ exited n g')
  unfolding parse_register
  parse_register-no_exit g g' n h = ground arith

  -- Every outcome of `parse_set`.
  pub parse_set_lem :
      (g : Globals)
      → (parse_set c argv g ≡ crashed)
        ⊎ ((h : Globals) × (parse_set c argv g ≡ done false h))
        ⊎ ((h : Globals) × (action h ≡ action g)
            × IsRegister h.char_reg h.reg_off
            × ((h.char_action ≡ g.char_action)
                × ((val : Text) × (get_elem? argv 3 ≡ some val) × (h.char_reg_value ≡ take 15 val)))
            × SetOutcome h (parse_set c argv g))
  unfolding parse_set strcpy_s
  parse_set_lem g = elim (Option-cases (get_elem? argv 2)) [
    | inl p ↦ inl (rw (p, parse_set))
    | inr (name, p) ↦
        let reg = strcpy_s g.char_reg 1024 name in
        elim (Option-cases (register_offset reg)) [
          | inl q ↦ inr (inl (record g { char_reg = reg }, rw (p, parse_set, q)))
          | inr (off, q) ↦ elim (Option-cases (get_elem? argv 3)) [
            | inl r ↦ inl (rw (p, parse_set, q, r))
            | inr (val, r) ↦
                let g1 = record g {
                  reg_off = off;
                  char_reg_value = strcpy_s g.char_reg_value 16 val;
                } in
                inr (
                  inr (
                    record g1 { char_reg = reg },
                    refl,
                    register_offset_cases reg off q,
                    (refl, (val, r, refl)),
                    rw (p, parse_set, q, r) (checked_register g1 reg off q),
                  ))
          ]
        ]
  ]
