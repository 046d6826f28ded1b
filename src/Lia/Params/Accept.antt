-- ===== src/Lia/Params/Accept.antt =====
-- What an accepted command line gives to `main`, and the one way in which `parse_param` exits.
use rfsoc.Common.{
  take, some, ◌≡◌, ◌∙◌, sym, ◌⊎◌, inl, inr, true, false, List, arith, Option-cases, get_elem?,
  Bool-cases, ltb, length,
}
use rfsoc.Common.Int.{ℤ, pos, InInt32}
use rfsoc.Common.Text.{Text, codes, same_text→eq}
use rfsoc.Common.Program.{done, exited, crashed}
use rfsoc.Lia.Init.{Libc}
use rfsoc.Lia.Params.{
  Globals, parse_register, parse_set, returns, goes_on, strcpy_s, reset_flags, choose_action,
  above_max, dispatch, parse_param, frequency_error, message,
}
use rfsoc.Lia.Params.Laws.{
  action, idle, too_fast, too_large, passes, parse_register-no_exit, parse_set_lem,
}

-- The chain on the first argument sets one flag, or none and refuses.
choose_action_lem :
    (g : Globals)
    → action g ≡ idle
    → let (g', step) = choose_action g in
      (step ≡ returns false)
      ⊎ ((step ≡ returns true)
          × ((action g' ≡ record idle { get_cfg_status = true })
              ⊎ (action g' ≡ record idle { to_stdout = true })
              ⊎ (action g' ≡ record idle { init_system = true })))
      ⊎ ((step ≡ goes_on)
          × ((action g' ≡ record idle { read_reg = true })
              ⊎ (action g' ≡ record idle { write_reg = true })
              ⊎ ((action g' ≡ record idle { set_cfg_reg = true }) × (g'.char_action ≡ codes "-s"))))
unfolding choose_action
choose_action_lem g e = ground (arith, same_text→eq g.char_action (codes "-s"))

reset-idle : (g : Globals) → g.f_init_system ≡ false → action (reset_flags g) ≡ idle
unfolding reset_flags
reset-idle g e = ground arith

-- One of the three actions for which `parse_param` goes on after its first test.
abbrev Chosen : Globals → Type 0
Chosen g =
    (action g ≡ record idle { read_reg = true })
    ⊎ (action g ≡ record idle { write_reg = true })
    ⊎ ((action g ≡ record idle { set_cfg_reg = true }) × (g.char_action ≡ codes "-s"))

-- The only way to `exit(1)`.
abbrev TooFast : Libc → List Text → ℤ → Globals → Type 0
TooFast c argv n g =
    (n ≡ pos 1)
    × (action g ≡ record idle { set_cfg_reg = true })
    × (g.char_action ≡ codes "-s")
    × (g.char_reg ≡ codes "fv")
    × (val : Text) × (get_elem? argv 3 ≡ some val)
    × (c.atof_above (take 15 val) 8400000 ≡ true)

module _ (c : Libc) (argv : List Text) where
  dispatch-TooFast :
      (g g' : Globals) (n : ℤ)
      → ((t : Text) → InInt32 (c.atoi t))
      → Chosen g
      → dispatch c argv g ≡ exited n g'
      → TooFast c argv n g'
  unfolding dispatch
  dispatch-TooFast g g' n range (inl e) h =
      let h' : parse_register c argv g ≡ exited n g' = ground arith in
      absurd (parse_register-no_exit c argv g g' n h')
  dispatch-TooFast g g' n range (inr (inl e)) h =
      let h' : parse_register c argv g ≡ exited n g' = ground arith in
      absurd (parse_register-no_exit c argv g g' n h')
  dispatch-TooFast g g' n range (inr (inr (e, s))) h =
      let h' : parse_set c argv g ≡ exited n g' = ground arith in
      elim (parse_set_lem c argv g) [
        | inl p ↦ cc
        | inr (inl (k, p)) ↦ cc
        | inr (inr (k, a, r, (t, (val, q, cut)), too_fast reg above p)) ↦
            let same : message k frequency_error ≡ g' = cc in
            let code : n ≡ pos 1 = cc in
            rw (← same) (code, a ∙ e, t ∙ s, reg, val, q, rw cut at above)
        | inr (inr (k, a, r, v, too_large above p)) ↦ absurd (in_range k above)
        | inr (inr (k, a, r, v, passes k' a' r' n' p)) ↦ cc
      ]
    where
      in_range : (k : Globals) → ¬ (above_max c argv k.char_reg_value ≡ true)
      in_range k above = unfold above_max in ground (arith, range k.char_reg_value)

  -- How far `parse_param` gets on the first argument alone.
  first_argument :
      (g : Globals)
      → g.f_init_system ≡ false
      → (parse_param c argv g ≡ crashed)
        ⊎ ((h : Globals) × (parse_param c argv g ≡ done false h))
        ⊎ ((h : Globals) × (parse_param c argv g ≡ done true h)
            × ((action h ≡ record idle { get_cfg_status = true })
                ⊎ (action h ≡ record idle { to_stdout = true })
                ⊎ (action h ≡ record idle { init_system = true })))
        ⊎ ((h : Globals) × Chosen h × (parse_param c argv g ≡ dispatch c argv h))
  unfolding parse_param
  first_argument g fresh = elim (Bool-cases (ltb (length argv) 2)) [
    | inl p ↦ inr (inl (reset_flags g, rw (p, parse_param)))
    | inr p ↦ elim (Option-cases (get_elem? argv 1)) [
      | inl q ↦ inl (rw (p, parse_param, q))
      | inr (name, q) ↦
          let g1 = record (reset_flags g) {
            char_action = strcpy_s (reset_flags g).char_action 1024 name;
          } in
          let h = (choose_action g1).0 in
          elim (choose_action_lem g1 (reset-idle g fresh)) [
            | inl s ↦ inr (inl (h, rw (p, parse_param, q, s)))
            | inr (inl (s, a)) ↦ inr (inr (inl (h, rw (p, parse_param, q, s), a)))
            | inr (inr (s, a)) ↦ inr (inr (inr (h, a, rw (p, parse_param, q, s))))
          ]
    ]
  ]

  -- On the first call, `parse_param` ends the process only with `exit(1)`, and only for the action `-s`, the
  -- register fv and a fourth argument in whose first 15 characters `atof` reads more than 8400000: as `atoi`
  -- returns an `int`, the tests of the other three registers against 2^31 refuse nothing.
  pub parse_param_exit :
      (g g' : Globals) (n : ℤ)
      → ((t : Text) → InInt32 (c.atoi t))
      → g.f_init_system ≡ false
      → parse_param c argv g ≡ exited n g'
      → (n ≡ pos 1)
        × (action g' ≡ record idle { set_cfg_reg = true })
        × (g'.char_action ≡ codes "-s")
        × (g'.char_reg ≡ codes "fv")
        × (val : Text) × (get_elem? argv 3 ≡ some val)
        × (c.atof_above (take 15 val) 8400000 ≡ true)
  parse_param_exit g g' n range fresh h = elim (first_argument g fresh) [
    | inl p ↦ cc
    | inr (inl (k, p)) ↦ cc
    | inr (inr (inl (k, p, a))) ↦ cc
    | inr (inr (inr (k, chosen, p))) ↦ dispatch-TooFast k g' n range chosen (sym p ∙ h)
  ]
