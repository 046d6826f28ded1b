-- ===== src/Lia/Main/Frequency.antt =====
-- A whole run of the program with `-s fv`.
use rfsoc.Common.{
  ℕ, ◌≤◌, ◌<◌, ◌≡◌, ◌≢◌, refl, sym, ap, ◌∙◌, ◌⊎◌, inl, inr, true, false, List, [], ◌∷◌, arith,
  le→leb, Bool-cases,
}
use mathlib.Core.Path.{subst}
use rfsoc.Common.Int.{pos, signed32, word32, is_int32}
use rfsoc.Common.Memory.{load32, load32-store32, store32_outside}
use rfsoc.Common.Text.{Text, codes}
use rfsoc.Common.Program.{done, exited, str}
use rfsoc.Lia.Board.{cfg, sts, null, Board, written}
use rfsoc.Lia.Registers.{Os}
use rfsoc.Lia.Init.{Libc, times_pow}
use rfsoc.Lia.Init.Laws.{say, set_frequency_lem, times_pow-lt, times_pow_cases}
use rfsoc.Lia.Params.{
  Globals, parse_param, choose_action, dispatch, parse_set, reset_flags, strcpy_s, message,
  frequency_error,
}
use rfsoc.Lia.Params.Laws.{check_fv, then_true}
use rfsoc.Lia.Main.{Process, perform, main}
use rfsoc.Lia.Main.Laws.{Boots, booted, unmapped, closing, session_runs, main_runs, main_exits}
use rfsoc.Lia.Main.Gain.{value_text}

-- A register written with `value * pow(2, k)`: it holds that number when `int32_t` does, and what the
-- overflow of the conversion gives otherwise.
abbrev pub Sent : (c : Libc) → c.Float → ℕ → ℕ → Type 0
Sent c value k word =
    ((is_int32 (c.scale value k) ≡ true) × (signed32 word ≡ c.scale value k))
    ⊎ ((is_int32 (c.scale value k) ≡ false) × (word ≡ word32 (c.overflow value k)))

module _ (c : Libc) (progname v : Text) where
  abbrev fv_argv : List Text
  fv_argv = progname ∷ codes "-s" ∷ codes "fv" ∷ v ∷ []

  -- What the check of the frequency sees.
  abbrev before_check : Globals → Globals
  before_check g = record (reset_flags g) {
    f_set_cfg_reg = true;
    char_action = codes "-s";
    char_reg = codes "fv";
    reg_off = 16;
    char_reg_value = value_text v;
  }

  abbrev accepted : Globals → Globals
  accepted g = record (before_check g) { f_f_val = true }

  parse_fv :
      (g : Globals)
      → c.atof_above (value_text v) 8400000 ≡ false
      → parse_param c fv_argv g ≡ done true (accepted g)
  unfolding parse_param choose_action dispatch parse_set reset_flags strcpy_s
  parse_fv g low = ap (then_true c fv_argv) (check_fv c fv_argv (before_check g)) ∙ rw low refl

  refuse_fv :
      (g : Globals)
      → c.atof_above (value_text v) 8400000 ≡ true
      → parse_param c fv_argv g ≡ exited (pos 1) (message (before_check g) frequency_error)
  unfolding parse_param choose_action dispatch parse_set reset_flags strcpy_s
  refuse_fv g high = ap (then_true c fv_argv) (check_fv c fv_argv (before_check g)) ∙ rw high refl

  main_refuses :
      (os : Os) (words : List ℕ) (p : Process)
      → c.atof_above (value_text v) 8400000 ≡ true
      → (p' : Process) × (main os c progname fv_argv words p ≡ exited (pos 1) p')
        × (p'.board ≡ p.board)
  main_refuses os words p high = (
    record p { globals = message (before_check p.globals) frequency_error },
    main_exits os c progname fv_argv words p (pos 1)
        (message (before_check p.globals) frequency_error) (refuse_fv p.globals high),
    refl,
  )

  -- The board that the run leaves.
  module _ (os : Os) (n m : ℕ) (boots : Boots os n m) where
    abbrev set_board : Board → Board
    set_board b =
        say "The output frequency is now: %.3f Hz\n" (str (c.show (c.atof (value_text v))) ∷ [])
          (written cfg 16 (times_pow c (c.atof (value_text v)) 8) (booted os n m boots b))

    perform_fv :
        (words : List ℕ) (g : Globals) (b : Board)
        → g.f_init_system ≡ false
        → 20 ≤ n
        → perform os c words (accepted g) (booted os n m boots b) ≡ done tt (set_board b)
    unfolding perform reset_flags
    perform_fv words g b fresh room =
        set_frequency_lem c 16 (c.atof (value_text v)) (booted os n m boots b) (le→leb 20 n room)

-- `-s fv v`, on a board that is already initialised and where both devices map, the configuration
-- registers over 20 bytes or more, when `atof` reads more than 8400000 in the
-- first 15 characters of `v`, the program exits with 1 and the board is as it was. Otherwise it returns
-- 0, and the register of the frequency, read as an `int32_t`, holds what `atof` reads there times 2^8,
-- if `int32_t` holds that; if not, as from 8388608 to 8400000, it holds what the overflow of the
-- conversion gives. No other byte of the configuration registers changes, and both mappings are released.
pub main_sets_frequency :
    (os : Os) (c : Libc) (n m : ℕ) (progname v : Text) (words : List ℕ) (p : Process)
    → Boots os n m
    → 20 ≤ n
    → p.globals.f_init_system ≡ false
    → load32 (p.board.mem cfg) 0 ≢ 0
    → let run = main os c progname (progname ∷ codes "-s" ∷ codes "fv" ∷ v ∷ []) words p in
      ((c.atof_above (value_text v) 8400000 ≡ true)
        × ((p' : Process) × (run ≡ exited (pos 1) p') × (p'.board ≡ p.board)))
      ⊎ ((c.atof_above (value_text v) 8400000 ≡ false)
          × ((p' : Process) × (run ≡ done (pos 0) p')
              × Sent c (c.atof (value_text v)) 8 (load32 (p'.board.mem cfg) 16)
              × ((i : ℕ) → (i < 16) ⊎ (20 ≤ i) → p'.board.mem cfg i ≡ p.board.mem cfg i)
              × (p'.board.ptr cfg ≡ null)
              × (p'.board.ptr sts ≡ null)))
main_sets_frequency os c n m progname v words p boots room fresh ne =
    elim (Bool-cases (c.atof_above (value_text v) 8400000)) [
      | inl high ↦ inl (high, main_refuses c progname v os words p high)
      | inr low ↦
          let g = accepted c progname v p.globals in
          let b = unmapped os n m boots (set_board c progname v os n m boots p.board) in
          let word = times_pow c (c.atof (value_text v)) 8 in
          inr (
            low,
            (
              record { board = b; globals = g },
              main_runs os c progname (fv_argv c progname v) words p g (pos 0) b
                  (parse_fv c progname v p.globals low)
                  (session_runs os n m boots c words g p.board (omega arith) ne
                    ∙ ap (closing os n m boots)
                        (perform_fv c progname v os n m boots words p.globals p.board fresh room)),
              subst (Sent c (c.atof (value_text v)) 8)
                  (sym (load32-store32 (p.board.mem cfg) 16 word (times_pow-lt c _ _)))
                  (times_pow_cases c (c.atof (value_text v)) 8),
              (λ i h. store32_outside (p.board.mem cfg) 16 word i h),
              refl,
              refl,
            ),
          )
    ]
