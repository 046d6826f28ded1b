-- ===== src/Lia/Main/Gain.antt =====
-- A whole run of the program with `-s kp` or `-s ki`, from the command line to the register.
use rfsoc.Common.{
  ℕ, ◌+◌, ◌≤◌, ◌<◌, ◌≡◌, ◌≢◌, refl, ap, ◌∙◌, ◌⊎◌, inl, inr, true, false, List, [], ◌∷◌, arith, take,
}
use rfsoc.Common.Int.{pos, word32, word32-lt, signed32, signed32-word32, InInt32}
use rfsoc.Common.Memory.{load32, store32, load32-store32, store32_outside}
use rfsoc.Common.Text.{Text, codes}
use rfsoc.Common.Program.{done}
use rfsoc.Lia.Board.{Device, intc, cfg, sts, xadc, null, put}
use rfsoc.Lia.Registers.{Os, cfg_kp_offset, cfg_ki_offset}
use rfsoc.Lia.Registers.Laws.{after_write}
use rfsoc.Lia.Init.{Libc}
use rfsoc.Lia.Params.{
  Globals, parse_param, above_max, choose_action, dispatch, parse_set, reset_flags, strcpy_s,
}
use rfsoc.Lia.Params.Laws.{action, idle, check_kp, check_ki, then_true}
use rfsoc.Lia.Main.{Process, session, main}
use rfsoc.Lia.Main.Laws.{Boots, booted, unmapped, session_set, main_runs}

-- The first 15 characters of a value, which is all that `charRegValue` takes.
abbrev pub value_text : Text → Text
value_text v = take 15 v

-- The registers of the two gains by the names that `-s` gives them.
abbrev pub IsGain : Text → ℕ → Type 0
IsGain name off =
    ((name ≡ codes "kp") × (off ≡ cfg_kp_offset)) ⊎ ((name ≡ codes "ki") × (off ≡ cfg_ki_offset))

gain_room : (name : Text) (off n : ℕ) → IsGain name off → 12 ≤ n → off + 4 ≤ n
gain_room name off n (inl (p, q)) h = omega arith
gain_room name off n (inr (p, q)) h = omega arith

module _ (c : Libc) (range : (t : Text) → InInt32 (c.atoi t)) where
  not_above : (argv : List Text) (t : Text) → above_max c argv t ≡ false
  unfolding above_max
  not_above argv t = ground (arith, range t)

  abbrev Parsed : List Text → ℕ → Text → Globals → Type 0
  Parsed argv off v g =
      (g' : Globals) × (parse_param c argv g ≡ done true g')
      × (action g' ≡ record idle { set_cfg_reg = true })
      × (g'.f_f_val ≡ false)
      × (g'.f_x_val ≡ false)
      × (g'.reg_off ≡ off)
      × (g'.char_reg_value ≡ value_text v)

  -- What the value's checks of `-s` see.
  abbrev before_checks : Text → ℕ → Text → Globals → Globals
  before_checks name off v g = record (reset_flags g) {
    f_set_cfg_reg = true;
    char_action = codes "-s";
    char_reg = name;
    reg_off = off;
    char_reg_value = value_text v;
  }

  parse_kp :
      (progname v : Text) (g : Globals)
      → g.f_init_system ≡ false
      → Parsed (progname ∷ codes "-s" ∷ codes "kp" ∷ v ∷ []) 4 v g
  unfolding parse_param choose_action dispatch parse_set reset_flags strcpy_s
  parse_kp progname v g fresh =
      let argv = progname ∷ codes "-s" ∷ codes "kp" ∷ v ∷ [] in
      let h = before_checks (codes "kp") 4 v g in
      (
        record h { f_kp_val = true },
        ap (then_true c argv) (check_kp c argv h) ∙ rw (not_above argv (value_text v)),
        rw fresh,
        refl,
        refl,
        refl,
        refl,
      )

  parse_ki :
      (progname v : Text) (g : Globals)
      → g.f_init_system ≡ false
      → Parsed (progname ∷ codes "-s" ∷ codes "ki" ∷ v ∷ []) 8 v g
  unfolding parse_param choose_action dispatch parse_set reset_flags strcpy_s
  parse_ki progname v g fresh =
      let argv = progname ∷ codes "-s" ∷ codes "ki" ∷ v ∷ [] in
      let h = before_checks (codes "ki") 8 v g in
      (
        record h { f_ki_val = true },
        ap (then_true c argv) (check_ki c argv h) ∙ rw (not_above argv (value_text v)),
        rw fresh,
        refl,
        refl,
        refl,
        refl,
      )

  parse_gain :
      (progname name v : Text) (off : ℕ) (g : Globals)
      → IsGain name off
      → g.f_init_system ≡ false
      → Parsed (progname ∷ codes "-s" ∷ name ∷ v ∷ []) off v g
  parse_gain progname name v off g (inl (p, q)) fresh = rw (p, q) (parse_kp progname v g fresh)
  parse_gain progname name v off g (inr (p, q)) fresh = rw (p, q) (parse_ki progname v g fresh)

  -- `-s kp v` and `-s ki v`, on a board that is already initialised and where both devices map: the
  -- program returns 0 and leaves in that gain's register the integer that `atoi` reads in the first
  -- 15 characters of the value. No byte outside that register changes on any device, and both
  -- mappings are released.
  pub main_sets_gain :
      (os : Os) (n m : ℕ) (progname name v : Text) (off : ℕ) (words : List ℕ) (p : Process)
      → Boots os n m
      → 12 ≤ n
      → IsGain name off
      → p.globals.f_init_system ≡ false
      → load32 (p.board.mem cfg) 0 ≢ 0
      → (p' : Process) × (main os c progname (progname ∷ codes "-s" ∷ name ∷ v ∷ []) words p
          ≡ done (pos 0) p')
        × (signed32 (load32 (p'.board.mem cfg) off) ≡ c.atoi (value_text v))
        × ((i : ℕ) → (i < off) ⊎ (off + 4 ≤ i) → p'.board.mem cfg i ≡ p.board.mem cfg i)
        × ((d : Device) → d ≢ cfg → p'.board.mem d ≡ p.board.mem d)
        × (p'.board.ptr cfg ≡ null)
        × (p'.board.ptr sts ≡ null)
  unfolding main
  main_sets_gain os n m progname name v off words p boots fits gain fresh ne =
      let (g, parsed, a, f, x, o, t) = parse_gain progname name v off p.globals gain fresh in
      let room : g.reg_off + 4 ≤ n = rw o (gain_room name off n gain fits) in
      let word = word32 (c.atoi (value_text v)) in
      let b = unmapped os n m boots (after_write cfg off word (booted os n m boots p.board)) in
      let runs : session os c words g p.board ≡ done (pos 0) b =
        rw (o, t) at (session_set os n m boots c words g p.board a f x room ne) in
      (
        record { board = b; globals = g },
        main_runs os c progname (progname ∷ codes "-s" ∷ name ∷ v ∷ []) words p g (pos 0) b parsed
            runs,
        rw (load32-store32 (p.board.mem cfg) off word (word32-lt (c.atoi (value_text v))))
            (signed32-word32 (c.atoi (value_text v)) (range (value_text v))),
        (λ i h. store32_outside (p.board.mem cfg) off word i h),
        (λ d h. put_other d word h),
        refl,
        refl,
      )
    where
      put_other :
          (d : Device) (x : ℕ)
          → d ≢ cfg
          → put cfg (store32 (p.board.mem cfg) off x) p.board.mem d ≡ p.board.mem d
      put_other intc x h = refl
      put_other cfg x h = absurd (h refl)
      put_other sts x h = refl
      put_other xadc x h = refl
