-- ===== src/Lia/Main/Status.antt =====
-- The status listing of the program with `-a`, and what it shows after a run with `-s`.
use rfsoc.Common.{
  ap, ℕ, ◌+◌, ◌≤◌, ◌<◌, ◌≡◌, ◌≢◌, refl, ◌∙◌, ◌⊎◌, inl, inr, true, false, List, [], ◌∷◌, arith,
  le→leb, ◌==◌, if◌then◌else◌,
}
use rfsoc.Common.Int.{ℤ, pos, signed32, InInt32}
use rfsoc.Common.Memory.{Memory, load32}
use rfsoc.Common.Text.{Text, codes}
use rfsoc.Common.Program.{done, Line, int, scaled, ◌>>=◌, ◌>>◌}
use rfsoc.Lia.Board.{cfg, mapped, Board, power_on, dev_read}
use rfsoc.Lia.Board.Laws.{dev_read_lem}
use rfsoc.Lia.Registers.{Os, rd_cfg_status}
use rfsoc.Lia.Init.{Libc}
use rfsoc.Lia.Params.{Globals, parse_param, choose_action, reset_flags, strcpy_s}
use rfsoc.Lia.Params.Laws.{action, idle}
use rfsoc.Lia.Main.{Process, perform, session, main}
use rfsoc.Lia.Main.Laws.{Boots, booted, unmapped, closing, session_runs, main_runs}
use rfsoc.Lia.Main.Gain.{IsGain, value_text, main_sets_gain}

-- The six lines of `-a`, newest first.
abbrev pub status_lines : ℤ → ℤ → ℕ → ℕ → List Line → List Line
status_lines kp ki x f before =
    record { format = "Status from registers complete!\n"; args = [] }
    ∷ record { format = "\n"; args = [] }
    ∷ record { format = "#Output freq  = %.3f Hz\n"; args = scaled (pos f) 8 ∷ [] }
    ∷ record { format = "#X_value      = %.9f\n"; args = scaled (pos x) 31 ∷ [] }
    ∷ record { format = "#K_i constant = %d\n"; args = int ki ∷ [] }
    ∷ record { format = "#K_p constant = %d\n"; args = int kp ∷ [] }
    ∷ before

abbrev shown : Board → Board
shown b = record b {
  console =
      status_lines (signed32 (load32 (b.mem cfg) 4)) (signed32 (load32 (b.mem cfg) 8))
        (load32 (b.mem cfg) 12) (load32 (b.mem cfg) 16) b.console;
}

-- What is on the console does not matter to a read.
reads_on :
    (n offset : ℕ) (b : Board) (k : List Line)
    → b.ptr cfg ≡ mapped n
    → offset + 4 ≤ n
    → dev_read cfg offset (record b { console = k })
      ≡ done (load32 (b.mem cfg) offset) (record b { console = k })
reads_on n offset b k p h =
    dev_read_lem cfg offset (record b { console = k }) (rw p (le→leb (offset + 4) n h))

rd_cfg_status_lem :
    (n : ℕ) (b : Board) → b.ptr cfg ≡ mapped n → 20 ≤ n → rd_cfg_status b ≡ done (pos 0) (shown b)
unfolding rd_cfg_status
rd_cfg_status_lem n b p h = rw (
  reads_on n 4 b b.console p (omega arith),
  ◌>>=◌,
  ◌>>◌,
  (λ (k : List Line). reads_on n 8 b k p (omega arith)),
  (λ (k : List Line). reads_on n 12 b k p (omega arith)),
  (λ (k : List Line). reads_on n 16 b k p (omega arith)),
)

module _ (os : Os) (c : Libc) (n m : ℕ) (boots : Boots os n m) where
  perform_status :
      (words : List ℕ) (g : Globals) (b : Board)
      → action g ≡ record idle { get_cfg_status = true }
      → 20 ≤ n
      → perform os c words g (booted os n m boots b) ≡ done tt (shown (booted os n m boots b))
  unfolding perform
  perform_status words g b a h = ground (arith, rd_cfg_status_lem n (booted os n m boots b) refl h)

  session_status :
      (words : List ℕ) (g : Globals) (b : Board)
      → action g ≡ record idle { get_cfg_status = true }
      → 20 ≤ n
      → load32 (b.mem cfg) 0 ≢ 0
      → session os c words g b
        ≡ done (pos 0) (unmapped os n m boots (shown (booted os n m boots b)))
  session_status words g b a h ne =
      session_runs os n m boots c words g b (omega arith) ne
      ∙ ap (closing os n m boots) (perform_status words g b a h)

parse_status :
    (c : Libc) (progname : Text) (g : Globals)
    → g.f_init_system ≡ false
    → (g' : Globals) × (parse_param c (progname ∷ codes "-a" ∷ []) g ≡ done true g')
      × (action g' ≡ record idle { get_cfg_status = true })
unfolding parse_param choose_action reset_flags strcpy_s
parse_status c progname g fresh = (_, refl, rw fresh)

-- `-a` on a board that is initialised.
main_shows :
    (os : Os) (c : Libc) (n m : ℕ) (progname : Text) (words : List ℕ) (p : Process)
    → Boots os n m
    → 20 ≤ n
    → p.globals.f_init_system ≡ false
    → load32 (p.board.mem cfg) 0 ≢ 0
    → (p' : Process) × (main os c progname (progname ∷ codes "-a" ∷ []) words p ≡ done (pos 0) p')
      × (p'.board.console
          ≡ status_lines
              (signed32 (load32 (p.board.mem cfg) 4))
              (signed32 (load32 (p.board.mem cfg) 8))
              (load32 (p.board.mem cfg) 12)
              (load32 (p.board.mem cfg) 16)
              p.board.console)
      × (p'.board.mem ≡ p.board.mem)
main_shows os c n m progname words p boots fits fresh ne =
    let (g, parsed, a) = parse_status c progname p.globals fresh in
    let b = unmapped os n m boots (shown (booted os n m boots p.board)) in
    (
      record { board = b; globals = g },
      main_runs os c progname (progname ∷ codes "-a" ∷ []) words p g (pos 0) b parsed
          (session_status os c n m boots words g p.board a fits ne),
      refl,
      refl,
    )

-- A word keeps its value where its bytes do.
load32_kept :
    (m m' : Memory) (off at : ℕ)
    → ((i : ℕ) → (i < off) ⊎ (off + 4 ≤ i) → m' i ≡ m i)
    → (at + 4 ≤ off) ⊎ (off + 4 ≤ at)
    → load32 m' at ≡ load32 m at
unfolding load32
load32_kept m m' off at h a = ground (arith, h at, h (at + 1), h (at + 2), h (at + 3))

above_reset : (name : Text) (off : ℕ) → IsGain name off → 4 ≤ off
above_reset name off (inl (_, e)) = omega arith
above_reset name off (inr (_, e)) = omega arith

-- Two runs of the program, the second one in a new process and on the registers that the first one
-- left, on a board that is already initialised and where both devices map, the configuration
-- registers over 20 bytes or more: `-s kp v` or `-s ki v` returns 0. `-a` then returns 0, changes no
-- register, and prints for that gain the integer that `atoi` reads in the first 15 characters of
-- `v`, and for the other gain, the X value and the frequency what their registers held before the
-- first run.
pub main_shows_gain :
    (c : Libc) (os : Os) (n m : ℕ) (progname name v : Text) (off : ℕ) (words words' : List ℕ)
    (p : Process) (g : Globals)
    → ((t : Text) → InInt32 (c.atoi t))
    → Boots os n m
    → 20 ≤ n
    → IsGain name off
    → p.globals.f_init_system ≡ false
    → g.f_init_system ≡ false
    → load32 (p.board.mem cfg) 0 ≢ 0
    → let gain_at : ℕ → ℤ =
        λ at. if off == at then c.atoi (value_text v) else signed32 (load32 (p.board.mem cfg) at) in
      (p' p'' : Process) × (main os c progname (progname ∷ codes "-s" ∷ name ∷ v ∷ []) words p
        ≡ done (pos 0) p')
      × (main os c progname
            (progname ∷ codes "-a" ∷ [])
            words'
            (record { board = power_on p'.board.mem; globals = g })
          ≡ done (pos 0) p'')
      × (p''.board.console
          ≡ status_lines
              (gain_at 4)
              (gain_at 8)
              (load32 (p.board.mem cfg) 12)
              (load32 (p.board.mem cfg) 16)
              [])
      × (p''.board.mem ≡ p'.board.mem)
main_shows_gain c os n m progname name v off words words' p g range boots fits gain fresh fresh'
      ne =
    let (p', sets, value, same, _, _, _) =
      main_sets_gain c range os n m progname name v off words p boots (omega arith) gain fresh ne in
    let kept : (at : ℕ)
        → (at + 4 ≤ off) ⊎ (off + 4 ≤ at)
        → load32 (p'.board.mem cfg) at ≡ load32 (p.board.mem cfg) at =
      λ at a. load32_kept (p.board.mem cfg) (p'.board.mem cfg) off at same a in
    let start : Process = record { board = power_on p'.board.mem; globals = g } in
    let ne' : load32 (p'.board.mem cfg) 0 ≢ 0 = rw (kept 0 (inl (above_reset name off gain))) ne in
    let (p'', shows, console, mem) =
      main_shows os c n m progname words' start boots fits fresh' ne' in
    (
      p',
      p'',
      sets,
      shows,
      elim gain [
        | inl (_, e) ↦
            console
            ∙ rw
                (
                  e,
                  rw e at value,
                  kept 8 (inr (omega arith)),
                  kept 12 (inr (omega arith)),
                  kept 16 (inr (omega arith)),
                )
                refl
        | inr (_, e) ↦
            console
            ∙ rw
                (
                  e,
                  rw e at value,
                  kept 4 (inl (omega arith)),
                  kept 12 (inr (omega arith)),
                  kept 16 (inr (omega arith)),
                )
                refl
      ],
      mem,
    )
