-- ===== src/Lia/Main/Laws.antt =====
-- Whole runs of the lock-in amplifier's program.
use rfsoc.Common.{
  ap, ◌∙◌, ℕ, suc, ◌+◌, ◌≤◌, ◌≡◌, ◌≢◌, refl, inl, true, false, List, arith, le→leb, ne→==, Bool,
}
use rfsoc.Common.Int.{ℤ, pos, word32}
use rfsoc.Common.Memory.{load32}
use rfsoc.Common.Text.{Text}
use rfsoc.Common.Program.{Outcome, exited, crashed, done, ◌>>=◌, ◌>>◌}
use rfsoc.Lia.Board.{cfg, sts, null, mapped, Board, put}
use rfsoc.Lia.Board.Laws.{dev_read_lem}
use rfsoc.Lia.Registers.{Os, size, cfg_init, sts_init}
use rfsoc.Lia.Registers.Laws.{wr_reg_value_runs, after_write}
use rfsoc.Lia.Init.{Libc}
use rfsoc.Lia.Params.{Globals, parse_param}
use rfsoc.Lia.Params.Laws.{action, idle}
use rfsoc.Lia.Main.{Process, show_usage, first_access, perform, session, main}

show_usage-keeps :
    (show_version : Bool) (progname : Text) (b : Board)
    → (b' : Board) × (show_usage show_version progname b ≡ done tt b')
      × (b'.mem ≡ b.mem)
      × (b'.ptr ≡ b.ptr)
      × (b'.fd ≡ b.fd)
unfolding show_usage
show_usage-keeps true progname b = (_, refl, refl, refl, refl)
show_usage-keeps false progname b = (_, refl, refl, refl, refl)

-- A refused command line: `main` prints its usage or its version and returns 1. No device file is
-- opened and no register is read or written.
pub main_refused :
    (os : Os) (c : Libc) (progname : Text) (argv : List Text) (words : List ℕ) (p : Process)
    (g : Globals)
    → parse_param c argv p.globals ≡ done false g
    → (p' : Process) × (main os c progname argv words p ≡ done (pos 1) p')
      × (p'.board.mem ≡ p.board.mem)
      × (p'.board.ptr ≡ p.board.ptr)
      × (p'.board.fd ≡ p.board.fd)
main_refused os c progname argv words p g h =
    let (b, runs, mem, ptr, fd) = show_usage-keeps g.f_show_version progname p.board in
    (
      record p { board = b; globals = g },
      unfold main in rw (h, main, runs, ◌>>=◌, ◌>>◌),
      mem,
      ptr,
      fd,
    )

-- The system maps both devices, over `n` and `m` bytes.
pub record Boots (os : Os) (n m : ℕ) : Type 0 where
  pub cfg_fd : ℕ
  pub sts_fd : ℕ
  pub cfg_opens : os.open_file "/dev/uio1" ≡ pos (suc cfg_fd)
  pub sts_opens : os.open_file "/dev/uio2" ≡ pos (suc sts_fd)
  pub cfg_size : os.size_file "/sys/class/uio/uio1/maps/map0/size" ≡ size n
  pub sts_size : os.size_file "/sys/class/uio/uio2/maps/map0/size" ≡ size m
  pub cfg_maps : os.can_map (pos (suc cfg_fd)) n ≡ true
  pub sts_maps : os.can_map (pos (suc sts_fd)) m ≡ true

module _ (os : Os) (n m : ℕ) (boots : Boots os n m) where
  open boots use {cfg_fd, sts_fd, cfg_opens, sts_opens, cfg_size, sts_size, cfg_maps, sts_maps}

  abbrev pub with_cfg : Board → Board
  with_cfg b = record b {
    fd = put cfg (pos (suc cfg_fd)) b.fd;
    ptr = put cfg (mapped n) b.ptr;
    dev_size = n;
  }

  abbrev pub with_sts : Board → Board
  with_sts b = record b {
    fd = put sts (pos (suc sts_fd)) b.fd;
    ptr = put sts (mapped m) b.ptr;
    dev_size = m;
  }

  cfg_init_runs : (b : Board) → cfg_init os b ≡ done (pos 0) (with_cfg b)
  unfolding cfg_init
  cfg_init_runs b = ground arith

  sts_init_runs : (b : Board) → sts_init os b ≡ done (pos 0) (with_sts b)
  unfolding sts_init
  sts_init_runs b = ground arith

  -- Both devices mapped, as `main` finds them after its two calls.
  abbrev pub booted : Board → Board
  booted b = with_sts (with_cfg b)

  first_access_none :
      (c : Libc) (b : Board)
      → 4 ≤ n
      → load32 (b.mem cfg) 0 ≢ 0
      → first_access os c (booted b) ≡ done tt (booted b)
  unfolding first_access
  first_access_none c b h ne =
      rw (dev_read_lem cfg 0 (booted b) (le→leb 4 n h), ◌>>=◌, ne→== (load32 (b.mem cfg) 0) 0 ne)

  perform_set :
      (c : Libc) (words : List ℕ) (g : Globals) (b : Board)
      → action g ≡ record idle { set_cfg_reg = true }
      → g.f_f_val ≡ false
      → g.f_x_val ≡ false
      → g.reg_off + 4 ≤ n
      → perform os c words g (booted b)
        ≡ done tt (after_write cfg g.reg_off (word32 (c.atoi g.char_reg_value)) (booted b))
  unfolding perform
  perform_set c words g b a f x h = ground (
    arith,
    wr_reg_value_runs (pos 1) cfg g.reg_off (word32 (c.atoi g.char_reg_value)) (booted b) refl
        (inl refl) (le→leb (g.reg_off + 4) n h),
  )

  abbrev pub unmapped : Board → Board
  unmapped b = record b { ptr = put sts null (put cfg null b.ptr) }

  abbrev pub closing : Outcome Board (Unit {0}) → Outcome Board ℤ
  closing o = elim o [
    | done _ b ↦ done (pos 0) (unmapped b)
    | exited k b ↦ exited k b
    | crashed ↦ crashed
  ]

  -- `main` after an accepted command line and the check for the first access.
  pub session_after :
      (c : Libc) (words : List ℕ) (g : Globals) (b b' : Board)
      → first_access os c (booted b) ≡ done tt b'
      → session os c words g b ≡ closing (perform os c words g b')
  unfolding session
  session_after c words g b b' first =
      rw (cfg_init_runs b, ◌>>=◌, ◌>>◌, sts_init_runs (with_cfg b), first)

  -- The same, on a board that is initialised.
  pub session_runs :
      (c : Libc) (words : List ℕ) (g : Globals) (b : Board)
      → 4 ≤ n
      → load32 (b.mem cfg) 0 ≢ 0
      → session os c words g b ≡ closing (perform os c words g (booted b))
  session_runs c words g b h ne = session_after c words g b (booted b) (first_access_none c b h ne)

  pub session_set :
      (c : Libc) (words : List ℕ) (g : Globals) (b : Board)
      → action g ≡ record idle { set_cfg_reg = true }
      → g.f_f_val ≡ false
      → g.f_x_val ≡ false
      → g.reg_off + 4 ≤ n
      → load32 (b.mem cfg) 0 ≢ 0
      → session os c words g b
        ≡ done
            (pos 0)
            (unmapped (after_write cfg g.reg_off (word32 (c.atoi g.char_reg_value)) (booted b)))
  session_set c words g b a f x h ne =
      session_runs c words g b (omega arith) ne ∙ ap closing (perform_set c words g b a f x h)

pub main_runs :
    (os : Os) (c : Libc) (progname : Text) (argv : List Text) (words : List ℕ) (p : Process)
    (g : Globals) (r : ℤ) (b : Board)
    → parse_param c argv p.globals ≡ done true g
    → session os c words g p.board ≡ done r b
    → main os c progname argv words p ≡ done r (record { board = b; globals = g })
unfolding main
main_runs os c progname argv words p g r b h s = ground arith

pub main_stops :
    (os : Os) (c : Libc) (progname : Text) (argv : List Text) (words : List ℕ) (p : Process)
    (g : Globals)
    → parse_param c argv p.globals ≡ done true g
    → session os c words g p.board ≡ crashed
    → main os c progname argv words p ≡ crashed
unfolding main
main_stops os c progname argv words p g h s = ground arith

pub main_exits :
    (os : Os) (c : Libc) (progname : Text) (argv : List Text) (words : List ℕ) (p : Process) (r : ℤ)
    (g : Globals)
    → parse_param c argv p.globals ≡ exited r g
    → main os c progname argv words p ≡ exited r (record p { globals = g })
unfolding main
main_exits os c progname argv words p r g h = ground arith
