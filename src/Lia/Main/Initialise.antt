-- ===== src/Lia/Main/Initialise.antt =====
-- A whole run of the program with `-i`.
use rfsoc.Common.{
  ℕ, ◌^◌, ◌≤◌, ◌<◌, ◌≡◌, ◌≢◌, max, refl, ap, ◌∙◌, inl, inr, true, List, [], ◌∷◌, arith, ◌==◌,
  Bool-cases,
}
use mathlib.Core.Path.{subst}
use rfsoc.Common.Int.{pos}
use rfsoc.Common.Bits.{bit}
use rfsoc.Common.Memory.{Memory, IsBytes, load32, store32-IsBytes}
use rfsoc.Common.Text.{Text, codes}
use rfsoc.Common.Program.{done}
use rfsoc.Lia.Board.{Device, cfg, mapped, Board}
use rfsoc.Lia.Registers.{Os, cfg_kp_offset, cfg_ki_offset, cfg_x_value_offset, cfg_f_value_offset}
use rfsoc.Lia.Init.{Libc, times_pow, init_system}
use rfsoc.Lia.Init.Laws.{after_init, init_system_runs, init_system_lem}
use rfsoc.Lia.Params.{Globals, parse_param, choose_action, reset_flags, strcpy_s}
use rfsoc.Lia.Params.Laws.{action, idle}
use rfsoc.Lia.Main.{Process, first_access, perform, main}
use rfsoc.Lia.Main.Laws.{Boots, booted, unmapped, closing, session_after, main_runs}
use rfsoc.Lia.Main.Once.{announced, first_access_first, first_access_not_first}

-- What the initialisation makes of the registers.
abbrev pub IsInitialised : Libc → (Device → Memory) → (Device → Memory) → Type 0
IsInitialised c m m' =
    (load32 (m' cfg) cfg_kp_offset ≡ 2 ^ 21)
    × (load32 (m' cfg) cfg_ki_offset ≡ 32)
    × (load32 (m' cfg) cfg_x_value_offset ≡ times_pow c (c.literal 999998994 9) 31)
    × (load32 (m' cfg) cfg_f_value_offset ≡ times_pow c (c.literal 10000 0) 8)
    × ((k : ℕ) → k < 32 → bit k (load32 (m' cfg) 0) ≡ max (bit k (load32 (m cfg) 0)) (bit k 1))
    × ((i : ℕ) → 20 ≤ i → m' cfg i ≡ m cfg i)
    × ((d : Device) → d ≢ cfg → m' d ≡ m d)

-- A second initialisation makes no difference.
IsInitialised-twice :
    (c : Libc) (m m1 m2 : Device → Memory)
    → IsInitialised c m m1
    → IsInitialised c m1 m2
    → IsInitialised c m m2
IsInitialised-twice c m m1 m2 (_, _, _, _, bits1, above1, others1)
      (kp, ki, x, f, bits, above, others) =
    (
      kp,
      ki,
      x,
      f,
      (λ k l. omega (arith, bits k l, bits1 k l)),
      (λ i l. above i l ∙ above1 i l),
      (λ d ne. others d ne ∙ others1 d ne),
    )

after_init-IsBytes :
    (c : Libc) (b : Board) → IsBytes (b.mem cfg) → IsBytes ((after_init c b).mem cfg)
after_init-IsBytes c b h = store32-IsBytes _ _ _ (
    store32-IsBytes _ _ _ (
      store32-IsBytes _ _ _
        (store32-IsBytes _ _ _ (store32-IsBytes _ _ _ (store32-IsBytes _ _ _ h)))))

initialise :
    (c : Libc) (b : Board) (size : ℕ)
    → b.ptr cfg ≡ mapped size
    → 20 ≤ size
    → IsBytes (b.mem cfg)
    → (b' : Board) × (init_system c b ≡ done (pos 0) b') × IsInitialised c b.mem b'.mem
initialise c b size p h bytes =
    let (b', runs, kp, ki, x, f, bits, above, others) = init_system_lem c b size p h bytes in
    (b', runs, (kp, ki, x, f, bits, above, others))

parse_init :
    (c : Libc) (progname : Text) (g : Globals)
    → (g' : Globals) × (parse_param c (progname ∷ codes "-i" ∷ []) g ≡ done true g')
      × (action g' ≡ record idle { init_system = true })
unfolding parse_param choose_action reset_flags strcpy_s
parse_init c progname g = (_, refl, refl)

perform_init :
    (os : Os) (c : Libc) (words : List ℕ) (g : Globals) (b b' : Board)
    → action g ≡ record idle { init_system = true }
    → init_system c (announced b) ≡ done (pos 0) b'
    → perform os c words g b ≡ done tt b'
unfolding perform
perform_init os c words g b b' a runs = ground (arith, runs)

module _ (os : Os) (c : Libc) (n m : ℕ) (boots : Boots os n m) (room : 20 ≤ n) where
  -- The board that the check for the first access leaves.
  After : Board → Type 0
  After b =
      (b' : Board) × (first_access os c (booted os n m boots b) ≡ done tt b')
      × (b'.ptr cfg ≡ mapped n)
      × IsBytes (b'.mem cfg)
      × ((m' : Device → Memory) → IsInitialised c b'.mem m' → IsInitialised c b.mem m')

  first_access-After : (b : Board) → IsBytes (b.mem cfg) → After b
  unfolding After
  first_access-After b bytes = elim (Bool-cases (load32 (b.mem cfg) 0 == 0)) [
    | inl y ↦
        let start = announced (booted os n m boots b) in
        let (b1, runs, one) = initialise c start n refl room bytes in
        let same : b1 ≡ after_init c start =
          ground (arith, runs, init_system_runs c start n refl room) in
        (
          after_init c start,
          first_access_first os c (booted os n m boots b) n refl room y,
          refl,
          after_init-IsBytes c start bytes,
          λ m' two.
              IsInitialised-twice c b.mem (after_init c start).mem m'
                (subst (λ q. IsInitialised c b.mem q.mem) same one) two,
        )
    | inr n0 ↦
        let ne : load32 (b.mem cfg) 0 ≢ 0 = λ z. ground arith in
        (
          booted os n m boots b,
          first_access_not_first os c (booted os n m boots b) n refl room ne,
          refl,
          bytes,
          λ m' one. one,
        )
  ]

  -- `-i`, where both devices map, the configuration registers over 20 bytes or more, and these hold
  -- bytes: the program returns 0, whatever the reset register held, and so
  -- whether the registers are initialised once or twice. It leaves 2^21 in K_p, 32 in K_i and the
  -- scaled 10 kHz and 0.999998994 in the other two registers. Of the reset register, bit 0 is set and
  -- the other 31 bits are as before. No byte after the registers and no other device changes.
  pub main_initialises :
      (progname : Text) (words : List ℕ) (p : Process)
      → IsBytes (p.board.mem cfg)
      → (p' : Process) × (main os c progname (progname ∷ codes "-i" ∷ []) words p ≡ done (pos 0) p')
        × IsInitialised c p.board.mem p'.board.mem
  unfolding After
  main_initialises progname words p bytes =
      let (g, parsed, a) = parse_init c progname p.globals in
      let (b1, first, ptr, bytes1, and_then) = first_access-After p.board bytes in
      let (b2, runs, made) = initialise c (announced b1) n ptr room bytes1 in
      let b = unmapped os n m boots b2 in
      (
        record { board = b; globals = g },
        main_runs os c progname (progname ∷ codes "-i" ∷ []) words p g (pos 0) b parsed (
            session_after os n m boots c words g p.board b1 first
            ∙ ap (closing os n m boots) (perform_init os c words g b1 b2 a runs)),
        and_then b2.mem made,
      )
