-- ===== src/Dac/Player/Laws.antt =====
-- What goes to the FIFO.
use rfsoc.Common.{
  ℕ, zero, suc, ◌+◌, ◌-◌, ◌≤◌, ◌<◌, ◌≡◌, ◌∙◌, refl, sym, ap, inl, inr, Bool, true, false, some,
  List, [], ◌∷◌, ◌++◌, length, length-take, length-take_min, length-drop, take-append_drop,
  append_empty, take, drop, ltb, ◌==◌, arith, Bool-cases,
}
use mathlib.Core.List.{append_assoc}
use rfsoc.Common.Text.{Text}
use rfsoc.Common.Int.{ℤ, pos}
use rfsoc.Common.Memory.{load16}
use rfsoc.Common.Program.{done}
use rfsoc.Dac.Factor.{Strtol, factor, factor-bounds, set_factor, set_factor_lem}
use rfsoc.Dac.Player.{Player, System, main, buffer_size, wait_space, play}

-- All the bytes written, in their order.
abbrev pub joined : List (ℕ × Text) → Text
joined [] = []
joined (b ∷ bs) = joined bs ++ b.1

-- Each block was written after a status word of at most 16384, and has from 1 to 65536 bytes.
abbrev pub IsBlocks : List (ℕ × Text) → Type 0
IsBlocks [] = Unit {0}
IsBlocks (b ∷ bs) = (b.0 ≤ 16384) × (1 ≤ length b.1) × (length b.1 ≤ 65536) × IsBlocks bs

wait_space_lem :
    (status : ℕ → ℕ) (j fuel k : ℕ)
    → j < fuel
    → status (k + j) ≤ 16384
    → (word next : ℕ) × (wait_space status fuel k ≡ some (word, next)) × (word ≤ 16384)
unfolding wait_space
wait_space_lem status j zero k l h = absurd (omega arith)
wait_space_lem status zero (suc fuel) k l h =
    let e : k + 0 ≡ k = omega arith in
    let low : status k ≤ 16384 = rw (← e) h in
    let free : ltb 16384 (status k) ≡ false = ground arith in (status k, suc k, rw free refl, low)
wait_space_lem status (suc j) (suc fuel) k l h = elim (Bool-cases (ltb 16384 (status k))) [
  | inl full ↦
      let e : k + suc j ≡ suc k + j = omega arith in
      let (word, next, p, q) = wait_space_lem status j fuel (suc k) (omega arith) (rw (← e) h) in
      (word, next, rw full p, q)
  | inr free ↦ (status k, suc k, rw free refl, ground arith)
]

==-zero : (n : ℕ) → (n == 0) ≡ true → n ≡ 0
==-zero n h = ground arith

==-pos : (n : ℕ) → (n == 0) ≡ false → 1 ≤ n
==-pos n h = ground arith

-- Without a signal, if every run of as many reads of the status as a wait has fuel finds space once, and the
-- loop has more fuel than the file has bytes: the loop ends, the blocks written, one after the other, are
-- the file after what was written before, each has from 1 to 65536 bytes, and each was written after a
-- status word of at most 16384.
pub play_lem :
    (status : ℕ → ℕ) (interrupted : ℕ → Bool) (fuel rounds r k : ℕ) (file : Text)
    (written : List (ℕ × Text))
    → ((n : ℕ) → (j : ℕ) × (j < fuel) × (status (n + j) ≤ 16384))
    → ((n : ℕ) → interrupted n ≡ false)
    → length file < rounds
    → IsBlocks written
    → (blocks : List (ℕ × Text)) × (play status interrupted fuel rounds r k file written
        ≡ some blocks)
      × (joined blocks ≡ joined written ++ file)
      × IsBlocks blocks
unfolding play
play_lem status interrupted fuel zero r k file written space quiet l b = absurd (omega arith)
play_lem status interrupted fuel (suc rounds) r k file written space quiet l b =
    elim (Bool-cases (length (take buffer_size file) == 0)) [
      | inl y ↦
          let empty : length file ≡ 0 =
            omega (arith, length-take_min buffer_size file, ==-zero _ y) in
          (written, rw (quiet r, y) refl, sym (append_empty (joined written) file empty), b)
      | inr n ↦
          let (j, lt, low) = space k in
          let (word, next, p, q) = wait_space_lem status j fuel k lt low in
          let left : length (take buffer_size file) + length (drop buffer_size file) ≡ length file =
            length-drop buffer_size file in
          let some_bytes : 1 ≤ length (take buffer_size file) = ==-pos _ n in
          let (blocks, e, f, g) =
            play_lem status interrupted fuel rounds (suc r) next (drop buffer_size file)
              ((word, take buffer_size file) ∷ written) space quiet (omega arith)
              (q, some_bytes, length-take buffer_size file, b) in
          (
            blocks,
            rw (quiet r, n, p) e,
            f
                ∙ append_assoc (joined written) (take buffer_size file) (drop buffer_size file)
                ∙ ap (◌++◌ (joined written)) (take-append_drop buffer_size file),
            g,
          )
    ]

-- A factor that is accepted, a file that opens and no signal; in as many reads of the status as a wait has
-- fuel there is space once, and the loop has more fuel than the file has bytes. Then `main` returns 0, the
-- register holds the factor less one, with the factor from 10 to 65535, and the blocks written are the whole
-- file in its order, in blocks of 1 to 65536 bytes, each after a status word of at most 16384.
pub main_plays_file :
    (s : System) (strtol : Text → Strtol) (argc : ℕ) (argv1 bytes : Text) (number : ℤ)
    (fuel rounds : ℕ) (p : Player)
    → s.opens ≡ true
    → factor strtol argc argv1 ≡ some number
    → s.file ≡ some bytes
    → ((n : ℕ) → (j : ℕ) × (j < fuel) × (s.status (n + j) ≤ 16384))
    → ((n : ℕ) → s.interrupted n ≡ false)
    → length bytes < rounds
    → p.written ≡ []
    → (n : ℕ) × (p' : Player) × (main s strtol argc argv1 fuel rounds p ≡ done (some (pos 0)) p')
      × ((number ≡ pos n) × (10 ≤ n) × (n ≤ 65535) × (load16 p'.cfg 6 ≡ n - 1))
      × (joined p'.written ≡ bytes)
      × IsBlocks p'.written
unfolding main
main_plays_file s strtol argc argv1 bytes number fuel rounds p opens accepted file space quiet
      enough none_yet =
    let (argc_is, (n, e, low, high)) = factor-bounds strtol argc argv1 number accepted in
    let (blocks, q, f, g) =
      play_lem s.status s.interrupted fuel rounds 0 0 bytes [] space quiet enough tt in
    (
      n,
      record p { cfg = set_factor 6 number p.cfg; written = blocks },
      rw (opens, accepted, file, none_yet, q) refl,
      (e, low, high, rw e (set_factor_lem 6 n p.cfg low high)),
      f,
      g,
    )
