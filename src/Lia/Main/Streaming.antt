-- ===== src/Lia/Main/Streaming.antt =====
-- A whole run of the program with `-o`.
use mathlib.Core.List.{foldl}
use rfsoc.Common.{
  ℕ, ◌%◌, ◌^◌, ◌≤◌, ◌<◌, ◌≡◌, ◌≢◌, refl, ap, ◌∙◌, ◌⊎◌, inl, inr, true, false, List, [], ◌∷◌, ◌++◌,
  arith, le→leb, ◌==◌, Bool-cases, bit_or,
}
use rfsoc.Common.Int.{pos}
use rfsoc.Common.Memory.{load32, store32}
use rfsoc.Common.Text.{Text, codes}
use rfsoc.Common.Program.{done, crashed}
use rfsoc.Lia.Board.{cfg, sts, null, Board, written}
use rfsoc.Lia.Registers.{Os}
use rfsoc.Lia.Init.{Libc}
use rfsoc.Lia.Init.Laws.{set_reset_lem}
use rfsoc.Lia.Params.{Globals, parse_param, choose_action, reset_flags, strcpy_s}
use rfsoc.Lia.Params.Laws.{action, idle}
use rfsoc.Lia.Main.{Process, sample_loop, perform, session, main}
use rfsoc.Lia.Main.Laws.{Boots, booted, unmapped, closing, session_runs, main_runs, main_stops}
use rfsoc.Lia.Main.Sampling.{sample_line, Printable, sample_loop_lem, sample_loop-zero_divisor}

-- Status words have 32 bits.
abbrev pub IsWords : List ℕ → Type 0
IsWords [] = Unit {0}
IsWords (w ∷ ws) = (w < 2 ^ 32) × IsWords ws

-- The first word that cannot be printed.
abbrev pub Stop : List ℕ → Type 0
Stop words =
    (ws rest : List ℕ) × (w : ℕ) × (words ≡ ws ++ w ∷ rest)
    × Printable ws
    × (w < 2 ^ 32)
    × (w % 2 ^ 16 ≡ 0)

Printable-or_Stop : (words : List ℕ) → IsWords words → Printable words ⊎ Stop words
Printable-or_Stop [] h = inl tt
Printable-or_Stop (w ∷ ws) (lt, h) = elim (Bool-cases (w % 2 ^ 16 == 0)) [
  | inl y ↦ inr ([], ws, w, refl, tt, lt, ground arith)
  | inr n ↦
      let ne : w % 2 ^ 16 ≢ 0 = λ z. ground arith in
      elim (Printable-or_Stop ws h) [
        | inl ok ↦ inl ((lt, ne), ok)
        | inr (before, rest, v, e, ok, lt', z) ↦
            inr (w ∷ before, rest, v, ap (λ l. w ∷ l) e, ((lt, ne), ok), lt', z)
      ]
]

module _ (os : Os) (c : Libc) (n m : ℕ) (boots : Boots os n m) where
  -- The board when the loop begins.
  abbrev sampling : Board → Board
  sampling b = written cfg 0 (bit_or (load32 (b.mem cfg) 0) 1) (booted os n m boots b)

  perform_stream :
      (words : List ℕ) (g : Globals) (b : Board)
      → action g ≡ record idle { to_stdout = true }
      → 4 ≤ n
      → perform os c words g (booted os n m boots b) ≡ sample_loop words (sampling b)
  unfolding perform
  perform_stream words g b a h =
      ground (arith, set_reset_lem 1 (booted os n m boots b) (le→leb 4 n h))

  session_stream :
      (words : List ℕ) (g : Globals) (b : Board)
      → action g ≡ record idle { to_stdout = true }
      → 4 ≤ n
      → load32 (b.mem cfg) 0 ≢ 0
      → session os c words g b ≡ closing os n m boots (sample_loop words (sampling b))
  session_stream words g b a h ne =
      session_runs os n m boots c words g b h ne
      ∙ ap (closing os n m boots) (perform_stream words g b a h)

parse_stream :
    (c : Libc) (progname : Text) (g : Globals)
    → g.f_init_system ≡ false
    → (g' : Globals) × (parse_param c (progname ∷ codes "-o" ∷ []) g ≡ done true g')
      × (action g' ≡ record idle { to_stdout = true })
unfolding parse_param choose_action reset_flags strcpy_s
parse_stream c progname g fresh = (_, refl, rw fresh)

-- `-o`, on a board that is already initialised and where both devices map, over the 32-bit words that
-- the status register shows until the signal. If no word has a low half of 0, the program returns 0:
-- it has printed one line for each word, in their order, and has set bit 0 of the reset register and
-- changed no other configuration register, and both mappings are released. Otherwise it stops by a
-- division by zero.
pub main_streams :
    (os : Os) (c : Libc) (n m : ℕ) (progname : Text) (words : List ℕ) (p : Process)
    → Boots os n m
    → 4 ≤ n
    → 4 ≤ m
    → p.globals.f_init_system ≡ false
    → load32 (p.board.mem cfg) 0 ≢ 0
    → IsWords words
    → (Printable words
        × ((p' : Process) × (main os c progname (progname ∷ codes "-o" ∷ []) words p
              ≡ done (pos 0) p')
            × (p'.board.console ≡ foldl (λ lines w. sample_line w ∷ lines) p.board.console words)
            × (p'.board.mem cfg
                ≡ store32 (p.board.mem cfg) 0 (bit_or (load32 (p.board.mem cfg) 0) 1))
            × (p'.board.ptr cfg ≡ null)
            × (p'.board.ptr sts ≡ null)))
      ⊎ (Stop words × (main os c progname (progname ∷ codes "-o" ∷ []) words p ≡ crashed))
main_streams os c n m progname words p boots fits fits' fresh ne all =
    let (g, parsed, a) = parse_stream c progname p.globals fresh in
    let start = sampling os c n m boots p.board in
    let session_is = session_stream os c n m boots words g p.board a fits ne in
    elim (Printable-or_Stop words all) [
      | inl ok ↦
          let (b', runs, console, mem, ptr) = sample_loop_lem words start ok (le→leb 4 m fits') in
          let b = unmapped os n m boots b' in
          inl (
            ok,
            (
              record { board = b; globals = g },
              main_runs os c progname (progname ∷ codes "-o" ∷ []) words p g (pos 0) b parsed
                  (session_is ∙ ap (closing os n m boots) runs),
              console,
              mem,
              refl,
              refl,
            ),
          )
      | inr (before, rest, w, e, ok, lt, z) ↦
          let stops : sample_loop words start ≡ crashed =
            rw e (sample_loop-zero_divisor before rest w start ok lt z (le→leb 4 m fits')) in
          inr (
            (before, rest, w, e, ok, lt, z),
            main_stops os c progname (progname ∷ codes "-o" ∷ []) words p g parsed
                (session_is ∙ ap (closing os n m boots) stops),
          )
    ]
