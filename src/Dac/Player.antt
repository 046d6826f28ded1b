-- ===== src/Dac/Player.antt =====
-- projects/dac_player/dac-player.c.
pub mod Laws
use rfsoc.Common.{
  ℕ, zero, suc, ◌+◌, ◌≡◌, String, Bool, true, false, Option, none, some, List, [], ◌∷◌, length,
  take, drop, ltb, ◌==◌, if◌then◌else◌,
}
use rfsoc.Common.Int.{ℤ, pos}
use rfsoc.Common.Memory.{Memory}
use rfsoc.Common.Text.{Text}
use rfsoc.Common.Program.{Outcome, done, crashed, Line, pure, ◌>>=◌, ◌>>◌}
use rfsoc.Dac.Factor.{Strtol, factor, set_factor}

-- `written`: what went to the FIFO, newest first, each block with the status word before it.
pub record Player : Type 0 where
  pub cfg : Memory
  pub written : List (ℕ × Text)
  pub console : List Line

-- The system: whether /dev/mem opens, the bytes of the input file, if it opens, the words that the status
-- register gives from the first read on, and whether a signal has come before a round of the loop.
pub record System : Type 0 where
  pub opens : Bool
  pub file : Option Text
  pub status : ℕ → ℕ
  pub interrupted : ℕ → Bool

abbrev pub buffer_size : ℕ
buffer_size = 65536

abbrev pub say : String → Player → Player
say message p = record p { console = record { format = message; args = [] } ∷ p.console }

-- `while(*((uint32_t *)(sts + 4)) > 16384)`, from the read `k` on: the word that ends it and the number of
-- the next read. `none` means that the fuel ran out.
unfoldable pub wait_space : (ℕ → ℕ) → ℕ → ℕ → Option (ℕ × ℕ)
wait_space status zero k = none
wait_space status (suc fuel) k =
    let again = wait_space status fuel (suc k) in
    if ltb 16384 (status k) then again else some (status k, suc k)

-- The loop from round `r` on, with the rest of the file. `none` means that some fuel ran out: `rounds`
-- is that of the loop, `fuel` that of each wait.
unfoldable pub play :
    (ℕ → ℕ) → (ℕ → Bool) → ℕ → ℕ → ℕ → ℕ → Text → List (ℕ × Text) → Option (List (ℕ × Text))
play status interrupted fuel zero r k file written = none
play status interrupted fuel (suc rounds) r k file written =
    let buffer = take buffer_size file in
    let again : Option (List (ℕ × Text)) = elim (wait_space status fuel k) [
      | none ↦ none
      | some next ↦
          play status interrupted fuel rounds (suc r) next.1 (drop buffer_size file)
            ((next.0, buffer) ∷ written)
    ] in
    if interrupted r then some written else if length buffer == 0 then some written else again

-- `main`. `fopen(...) < 0` never holds, so without the file the first `fread` crashes, if it is made.
unfoldable pub main :
    System → (Text → Strtol) → ℕ → Text → ℕ → ℕ → Player → Outcome Player (Option ℤ)
main s strtol argc argv1 fuel rounds p =
    if s.opens
    then elim (factor strtol argc argv1) [
      | none ↦ done (some (pos 1)) (
          say "file - input file.\n" (
            say "factor - DAC interpolation factor (10 - 65535),\n"
              (say "Usage: dac-player factor file\n" p)))
      | some number ↦
          let started = record p { cfg = set_factor 6 number p.cfg } in
          elim s.file [
            | none ↦ if s.interrupted 0 then done (some (pos 0)) started else crashed
            | some bytes ↦ elim (play s.status s.interrupted fuel rounds 0 0 bytes p.written) [
              | none ↦ done none started
              | some written ↦ done (some (pos 0)) (record started { written = written })
            ]
          ]
    ]
    else done (some (pos 1)) (say "open" p)
