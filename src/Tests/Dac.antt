-- ===== src/Tests/Dac.antt =====
-- The two programs of projects/dac_player on a small file and a small recording.
use rfsoc.Common.{ℕ, ◌-◌, ◌≡◌, ◌≤◌, ◌<◌, refl, true, false, some, List, [], ◌∷◌, arith}
use rfsoc.Common.Int.{pos}
use rfsoc.Common.Memory.{Memory, load16}
use rfsoc.Common.Text.{Text}
use rfsoc.Common.Program.{done}
use rfsoc.Stream.Child.{half_bytes}
use rfsoc.Dac.Factor.{Strtol, factor}
use rfsoc.Dac.Player.{Player, System}
use rfsoc.Dac.Player.Laws.{joined, IsBlocks, main_plays_file}
use rfsoc.Dac.Recorder.{Disk, Calls}
use rfsoc.Dac.Player
use rfsoc.Dac.Recorder

-- The text "50".
abbrev fifty : Text
fifty = 53 ∷ 48 ∷ []

abbrev reads : Text → Strtol
reads t = record { number = pos 50; sets_errno = false; reads_nothing = false }

accepts : factor reads 3 fifty ≡ some (pos 50)
unfolding factor
accepts = refl

abbrev system : System
system = record {
  opens = true;
  file = some (1 ∷ 2 ∷ 3 ∷ []);
  status = λ k. 9;
  interrupted = λ r. false;
}

abbrev idle : Player
idle = record { cfg = λ a. 0; written = []; console = [] }

has_space : (n : ℕ) → (j : ℕ) × (j < 1) × (9 ≤ 16384)
has_space n = (0, omega arith, omega arith)

main_plays_file_example :
    (n : ℕ) × (p' : Player) × (Player.main system reads 3 fifty 1 4 idle ≡ done (some (pos 0)) p')
    × ((pos 50 ≡ pos n) × (10 ≤ n) × (n ≤ 65535) × (load16 p'.cfg 6 ≡ n - 1))
    × (joined p'.written ≡ 1 ∷ 2 ∷ 3 ∷ [])
    × IsBlocks p'.written
main_plays_file_example =
    main_plays_file system reads 3 fifty (1 ∷ 2 ∷ 3 ∷ []) (pos 50) 1 4 idle refl accepts refl
      has_space (λ n. refl) (omega arith) refl

abbrev calls : Calls
calls = record { opens = true; forks = true; opens_file = true; takes = λ i. half_bytes }

abbrev empty_disk : Disk
empty_disk = record { cfg = λ a. 0; file = []; child_runs = false; console = [] }

abbrev round_of : List (Memory × Memory)
round_of = ((λ a. 7), (λ a. 8)) ∷ []
