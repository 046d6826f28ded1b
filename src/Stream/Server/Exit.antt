-- ===== src/Stream/Server/Exit.antt =====
-- Whether the child is stopped when the server returns.
use rfsoc.Common.{◌⊎◌, ◌≡◌, Bool, true, false, not}
use rfsoc.Common.Int.{pos, ltb_ℤ}
use rfsoc.Common.Memory.{Memory}
use rfsoc.Stream.Server.{
  has_finished, Phase, starting, listening, serving, waiting, sending, finished, Server,
}

-- Whether `main` has returned 0.
abbrev pub has_returned_0 : Phase → Bool
has_returned_0 (finished n) = ltb_ℤ n (pos 1)
has_returned_0 starting = false
has_returned_0 listening = false
has_returned_0 serving = false
has_returned_0 (waiting half) = false
has_returned_0 (sending half) = false

-- The child runs until `main` returns; of a child that is there when `main` returns another value than 0 nothing is
-- said.
abbrev IsAttended : Server → Type 0
IsAttended s =
    (s.child_runs ≡ not (has_finished s.phase))
    ⊎ ((has_finished s.phase ≡ true) × (has_returned_0 s.phase ≡ false))
