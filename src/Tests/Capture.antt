-- ===== src/Tests/Capture.antt =====
-- The recorder of projects/dac_player, run by hand through its first write.
use rfsoc.Common.{true, false, ◌++◌, ◌≤◌, ◌≡◌, refl, arith}
use rfsoc.Common.Memory.{Memory}
use rfsoc.Stream.Child.{half_bytes, is_ready, child_round}
use rfsoc.Dac.Capture.{
  Capture, writing, ended, capture_step, child, parent, Reach, here, next, initial,
}
use rfsoc.Dac.Capture.Laws.{ram_at}
use rfsoc.Stream.Child.Halves.{halves}
use rfsoc.Dac.Capture.Stop.{parent_steps, tail, stops_lem}
use rfsoc.Dac.Capture.File.{IsTimely, writes, file_lem}

abbrev sevens : Memory
sevens a = 7

abbrev blank : Memory
blank a = 0

abbrev begun : Capture
begun = initial sevens blank

-- The child copies the first half, and the parent reads its message.
abbrev copied : Capture
copied = record begun { shared = child_round 600000 begun.shared }

abbrev at_write : Capture
at_write = capture_step 0 (capture_step 0 copied)

abbrev reached : Reach begun at_write
reached = next (next (next here (child 600000 refl)) (parent 0)) (parent 0)

at_write_writes : at_write.phase ≡ writing 0
unfolding capture_step child_round is_ready
at_write_writes = refl

none_missed : at_write.missed ≡ 0
unfolding capture_step child_round is_ready
none_missed = refl

none_pending : at_write.shared.messages ≤ 1
unfolding capture_step child_round is_ready
none_pending = omega arith

-- The first half has gone to the file.
abbrev at_second : Capture
at_second = capture_step half_bytes at_write

abbrev run : Reach begun at_second
run = next reached (parent half_bytes)

run-IsTimely : IsTimely run
unfolding capture_step child_round is_ready
run-IsTimely = ((((tt, tt), tt)), (none_pending, omega arith))

none_missed_yet : at_second.missed ≡ 0
unfolding capture_step child_round is_ready
none_missed_yet = refl

file_lem_example : at_second.file ≡ halves (ram_at run) 0 (writes at_second.phase at_second.reads)
file_lem_example = file_lem sevens blank at_second run run-IsTimely none_missed_yet

-- A SIGINT for both processes, before the first half is written.
abbrev signalled : Capture
signalled = record at_write { interrupted = true; child_runs = false }

stops_lem_example :
    let t = parent_steps half_bytes 5 signalled in
    (t.phase ≡ ended) × (t.file ≡ signalled.file ++ tail signalled.phase signalled.shared.buf)
stops_lem_example = stops_lem half_bytes signalled (omega arith) (refl, refl)
