-- ===== src/Tests/Stream.antt =====
-- The server of projects/adc_test/server, run by hand through a connection and a failed send.
use rfsoc.Common.{◌+◌, ◌-◌, ◌%◌, ◌≤◌, ◌≡◌, ◌↔◌, refl, inl, true, false, arith}
use rfsoc.Common.Memory.{Memory, store32}
use rfsoc.Stream.Child.{Shared, half_positions, is_ready, child_round}
use rfsoc.Stream.Child.Laws.{IsLimit, IsRound, next_half, child_round_lem}
use rfsoc.Stream.Server.{
  breaks, Server, sending, serving, child, parent, Reach, here, next, Os, start_server, parent_step,
  normal_mode, reset_mode, handles_signal,
}
use rfsoc.Stream.Server.Laws.{send_lem, failed_send_lem}
use rfsoc.Stream.Server.Spec.{Move, view, refines_lem}
use rfsoc.Stream.Server.History.{ram_at}
use rfsoc.Stream.Child.Halves.{halves}
use rfsoc.Stream.Server.Connection.{IsTimely, sent, sends, connection_lem}

abbrev blank : Memory
blank a = 0

abbrev fresh : Shared
fresh = record { limit = half_positions; ram = λ a. 7; buf = blank; messages = 0 }

child_round_lem_example :
    IsLimit ((child_round 600000 fresh).limit) × IsRound 600000 3 fresh (child_round 600000 fresh)
child_round_lem_example = child_round_lem 600000 3 fresh (inl refl) (omega arith)

abbrev working : Os
working = record { opens = true; fork_fails = false; has_socket = true; binds = true }

abbrev begun : Server
begun = start_server working blank blank blank

-- The child copies the first half; a client connects, and the parent reads the message.
abbrev copied : Server
copied = record begun { shared = child_round 600000 begun.shared }

abbrev at_send : Server
at_send = parent_step true (parent_step true (parent_step true (parent_step true copied)))

begun_runs : begun.child_runs ≡ true
unfolding start_server
begun_runs = refl

begun_pipe : breaks 600000 begun ≡ false
unfolding start_server
begun_pipe = refl

abbrev reached : Reach begun at_send
reached =
    next
      (next
        (next (next (next here (child 600000 begun_runs begun_pipe)) (parent true)) (parent true))
        (parent true))
      (parent true)

at_send_sends : at_send.phase ≡ sending 0
unfolding start_server parent_step child_round is_ready
at_send_sends = refl

at_send_quiet : at_send.interrupted ≡ false
unfolding start_server parent_step child_round is_ready
at_send_quiet = refl

send_lem_example :
    (next_half at_send.shared.limit ≡ (at_send.reads + at_send.shared.messages) % 2)
    × ((0 ≡ (at_send.reads - 1) % 2) ↔ (at_send.at_accept % 2 ≡ 0))
send_lem_example = send_lem working blank blank blank at_send 0 reached at_send_sends

failed_send_lem_example :
    let t = parent_step true (parent_step true (parent_step false at_send)) in
    (t.phase ≡ serving)
    × (t.cfg ≡ normal_mode (store32 (reset_mode at_send.cfg) 4 4))
    × (t.at_accept ≡ at_send.reads)
    × (t.at_accept % 2 ≡ (at_send.at_accept + (1 - 0)) % 2)
failed_send_lem_example =
    failed_send_lem working blank blank blank at_send 0 reached at_send_sends at_send_quiet

refines_lem_example : Move (view at_send) (view (parent_step true at_send))
refines_lem_example =
    refines_lem working blank blank blank at_send (parent_step true at_send) reached (parent true)

sent_is_last : at_send.shared.messages ≤ 1
unfolding start_server parent_step child_round is_ready
sent_is_last = omega arith

-- The first half is sent.
abbrev sent_one : Server
sent_one = parent_step true at_send

abbrev run : Reach begun sent_one
run = next reached (parent true)

run-IsTimely : IsTimely run
unfolding start_server parent_step child_round is_ready
run-IsTimely = (((((tt, tt), tt), tt), tt), sent_is_last)

still_even : sent_one.at_accept % 2 ≡ 0
unfolding start_server parent_step child_round is_ready
still_even = refl

still_open : handles_signal sent_one.phase ≡ true
unfolding start_server parent_step child_round is_ready
still_open = refl

connection_lem_example :
    sent run
    ≡ halves
        (ram_at run)
        sent_one.at_accept
        (sends sent_one.phase (sent_one.reads - sent_one.at_accept))
connection_lem_example =
    connection_lem working blank blank blank sent_one run run-IsTimely still_even still_open
