-- ===== src/Stream/Server/Laws.antt =====
-- Which half a send takes its bytes from, and which half its message was for.
use rfsoc.Common.{ℕ, ◌+◌, ◌-◌, ◌%◌, ◌≤◌, ◌≡◌, refl, ◌↔◌, true, false, arith}
use rfsoc.Common.Memory.{Memory, store32}
use rfsoc.Stream.Child.Laws.{next_half}
use rfsoc.Stream.Server.{
  serving, sending, Server, parent_step, Reach, Os, reset_mode, normal_mode, start_server,
}
use rfsoc.Stream.Server.Turns.{Inv, Fits-at, Reach-Inv, start_server-Inv}

pub sending_has_read : (s : Server) (half : ℕ) → Inv s → s.phase ≡ sending half → 1 ≤ s.reads
sending_has_read s half i e = let (some_read, turn) = Fits-at s (sending half) e i in omega arith

-- In every state that the processes, the hardware and a signal can reach from the start of the server: the
-- half that the child copies next is the parity of the messages that it has written, and when the parent
-- sends a half, that is the half that its message was written for if and only if an even number of
-- messages had been read at the last `accept`.
pub send_lem :
    (os : Os) (cfg ram buf : Memory) (s : Server) (half : ℕ)
    → Reach (start_server os cfg ram buf) s
    → s.phase ≡ sending half
    → (next_half s.shared.limit ≡ (s.reads + s.shared.messages) % 2)
      × ((half ≡ (s.reads - 1) % 2) ↔ (s.at_accept % 2 ≡ 0))
send_lem os cfg ram buf s half r e =
    let i = Reach-Inv r (start_server-Inv os cfg ram buf) in
    let (some_read, turn) = Fits-at s (sending half) e i in
    let accepted = i.accepted in (i.turns, (λ own. omega arith, λ even. omega arith))

-- A send that fails, when no signal has come, ends the connection; after the next `accept` the hardware has
-- been reset and started again, and the number of messages read at the `accept` has the same parity as
-- before when the failed send was for the second half, and the other parity when it was for the first.
pub failed_send_lem :
    (os : Os) (cfg ram buf : Memory) (s : Server) (half : ℕ)
    → Reach (start_server os cfg ram buf) s
    → s.phase ≡ sending half
    → s.interrupted ≡ false
    → let t = parent_step true (parent_step true (parent_step false s)) in
      (t.phase ≡ serving)
      × (t.cfg ≡ normal_mode (store32 (reset_mode s.cfg) 4 4))
      × (t.at_accept ≡ s.reads)
      × (t.at_accept % 2 ≡ (s.at_accept + (1 - half)) % 2)
unfolding parent_step
failed_send_lem os cfg ram buf s half r e quiet =
    let i = Reach-Inv r (start_server-Inv os cfg ram buf) in
    let (some_read, turn) = Fits-at s (sending half) e i in
    let accepted = i.accepted in rw (e, quiet) (refl, refl, refl, omega arith)
