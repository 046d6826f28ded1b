-- ===== src/Stream/Server/Spec.antt =====
-- What the two processes of the server promise each other, without the limit and the phases.
use rfsoc.Common.{
  ℕ, zero, suc, ◌+◌, ◌*◌, ◌%◌, ◌<◌, ◌≡◌, ◌∙◌, refl, ap, inl, inr, Bool, true, false, Bool-cases,
  arith,
}
use rfsoc.Common.Int.{signed32}
use rfsoc.Common.Memory.{Memory}
use rfsoc.Stream.Child.{half_bytes, copy_bytes, offset_for, is_ready, child_round}
use rfsoc.Stream.Child.Kept.{offset_for_lem}
use rfsoc.Stream.Server.{
  Phase, starting, listening, serving, waiting, sending, finished, Server, parent_step, Step, child,
  broken_pipe, parent, hardware, signal, Reach, Os, start_server,
}
use rfsoc.Stream.Server.Turns.{Inv, Reach-Inv, start_server-Inv, at_read}

-- The messages written and taken so far, the RAM and the buffer.
pub record View : Type 0 where
  pub written : ℕ
  pub taken : ℕ
  pub ram : Memory
  pub buf : Memory

-- The halves are copied in turn, each with a message; a message is taken after it has been written; the
-- hardware writes the RAM.
pub data Move (v : View) : View → Type 0 where
  rests : Move v v
  copies : Move v (record v {
    written = suc v.written;
    buf = copy_bytes (v.written % 2 * half_bytes) half_bytes v.ram v.buf;
  })
  takes : v.taken < v.written → Move v (record v { taken = suc v.taken })
  captures : (m : Memory) → Move v (record v { ram = m })

abbrev pub view : Server → View
view s = record {
  written = s.reads + s.shared.messages;
  taken = s.reads;
  ram = s.shared.ram;
  buf = s.shared.buf;
}

Move-copies :
    (v : View) (written offset : ℕ)
    → written ≡ suc v.written
    → offset ≡ v.written % 2 * half_bytes
    → Move v (record v { written = written; buf = copy_bytes offset half_bytes v.ram v.buf })
Move-copies v written offset e f = rw (e, f) copies

Move-takes :
    (v : View) (written : ℕ)
    → written ≡ v.written
    → v.taken < v.written
    → Move v (record v { written = written; taken = suc v.taken })
Move-takes v written e l = rw e (takes l)

Move-child :
    (word : ℕ) (s : Server)
    → Inv s
    → Move (view s) (view (record s { shared = child_round word s.shared }))
unfolding child_round
Move-child word s i = elim (Bool-cases (is_ready s.shared.limit (signed32 word))) [
  | inl y ↦ rw y (
      Move-copies (view s) (s.reads + suc s.shared.messages) (offset_for s.shared.limit)
        (omega arith) (offset_for_lem s.shared.limit ∙ ap (λ h. h * half_bytes) i.turns))
  | inr n ↦ rw n rests
]

Move-at_read :
    (s : Server) (half m : ℕ)
    → s.shared.messages ≡ m
    → Move (view s) (view (at_read half m (record s { phase = waiting half })))
Move-at_read s half zero e = rests
Move-at_read s half (suc n) e =
    Move-takes (view s) (suc s.reads + n) (omega (arith, e)) (omega (arith, e))

Move-parent :
    (ok : Bool) (s : Server) (p : Phase) → s.phase ≡ p → Move (view s) (view (parent_step ok s))
unfolding parent_step
Move-parent ok s starting e = elim (Bool-cases s.interrupted) [
  | inl y ↦ rw (e, y) rests
  | inr n ↦ rw (e, n) rests
]
Move-parent true s listening e = rw e rests
Move-parent false s listening e = rw e rests
Move-parent ok s serving e = rw e rests
Move-parent ok s (waiting half) e = rw e (Move-at_read s half s.shared.messages refl)
Move-parent true s (sending half) e = rw e rests
Move-parent false s (sending half) e = rw e rests
Move-parent ok s (finished n) e = rw e rests

-- Every step of the server, from every state that can be reached from its start, is a move of the
-- specification: seen through the messages, the RAM and the buffer, the child copies the halves in turn and
-- adds a message for each, the parent takes one message at a time and none before it is written, and nothing
-- else changes them but the writer of the RAM.
pub refines_lem :
    (os : Os) (cfg ram buf : Memory) (s t : Server)
    → Reach (start_server os cfg ram buf) s
    → Step s t
    → Move (view s) (view t)
refines_lem os cfg ram buf s t r (child word runs pipe) =
    Move-child word s (Reach-Inv r (start_server-Inv os cfg ram buf))
refines_lem os cfg ram buf s t r (parent ok) = Move-parent ok s s.phase refl
refines_lem os cfg ram buf s t r (broken_pipe word runs pipe) = rests
refines_lem os cfg ram buf s t r (hardware m) = captures m
refines_lem os cfg ram buf s t r (signal handled) = rests
