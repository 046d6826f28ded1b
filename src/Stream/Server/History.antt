-- ===== src/Stream/Server/History.antt =====
-- The bytes that a send takes, and the RAM as the child saw it.
use rfsoc.Common.{
  ℕ, suc, ◌+◌, ◌-◌, ◌*◌, ◌%◌, ◌<◌, ◌≤◌, ◌≡◌, refl, inl, inr, Bool, true, false, Bool-cases,
  if◌then◌else◌, arith, zero,
}
use rfsoc.Common.Int.{signed32}
use rfsoc.Common.Memory.{Memory}
use rfsoc.Stream.Child.{half_bytes, is_ready}
use rfsoc.Stream.Server.{
  Phase, starting, listening, serving, waiting, sending, finished, Server, parent_step, child,
  broken_pipe, parent, hardware, signal, Reach, here, next, Os, start_server,
}
use rfsoc.Stream.Child.Kept.{noted, Kept, Kept-child_round}
use rfsoc.Stream.Server.Turns.{Inv, Reach-Inv, start_server-Inv, at_read}
use rfsoc.Stream.Server.Laws.{send_lem, sending_has_read}

-- The messages that the child has written.
abbrev written : Server → ℕ
written s = s.reads + s.shared.messages

-- What the RAM held when the child copied the half of message `n`, along a run.
abbrev pub ram_at : {s t : Server} → Reach s t → ℕ → Memory
ram_at {s = s} here = λ n. s.shared.ram
ram_at (next {t = t} r (child word runs pipe)) =
    if is_ready t.shared.limit (signed32 word)
    then noted (written t) t.shared.ram (ram_at r)
    else ram_at r
ram_at (next r (broken_pipe word runs pipe)) = ram_at r
ram_at (next r (parent ok)) = ram_at r
ram_at (next r (hardware m)) = ram_at r
ram_at (next r (signal handled)) = ram_at r

-- The parent writes no message and leaves the buffer.
Keeps : Server → Server → Type 0
Keeps s t = (written t ≡ written s) × (t.shared.buf ≡ s.shared.buf)

Keeps-at_read :
    (s : Server) (half m : ℕ)
    → s.shared.messages ≡ m
    → Keeps s (at_read half m (record s { phase = waiting half }))
unfolding Keeps
Keeps-at_read s half zero e = (refl, refl)
Keeps-at_read s half (suc n) e = (omega (arith, e), refl)

Keeps-parent : (ok : Bool) (s : Server) (p : Phase) → s.phase ≡ p → Keeps s (parent_step ok s)
unfolding parent_step Keeps
Keeps-parent ok s starting e = elim (Bool-cases s.interrupted) [
  | inl y ↦ rw (e, y) (refl, refl)
  | inr n ↦ rw (e, n) (refl, refl)
]
Keeps-parent true s listening e = rw e (refl, refl)
Keeps-parent false s listening e = rw e (refl, refl)
Keeps-parent ok s serving e = rw e (refl, refl)
Keeps-parent ok s (waiting half) e = rw e (Keeps-at_read s half s.shared.messages refl)
Keeps-parent true s (sending half) e = rw e (refl, refl)
Keeps-parent false s (sending half) e = rw e (refl, refl)
Keeps-parent ok s (finished n) e = rw e (refl, refl)

Kept-run :
    {s t : Server} (r : Reach s t)
    → Inv s
    → written s ≡ 0
    → Kept (written t) t.shared.buf (ram_at r)
unfolding Keeps
Kept-run here inv z = λ n i l m b. absurd (omega arith)
Kept-run (next {t = t} r (child word runs pipe)) inv z =
    Kept-child_round word t.reads t.shared (ram_at r) (Reach-Inv r inv).turns (Kept-run r inv z)
Kept-run (next {t = t} r (parent ok)) inv z =
    let (w, b) = Keeps-parent ok t t.phase refl in rw (w, b) (Kept-run r inv z)
Kept-run (next r (broken_pipe word runs pipe)) inv z = Kept-run r inv z
Kept-run (next r (hardware m)) inv z = Kept-run r inv z
Kept-run (next r (signal handled)) inv z = Kept-run r inv z

start_server_written : (os : Os) (cfg ram buf : Memory) → written (start_server os cfg ram buf) ≡ 0
unfolding start_server
start_server_written os cfg ram buf = ground arith

-- In every run of the server from its start: when the parent sends a half, an even number of messages had
-- been read at the last `accept`, and the child has written at most one message since the one that the send is
-- for, then each byte that the send takes is the one that the RAM held at its place when the child copied the
-- half for that message.
pub sent_bytes_lem :
    (os : Os) (cfg ram buf : Memory) (s : Server) (half i : ℕ)
    → (r : Reach (start_server os cfg ram buf) s) → s.phase ≡ sending half
    → s.at_accept % 2 ≡ 0
    → s.shared.messages ≤ 1
    → i < half_bytes
    → s.shared.buf (half * half_bytes + i) ≡ ram_at r (s.reads - 1) (half * half_bytes + i)
sent_bytes_lem os cfg ram buf s half i r e even pending b =
    let (turns, own) = send_lem os cfg ram buf s half r e in
    let h : half ≡ (s.reads - 1) % 2 = own.1 even in
    let inv = Reach-Inv r (start_server-Inv os cfg ram buf) in
    rw h (
      Kept-run r (start_server-Inv os cfg ram buf) (start_server_written os cfg ram buf)
        (s.reads - 1) i (omega (arith, sending_has_read s half inv e)) (omega arith) b)
