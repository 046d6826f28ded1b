-- ===== src/Stream/Server/Connection.antt =====
-- What a client of projects/adc_test/server/adc-test-server.c is sent, over a whole connection.
use rfsoc.Common.{
  ℕ, zero, suc, ◌+◌, ◌-◌, ◌*◌, ◌%◌, ◌<◌, ◌≤◌, ◌≡◌, ◌∙◌, refl, sym, inl, inr, Bool, true, false,
  Bool-cases, [], ◌++◌, ◌==◌, arith,
}
use mathlib.Core.Path.{subst}
use mathlib.Core.Bool.{false≢true}
use rfsoc.Common.Int.{signed32}
use rfsoc.Common.Memory.{Memory}
use rfsoc.Common.Bytes.{bytes_at}
use rfsoc.Common.Text.{Text}
use rfsoc.Stream.Child.{half_bytes, is_ready}
use rfsoc.Stream.Child.Halves.{halves, halves-child, halves_append}
use rfsoc.Stream.Server.{
  Phase, starting, listening, serving, waiting, sending, finished, Server, parent_step, child,
  broken_pipe, parent, hardware, signal, Reach, here, next, Os, start_server, handles_signal,
}
use rfsoc.Stream.Server.Turns.{Fits-at, Reach-Inv, start_server-Inv, at_read}
use rfsoc.Stream.Server.Laws.{send_lem}
use rfsoc.Stream.Server.History.{ram_at, sent_bytes_lem}

-- What the client of the connection has been sent after one more step of the parent: `accept` starts a connection.
abbrev pub sent_after : Phase → Bool → Memory → Text → Text
sent_after starting ok buf before = before
sent_after listening true buf before = []
sent_after listening false buf before = before
sent_after serving ok buf before = before
sent_after (waiting half) ok buf before = before
sent_after (sending half) true buf before = before ++ bytes_at buf (half * half_bytes) half_bytes
sent_after (sending half) false buf before = before
sent_after (finished n) ok buf before = before

-- The bytes that the sends of the last connection were given, along a run, without a send that fails.
abbrev pub sent : {s t : Server} → Reach s t → Text
sent here = []
sent (next r (child word runs pipe)) = sent r
sent (next {t = t} r (parent ok)) = sent_after t.phase ok t.shared.buf (sent r)
sent (next r (broken_pipe word runs pipe)) = sent r
sent (next r (hardware m)) = sent r
sent (next r (signal handled)) = sent r

-- At most one message waits at a send.
abbrev pub InTime : Phase → ℕ → Type 0
InTime starting messages = Unit {0}
InTime listening messages = Unit {0}
InTime serving messages = Unit {0}
InTime (waiting half) messages = Unit {0}
InTime (sending half) messages = messages ≤ 1
InTime (finished n) messages = Unit {0}

-- Every step of the parent in a run is in time.
abbrev pub IsTimely : {s t : Server} → Reach s t → Type 0
IsTimely here = Unit {0}
IsTimely (next r (child word runs pipe)) = IsTimely r
IsTimely (next {t = t} r (parent ok)) = IsTimely r × InTime t.phase t.shared.messages
IsTimely (next r (broken_pipe word runs pipe)) = IsTimely r
IsTimely (next r (hardware m)) = IsTimely r
IsTimely (next r (signal handled)) = IsTimely r

-- The sends of a connection so far, when `n` messages have been read in it.
abbrev pub sends : Phase → ℕ → ℕ
sends starting n = n
sends listening n = n
sends serving n = n
sends (waiting half) n = n
sends (sending half) n = n - 1
sends (finished k) n = n

sends-le : (p : Phase) (n : ℕ) → sends p n ≤ n
sends-le starting n = omega arith
sends-le listening n = omega arith
sends-le serving n = omega arith
sends-le (waiting half) n = omega arith
sends-le (sending half) n = omega arith
sends-le (finished k) n = omega arith

-- Within a connection that began with the first half.
IsStream : (ℕ → Memory) → Server → Text → Type 0
IsStream g s t =
    s.at_accept % 2 ≡ 0
    → handles_signal s.phase ≡ true
    → t ≡ halves g s.at_accept (sends s.phase (s.reads - s.at_accept))

stream_at :
    (g : ℕ → Memory) (s : Server) (t : Text) (p : Phase)
    → s.phase ≡ p
    → handles_signal p ≡ true
    → IsStream g s t
    → s.at_accept % 2 ≡ 0
    → t ≡ halves g s.at_accept (sends p (s.reads - s.at_accept))
unfolding IsStream
stream_at g s t p e open_now c even =
    subst (λ q. t ≡ halves g s.at_accept (sends q (s.reads - s.at_accept))) e
      (c even (rw e open_now))

IsStream-at_read :
    (g : ℕ → Memory) (s : Server) (t : Text) (half m : ℕ)
    → s.at_accept ≤ s.reads
    → (s.at_accept % 2 ≡ 0 → t ≡ halves g s.at_accept (s.reads - s.at_accept))
    → IsStream g (at_read half m (record s { phase = waiting half })) t
unfolding IsStream
IsStream-at_read g s t half zero i h = λ even open_now. h even
IsStream-at_read g s t half (suc n) i h = λ even open_now.
    let e : suc s.reads - s.at_accept - 1 ≡ s.reads - s.at_accept = omega arith in rw e (h even)

-- What the parent knows at a send.
abbrev Ready : (ℕ → Memory) → Server → ℕ → Type 0
Ready g s half =
    (s.at_accept < s.reads)
    × (half ≡ (s.reads - 1) % 2)
    × ((i : ℕ)
        → i < half_bytes
        → s.shared.buf (half * half_bytes + i) ≡ g (s.reads - 1) (half * half_bytes + i))

IsStream-sent :
    (g : ℕ → Memory) (s : Server) (t : Text) (half : ℕ)
    → Ready g s half
    → t ≡ halves g s.at_accept (s.reads - s.at_accept - 1)
    → t ++ bytes_at s.shared.buf (half * half_bytes) half_bytes
      ≡ halves g s.at_accept (s.reads - s.at_accept)
IsStream-sent g s t half (some_read, parity, same) h =
    let e : suc (s.reads - s.at_accept - 1) ≡ s.reads - s.at_accept = omega arith in
    rw e at (
      halves_append g s.shared.buf t half s.at_accept (s.reads - s.at_accept - 1) (s.reads - 1)
        (omega arith) parity same h)

IsStream-parent :
    (g : ℕ → Memory) (s : Server) (t : Text) (ok : Bool) (p : Phase)
    → s.phase ≡ p
    → s.at_accept ≤ s.reads
    → ((half : ℕ) → p ≡ sending half → s.at_accept % 2 ≡ 0 → Ready g s half)
    → IsStream g s t
    → IsStream g (parent_step ok s) (sent_after p ok s.shared.buf t)
unfolding parent_step IsStream halves
IsStream-parent g s t ok starting e i w c = elim (Bool-cases s.interrupted) [
  | inl y ↦ rw (e, y) (λ even open_now. absurd (false≢true open_now))
  | inr n ↦ rw (e, n) (λ even open_now. absurd (false≢true open_now))
]
IsStream-parent g s t true listening e i w c =
    let none : s.reads - s.reads ≡ 0 = omega arith in rw (e, none) (λ even open_now. refl)
IsStream-parent g s t false listening e i w c = rw e (λ even open_now. absurd (false≢true open_now))
IsStream-parent g s t ok serving e i w c = elim (Bool-cases s.interrupted) [
  | inl y ↦ rw (e, y) (λ even open_now. absurd (false≢true open_now))
  | inr n ↦ rw (e, n) (λ even open_now. stream_at g s t serving e refl c even)
]
IsStream-parent g s t ok (waiting half) e i w c =
    rw e (IsStream-at_read g s t half s.shared.messages i (stream_at g s t (waiting half) e refl c))
IsStream-parent g s t true (sending half) e i w c =
    let whole : s.at_accept % 2 ≡ 0
        → t ++ bytes_at s.shared.buf (half * half_bytes) half_bytes
          ≡ halves g s.at_accept (s.reads - s.at_accept) =
      λ even.
        IsStream-sent g s t half (w half refl even)
          (stream_at g s t (sending half) e refl c even) in
    elim (Bool-cases (half == 0)) [
      | inl y ↦ rw (e, y) (λ even open_now. whole even)
      | inr n ↦ rw (e, n) (λ even open_now. whole even)
    ]
IsStream-parent g s t false (sending half) e i w c =
    rw e (λ even open_now. absurd (false≢true open_now))
IsStream-parent g s t ok (finished n) e i w c = rw e (λ even open_now. absurd (false≢true open_now))

sending-Ready :
    (os : Os) (cfg ram buf : Memory) {s : Server} (r : Reach (start_server os cfg ram buf) s)
    (half : ℕ)
    → s.phase ≡ sending half
    → s.shared.messages ≤ 1
    → s.at_accept % 2 ≡ 0
    → Ready (ram_at r) s half
sending-Ready os cfg ram buf {s = s} r half e pending even =
    let inv = Reach-Inv r (start_server-Inv os cfg ram buf) in
    let (some_read, turn) = Fits-at s (sending half) e inv in
    let (turns, own) = send_lem os cfg ram buf s half r e in
    (omega arith, own.1 even, λ i b. sent_bytes_lem os cfg ram buf s half i r e even pending b)

start_server_closed :
    (os : Os) (cfg ram buf : Memory) → handles_signal ((start_server os cfg ram buf).phase) ≡ false
unfolding start_server
start_server_closed os cfg ram buf = ground arith

IsStream-run :
    (os : Os) (cfg ram buf : Memory) {s : Server} (r : Reach (start_server os cfg ram buf) s)
    → IsTimely r
    → IsStream (ram_at r) s (sent r)
unfolding IsStream
IsStream-run os cfg ram buf here timely =
    λ even open_now. absurd (false≢true (sym (start_server_closed os cfg ram buf) ∙ open_now))
IsStream-run os cfg ram buf (next {t = t} r (child word runs pipe)) timely =
    let accepted = (Reach-Inv r (start_server-Inv os cfg ram buf)).accepted in
    λ even open_now.
      IsStream-run os cfg ram buf r timely even open_now
      ∙ sym (
          halves-child (is_ready t.shared.limit (signed32 word)) (t.reads + t.shared.messages)
            t.shared.ram (ram_at r) t.at_accept (sends t.phase (t.reads - t.at_accept))
            (omega (arith, sends-le t.phase (t.reads - t.at_accept))))
IsStream-run os cfg ram buf (next {t = t} r (parent ok)) timely =
    IsStream-parent (ram_at r) t (sent r) ok t.phase refl
      (Reach-Inv r (start_server-Inv os cfg ram buf)).accepted
      (λ half e even. sending-Ready os cfg ram buf r half e (rw e at timely.1) even)
      (IsStream-run os cfg ram buf r timely.0)
IsStream-run os cfg ram buf (next r (broken_pipe word runs pipe)) timely =
    IsStream-run os cfg ram buf r timely
IsStream-run os cfg ram buf (next r (hardware m)) timely = IsStream-run os cfg ram buf r timely
IsStream-run os cfg ram buf (next r (signal handled)) timely = IsStream-run os cfg ram buf r timely

-- In every run of the server from its start in which at most one message waits at each send: within a connection
-- before whose `accept` an even number of messages had been read, the sends so far were given one half for each of
-- them and nothing else, in the order of the messages from that `accept` on, and the half of message `n`, the first
-- one or the second as `n` is even or odd, holds the bytes that the RAM had in it when the child copied the half for
-- that message.
pub connection_lem :
    (os : Os) (cfg ram buf : Memory) (s : Server) (r : Reach (start_server os cfg ram buf) s)
    → IsTimely r
    → s.at_accept % 2 ≡ 0
    → handles_signal s.phase ≡ true
    → sent r ≡ halves (ram_at r) s.at_accept (sends s.phase (s.reads - s.at_accept))
unfolding IsStream
connection_lem os cfg ram buf s r timely even open_now =
    IsStream-run os cfg ram buf r timely even open_now
