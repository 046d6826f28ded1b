-- ===== src/Dac/Capture/Laws.antt =====
-- Which bytes each `fwrite` of the recorder is given.
use rfsoc.Common.{
  ℕ, zero, suc, ◌+◌, ◌-◌, ◌*◌, ◌%◌, ◌<◌, ◌≤◌, ◌≡◌, ◌∙◌, refl, inl, inr, Bool-cases, ◌==◌,
  if◌then◌else◌, arith,
}
use mathlib.Core.Path.{subst}
use rfsoc.Common.Int.{signed32}
use rfsoc.Common.Memory.{Memory}
use rfsoc.Stream.Child.{half_bytes, is_ready}
use rfsoc.Stream.Child.Laws.{next_half}
use rfsoc.Stream.Child.Kept.{noted, Kept, Kept-child_round, child_round_parity}
use rfsoc.Dac.Capture.{
  Phase, testing, ended, waiting, writing, Capture, capture_step, Step, child, parent, hardware,
  signal, child_ends, Reach, here, next, initial,
}

-- What the phase says of the messages read, as long as no `read` has missed.
abbrev Fits : Phase → ℕ → Type 0
Fits testing reads = reads % 2 ≡ 0
Fits (waiting half) reads = reads % 2 ≡ half
Fits (writing half) reads = (1 ≤ reads) × (suc reads % 2 ≡ half)
Fits ended reads = Unit {0}

pub record Inv (s : Capture) : Type 0 where
  pub turns : next_half s.shared.limit ≡ (s.reads + s.shared.messages) % 2
  pub fits : s.missed ≡ 0 → Fits s.phase s.reads

-- The parent at its `read`, by the number of messages in the pipe.
abbrev pub at_read : ℕ → ℕ → Capture → Capture
at_read half m s = elim m [
  | zero ↦ if s.child_runs then s else record s { phase = writing half; missed = suc s.missed }
  | suc n ↦ record s {
    shared = record s.shared { messages = n };
    phase = writing half;
    reads = suc s.reads;
  }
]

Inv-at_read :
    (s : Capture) (half m : ℕ)
    → s.shared.messages ≡ m
    → (s.missed ≡ 0 → s.reads % 2 ≡ half)
    → Inv s
    → Inv (at_read half m (record s { phase = waiting half }))
Inv-at_read s half zero e fit i = elim (Bool-cases s.child_runs) [
  | inl y ↦ rw y (record { turns = i.turns; fits = fit })
  | inr n ↦ rw n (record { turns = i.turns; fits = λ z. absurd (omega (arith, z)) })
]
Inv-at_read s half (suc n) e fit i = record {
  turns = i.turns ∙ rw e (omega arith);
  fits = λ z. (omega arith, omega (arith, fit z));
}

Fits-at : (s : Capture) (p : Phase) → s.phase ≡ p → Inv s → s.missed ≡ 0 → Fits p s.reads
Fits-at s p e i z = subst (λ q. Fits q s.reads) e (i.fits z)

Inv-parent :
    (taken : ℕ) (s : Capture) (p : Phase) → s.phase ≡ p → Inv s → Inv (capture_step taken s)
unfolding capture_step
Inv-parent taken s testing e i = elim (Bool-cases s.interrupted) [
  | inl y ↦ rw (e, y) (record { turns = i.turns; fits = λ z. tt })
  | inr n ↦ rw (e, n) (record { turns = i.turns; fits = Fits-at s testing e i })
]
Inv-parent taken s (waiting half) e i =
    rw e (Inv-at_read s half s.shared.messages refl (Fits-at s (waiting half) e i) i)
Inv-parent taken s (writing half) e i = elim (Bool-cases (half == 0)) [
  | inl y ↦
      rw (e, y)
        (record {
          turns = i.turns;
          fits = λ z. let (some_read, turn) = Fits-at s (writing half) e i z in grind arith;
        })
  | inr n ↦
      rw (e, n)
        (record {
          turns = i.turns;
          fits = λ z. let (some_read, turn) = Fits-at s (writing half) e i z in grind arith;
        })
]
Inv-parent taken s ended e i = rw e (record { turns = i.turns; fits = λ z. tt })

Step-Inv : {s t : Capture} → Step s t → Inv s → Inv t
Step-Inv {s = s} (child word runs) i = record {
  turns = child_round_parity word s.reads s.shared i.turns;
  fits = i.fits;
}
Step-Inv {s = s} (parent taken) i = Inv-parent taken s s.phase refl i
Step-Inv (hardware m) i = record { turns = i.turns; fits = i.fits }
Step-Inv signal i = record { turns = i.turns; fits = i.fits }
Step-Inv child_ends i = record { turns = i.turns; fits = i.fits }

Reach-Inv : {s t : Capture} → Reach s t → Inv s → Inv t
Reach-Inv here i = i
Reach-Inv (next r x) i = Step-Inv x (Reach-Inv r i)

Inv-initial : (ram buf : Memory) → Inv (initial ram buf)
Inv-initial ram buf = record { turns = refl; fits = λ z. refl }

abbrev written : Capture → ℕ
written s = s.reads + s.shared.messages

-- What the RAM held when the child copied the half of message `n`, along a run.
abbrev pub ram_at : {s t : Capture} → Reach s t → ℕ → Memory
ram_at {s = s} here = λ n. s.shared.ram
ram_at (next {t = t} r (child word runs)) =
    if is_ready t.shared.limit (signed32 word)
    then noted (written t) t.shared.ram (ram_at r)
    else ram_at r
ram_at (next r (parent taken)) = ram_at r
ram_at (next r (hardware m)) = ram_at r
ram_at (next r signal) = ram_at r
ram_at (next r child_ends) = ram_at r

-- The parent writes no message and leaves the buffer.
Keeps : Capture → Capture → Type 0
Keeps s t = (written t ≡ written s) × (t.shared.buf ≡ s.shared.buf)

Keeps-at_read :
    (s : Capture) (half m : ℕ)
    → s.shared.messages ≡ m
    → Keeps s (at_read half m (record s { phase = waiting half }))
unfolding Keeps
Keeps-at_read s half zero e = elim (Bool-cases s.child_runs) [
  | inl y ↦ rw y (refl, refl)
  | inr n ↦ rw n (refl, refl)
]
Keeps-at_read s half (suc n) e = (omega (arith, e), refl)

Keeps-parent : (taken : ℕ) (s : Capture) (p : Phase) → s.phase ≡ p → Keeps s (capture_step taken s)
unfolding capture_step Keeps
Keeps-parent taken s testing e = elim (Bool-cases s.interrupted) [
  | inl y ↦ rw (e, y) (refl, refl)
  | inr n ↦ rw (e, n) (refl, refl)
]
Keeps-parent taken s (waiting half) e = rw e (Keeps-at_read s half s.shared.messages refl)
Keeps-parent taken s (writing half) e = rw e (refl, refl)
Keeps-parent taken s ended e = rw e (refl, refl)

Kept-run :
    {s t : Capture} (r : Reach s t)
    → Inv s
    → written s ≡ 0
    → Kept (written t) t.shared.buf (ram_at r)
unfolding Keeps
Kept-run here inv z = λ n i l m b. absurd (omega arith)
Kept-run (next {t = t} r (child word runs)) inv z =
    Kept-child_round word t.reads t.shared (ram_at r) (Reach-Inv r inv).turns (Kept-run r inv z)
Kept-run (next {t = t} r (parent taken)) inv z =
    let (w, b) = Keeps-parent taken t t.phase refl in rw (w, b) (Kept-run r inv z)
Kept-run (next r (hardware m)) inv z = Kept-run r inv z
Kept-run (next r signal) inv z = Kept-run r inv z
Kept-run (next r child_ends) inv z = Kept-run r inv z

-- When the parent writes a half, no `read` has missed, and at most one message waits.
pub written_bytes_lem :
    (ram buf : Memory) (s : Capture) (half : ℕ)
    → (r : Reach (initial ram buf) s) → s.phase ≡ writing half
    → s.missed ≡ 0
    → s.shared.messages ≤ 1
    → (1 ≤ s.reads)
      × (half ≡ (s.reads - 1) % 2)
      × ((i : ℕ)
          → i < half_bytes
          → s.shared.buf (half * half_bytes + i) ≡ ram_at r (s.reads - 1) (half * half_bytes + i))
written_bytes_lem ram buf s half r e z pending =
    let start = Inv-initial ram buf in
    let (some_read, turn) = Fits-at s (writing half) e (Reach-Inv r start) z in
    let h : half ≡ (s.reads - 1) % 2 = omega arith in
    (
      some_read,
      h,
      λ i b. rw h (Kept-run r start refl (s.reads - 1) i (omega arith) (omega arith) b),
    )
