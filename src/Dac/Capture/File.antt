-- ===== src/Dac/Capture/File.antt =====
-- The whole file that the recorder of projects/dac_player/adc-recorder.c writes.
use rfsoc.Common.{
  ℕ, zero, suc, ◌+◌, ◌-◌, ◌*◌, ◌%◌, ◌<◌, ◌≤◌, ◌≡◌, ◌∙◌, refl, sym, inl, inr, Bool-cases, ◌++◌, take,
  ◌==◌, arith,
}
use mathlib.Core.Path.{subst}
use rfsoc.Common.Int.{signed32}
use rfsoc.Common.Memory.{Memory}
use rfsoc.Stream.Child.{half_bytes, is_ready}
use rfsoc.Common.Bytes.{bytes_at, take-bytes_at}
use rfsoc.Stream.Child.Halves.{halves, halves-child, halves_append}
use rfsoc.Dac.Capture.{
  Phase, testing, ended, waiting, writing, Capture, capture_step, child, parent, hardware, signal,
  child_ends, Reach, here, next, initial,
}
use rfsoc.Dac.Capture.Laws.{at_read, ram_at, written_bytes_lem}

-- A step of the parent is in time, if it is no write, or at most one message is waiting and the file takes the
-- whole half.
abbrev pub InTime : Phase → ℕ → ℕ → Type 0
InTime testing messages taken = Unit {0}
InTime (waiting half) messages taken = Unit {0}
InTime (writing half) messages taken = (messages ≤ 1) × (half_bytes ≤ taken)
InTime ended messages taken = Unit {0}

-- Every step of the parent in a run is.
abbrev pub IsTimely : {s t : Capture} → Reach s t → Type 0
IsTimely here = Unit {0}
IsTimely (next r (child word runs)) = IsTimely r
IsTimely (next {t = t} r (parent taken)) = IsTimely r × InTime t.phase t.shared.messages taken
IsTimely (next r (hardware m)) = IsTimely r
IsTimely (next r signal) = IsTimely r
IsTimely (next r child_ends) = IsTimely r

-- The writes so far, when so many messages have been read.
abbrev pub writes : Phase → ℕ → ℕ
writes testing reads = reads
writes (waiting half) reads = reads
writes (writing half) reads = reads - 1
writes ended reads = reads

writes-le : (p : Phase) (reads : ℕ) → writes p reads ≤ reads
writes-le testing reads = omega arith
writes-le (waiting half) reads = omega arith
writes-le (writing half) reads = omega arith
writes-le ended reads = omega arith

-- A state whose file holds the halves of its writes.
IsComplete : (ℕ → Memory) → Capture → Type 0
IsComplete g s = s.missed ≡ 0 → s.file ≡ halves g 0 (writes s.phase s.reads)

IsComplete-at_read :
    (g : ℕ → Memory) (s : Capture) (half m : ℕ)
    → (s.missed ≡ 0 → s.file ≡ halves g 0 s.reads)
    → IsComplete g (at_read half m (record s { phase = waiting half }))
unfolding IsComplete
IsComplete-at_read g s half zero h = elim (Bool-cases s.child_runs) [
  | inl y ↦ rw y h
  | inr n ↦ rw n (λ z. absurd (omega (arith, z)))
]
IsComplete-at_read g s half (suc n) h =
    λ z. let e : suc s.reads - 1 ≡ s.reads = omega arith in rw e (h z)

complete_at :
    (g : ℕ → Memory) (s : Capture) (p : Phase)
    → s.phase ≡ p
    → IsComplete g s
    → s.missed ≡ 0
    → s.file ≡ halves g 0 (writes p s.reads)
unfolding IsComplete
complete_at g s p e c z = subst (λ q. s.file ≡ halves g 0 (writes q s.reads)) e (c z)

IsComplete-parent :
    (g : ℕ → Memory) (s : Capture) (taken : ℕ) (p : Phase)
    → s.phase ≡ p
    → InTime p s.shared.messages taken
    → IsComplete g s
    → ((half : ℕ)
        → s.phase ≡ writing half
        → s.missed ≡ 0
        → s.shared.messages ≤ 1
        → (1 ≤ s.reads)
          × (half ≡ (s.reads - 1) % 2)
          × ((i : ℕ)
              → i < half_bytes
              → s.shared.buf (half * half_bytes + i) ≡ g (s.reads - 1) (half * half_bytes + i)))
    → IsComplete g (capture_step taken s)
unfolding IsComplete capture_step
IsComplete-parent g s taken testing e timely c w = elim (Bool-cases s.interrupted) [
  | inl y ↦ rw (e, y) (complete_at g s testing e c)
  | inr n ↦ rw (e, n) (complete_at g s testing e c)
]
IsComplete-parent g s taken (waiting half) e timely c w =
    rw e (IsComplete-at_read g s half s.shared.messages (complete_at g s (waiting half) e c))
IsComplete-parent g s taken (writing half) e timely c w =
    let appended : s.missed ≡ 0
        → s.file ++ take taken (bytes_at s.shared.buf (half * half_bytes) half_bytes)
          ≡ halves g 0 s.reads =
      λ z.
        let (some_read, parity, same) = w half e z timely.0 in
        let one_more : suc (s.reads - 1) ≡ s.reads = omega arith in
        rw (take-bytes_at s.shared.buf (half * half_bytes) half_bytes taken timely.1) (
          rw one_more at (
            halves_append g s.shared.buf s.file half 0 (s.reads - 1) (s.reads - 1) (omega arith)
              parity same (complete_at g s (writing half) e c z))) in
    elim (Bool-cases (half == 0)) [ inl y ↦ rw (e, y) appended | inr n ↦ rw (e, n) appended ]
IsComplete-parent g s taken ended e timely c w = rw e (complete_at g s ended e c)

IsComplete-run :
    (ram buf : Memory) {s : Capture} (r : Reach (initial ram buf) s)
    → IsTimely r
    → IsComplete (ram_at r) s
unfolding IsComplete halves
IsComplete-run ram buf here timely z = refl
IsComplete-run ram buf (next {t = t} r (child word runs)) timely z =
    IsComplete-run ram buf r timely z
    ∙ sym (
        halves-child (is_ready t.shared.limit (signed32 word)) (t.reads + t.shared.messages)
          t.shared.ram (ram_at r) 0 (writes t.phase t.reads)
          (omega (arith, writes-le t.phase t.reads)))
IsComplete-run ram buf (next {t = t} r (parent taken)) timely z =
    IsComplete-parent (ram_at r) t taken t.phase refl timely.1 (IsComplete-run ram buf r timely.0)
      (λ half e none pending. written_bytes_lem ram buf t half r e none pending) z
IsComplete-run ram buf (next r (hardware m)) timely z = IsComplete-run ram buf r timely z
IsComplete-run ram buf (next r signal) timely z = IsComplete-run ram buf r timely z
IsComplete-run ram buf (next r child_ends) timely z = IsComplete-run ram buf r timely z

-- In every run of the recorder from its `fork` on in which each `fwrite` takes the whole half and at most one message
-- waits when the parent writes, and in which no `read` has missed so far: the file holds one half for each `fwrite`
-- and nothing else, in the order of the messages, and the half of message `n`, the first one or the second as `n` is
-- even or odd, holds the bytes that the RAM had in it when the child copied the half for that message.
pub file_lem :
    (ram buf : Memory) (s : Capture) (r : Reach (initial ram buf) s)
    → IsTimely r
    → s.missed ≡ 0
    → s.file ≡ halves (ram_at r) 0 (writes s.phase s.reads)
unfolding IsComplete
file_lem ram buf s r timely z = IsComplete-run ram buf r timely z
