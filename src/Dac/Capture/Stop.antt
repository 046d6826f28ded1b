-- ===== src/Dac/Capture/Stop.antt =====
-- How the recorder of projects/dac_player/adc-recorder.c ends after a signal.
use rfsoc.Common.{
  ℕ, zero, suc, ◌*◌, ◌-◌, ◌≤◌, ◌≡◌, ◌∙◌, refl, sym, true, false, [], ◌++◌, append_empty, arith,
  ◌==◌,
}
use mathlib.Core.List.{append_assoc}
use rfsoc.Common.Memory.{Memory}
use rfsoc.Common.Bytes.{bytes_at, take-bytes_at}
use rfsoc.Common.Text.{Text}
use rfsoc.Stream.Child.{half_bytes}
use rfsoc.Dac.Capture.{Phase, testing, ended, waiting, writing, Capture, capture_step}
use rfsoc.Dac.Capture.Laws.{at_read}

-- The steps of the parent up to its end, when nothing blocks it.
abbrev pub left : Phase → ℕ
left testing = 1
left (waiting zero) = 5
left (waiting (suc n)) = 3
left (writing zero) = 4
left (writing (suc n)) = 2
left ended = 0

-- What it then still writes.
abbrev pub tail : Phase → Memory → Text
tail testing buf = []
tail (waiting zero) buf =
    bytes_at buf (0 * half_bytes) half_bytes ++ bytes_at buf (1 * half_bytes) half_bytes
tail (waiting (suc n)) buf = bytes_at buf (suc n * half_bytes) half_bytes
tail (writing zero) buf =
    bytes_at buf (0 * half_bytes) half_bytes ++ bytes_at buf (1 * half_bytes) half_bytes
tail (writing (suc n)) buf = bytes_at buf (suc n * half_bytes) half_bytes
tail ended buf = []

-- The parent is to stop, and the child is gone.
abbrev pub IsStopping : Capture → Type 0
IsStopping s = (s.interrupted ≡ true) × (s.child_runs ≡ false)

-- One step on the way.
abbrev Steps : Capture → Capture → Type 0
Steps s t =
    IsStopping t
    × (left t.phase ≡ left s.phase - 1)
    × (t.file ++ tail t.phase t.shared.buf ≡ s.file ++ tail s.phase s.shared.buf)

Steps-at_read :
    (s : Capture) (half m : ℕ)
    → IsStopping s
    → let s' : Capture = record s { phase = waiting half } in Steps s' (at_read half m s')
Steps-at_read s zero zero (i, c) = rw c ((i, refl), refl, refl)
Steps-at_read s zero (suc m) (i, c) = ((i, c), refl, refl)
Steps-at_read s (suc n) zero (i, c) = rw c ((i, refl), refl, refl)
Steps-at_read s (suc n) (suc m) (i, c) = ((i, c), refl, refl)

Steps-in :
    (taken : ℕ) (s : Capture) (p : Phase)
    → half_bytes ≤ taken
    → s.phase ≡ p
    → IsStopping s
    → Steps s (capture_step taken s)
unfolding capture_step
Steps-in taken s testing h e (i, c) = rw (e, i) ((refl, refl), refl, refl)
Steps-in taken s (waiting half) h e stopping =
    rw e (Steps-at_read s half s.shared.messages stopping)
Steps-in taken s (writing zero) h e (i, c) =
    rw (e, take-bytes_at s.shared.buf (0 * half_bytes) half_bytes taken h)
      ((i, c), refl, append_assoc s.file _ _)
Steps-in taken s (writing (suc n)) h e (i, c) =
    let second : (suc n == 0) ≡ false = ground arith in
    rw (e, take-bytes_at s.shared.buf (suc n * half_bytes) half_bytes taken h, second)
      ((i, c), refl, append_empty _ [] refl)
Steps-in taken s ended h e (i, c) = rw e ((i, c), refl, refl)

-- `k` steps of the parent.
abbrev pub parent_steps : ℕ → ℕ → Capture → Capture
parent_steps taken zero s = s
parent_steps taken (suc k) s = parent_steps taken k (capture_step taken s)

left_none : (p : Phase) → left p ≡ 0 → p ≡ ended
left_none testing e = absurd (omega arith)
left_none (waiting zero) e = absurd (omega arith)
left_none (waiting (suc n)) e = absurd (omega arith)
left_none (writing zero) e = absurd (omega arith)
left_none (writing (suc n)) e = absurd (omega arith)
left_none ended e = refl

stops_in :
    (taken k : ℕ) (s : Capture)
    → half_bytes ≤ taken
    → IsStopping s
    → left s.phase ≤ k
    → let t = parent_steps taken k s in
      (t.phase ≡ ended) × (t.file ≡ s.file ++ tail s.phase s.shared.buf)
stops_in taken zero s h stopping l =
    let e = left_none s.phase (omega arith) in (e, rw e (sym (append_empty s.file [] refl)))
stops_in taken (suc k) s h stopping l =
    let (still, fewer, same) = Steps-in taken s s.phase h refl stopping in
    let (stopped, file) = stops_in taken k (capture_step taken s) h still (omega arith) in
    (stopped, file ∙ same)

left-le : (p : Phase) → left p ≤ 5
left-le testing = omega arith
left-le (waiting zero) = omega arith
left-le (waiting (suc n)) = omega arith
left-le (writing zero) = omega arith
left-le (writing (suc n)) = omega arith
left-le ended = omega arith

-- Once the signal has come and the child is gone, as a SIGINT to both leaves them: five steps of the parent
-- are enough for it to be behind its loop, if each `fwrite` takes the whole half. Before that it has
-- written the halves that were left of its round, as they were in the buffer, whether messages for them
-- were waiting or not.
pub stops_lem :
    (taken : ℕ) (s : Capture)
    → half_bytes ≤ taken
    → IsStopping s
    → let t = parent_steps taken 5 s in
      (t.phase ≡ ended) × (t.file ≡ s.file ++ tail s.phase s.shared.buf)
stops_lem taken s h stopping = stops_in taken 5 s h stopping (left-le s.phase)
