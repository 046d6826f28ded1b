-- ===== src/Dac/Capture.antt =====
-- projects/dac_player/adc-recorder.c while it records: the child, the loop of the parent, the hardware and the
-- signals as a step relation.
pub mod Laws
pub mod File
pub mod Stop
use rfsoc.Common.{
  ℕ, zero, suc, ◌+◌, ◌*◌, ◌≡◌, ◌≢◌, Bool, true, false, ◌++◌, take, ◌==◌, if◌then◌else◌, [],
}
use rfsoc.Common.Memory.{Memory}
use rfsoc.Common.Bytes.{bytes_at}
use rfsoc.Common.Text.{Text}
use rfsoc.Stream.Child.{Shared, half_positions, half_bytes, child_round}

-- Where the parent stands: at the test of its loop, at the `read` and at the `fwrite` for a half, and behind the
-- loop.
pub data Phase : Type 0 where
  testing ended : Phase
  waiting writing : ℕ → Phase

-- `reads` counts the messages that the parent has read, and `missed` the calls of `read` that found none because
-- the child was gone. `file`: the bytes that went to the output file.
pub record Capture : Type 0 where
  pub shared : Shared
  pub phase : Phase
  pub reads : ℕ
  pub missed : ℕ
  pub interrupted : Bool
  pub child_runs : Bool
  pub file : Text

-- One step of the parent, in which an `fwrite` takes so many bytes: its result has no sign, so that the loop never
-- breaks off. A `read` of an empty pipe blocks as long as the child is there to write; afterwards it returns.
unfoldable pub capture_step : ℕ → Capture → Capture
capture_step taken s = elim s.phase [
  | testing ↦
      if s.interrupted
      then record s { child_runs = false; phase = ended }
      else record s { phase = waiting 0 }
  | waiting half ↦ elim s.shared.messages [
    | zero ↦ if s.child_runs then s else record s { phase = writing half; missed = suc s.missed }
    | suc n ↦ record s {
      shared = record s.shared { messages = n };
      phase = writing half;
      reads = suc s.reads;
    }
  ]
  | writing half ↦ record s {
    file = s.file ++ take taken (bytes_at s.shared.buf (half * half_bytes) half_bytes);
    phase = if half == 0 then waiting 1 else testing;
  }
  | ended ↦ s
]

-- The steps of the two processes, of the writer of the RAM, of a signal to the parent, and of one that ends the
-- child, which keeps the default effect of SIGINT.
pub data Step (s : Capture) : Capture → Type 0 where
  child :
      (word : ℕ) → s.child_runs ≡ true → Step s (record s { shared = child_round word s.shared })
  parent : (taken : ℕ) → Step s (capture_step taken s)
  hardware : (m : Memory) → Step s (record s { shared = record s.shared { ram = m } })
  signal : Step s (record s { interrupted = true })
  child_ends : Step s (record s { child_runs = false })

pub data Reach (s : Capture) : Capture → Type 0 where
  here : Reach s s
  next : {t u : Capture} → Reach s t → Step t u → Reach s u

-- At the `fork`, before which `limit` is set. What the parent does up to its loop leaves all of this alone.
abbrev pub initial : Memory → Memory → Capture
initial ram buf = record {
  shared = record { limit = half_positions; ram = ram; buf = buf; messages = 0 };
  phase = testing;
  reads = 0;
  missed = 0;
  interrupted = false;
  child_runs = true;
  file = [];
}
