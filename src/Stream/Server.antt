-- ===== src/Stream/Server.antt =====
-- The server (projects/adc_test/server/adc-test-server.c): the parent process, and the two processes
-- together with the hardware and the network as a step relation.
pub mod Turns
pub mod Laws
pub mod Exit
pub mod Spec
pub mod History
pub mod Connection
use rfsoc.Common.{
  ◌&&◌, ℕ, zero, suc, ◌+◌, ◌*◌, ◌≡◌, ◌≢◌, Bool, true, false, Option, none, some, List, [], ◌∷◌,
  bit_and, bit_or, ◌==◌, if◌then◌else◌,
}
use rfsoc.Common.Int.{ℤ, pos, signed32}
use rfsoc.Common.Bits.{not32}
use rfsoc.Common.Memory.{Memory, load32, store32}
use rfsoc.Stream.Child.{Shared, half_positions, is_ready, child_round}

-- Where the parent stands: at the top of the outer loop, at `accept`, at the top of the inner loop, at the
-- `read` and at the `send` for a half, and after its `return`.
pub data Phase : Type 0 where
  starting listening serving : Phase
  waiting : ℕ → Phase
  sending : ℕ → Phase
  finished : ℤ → Phase

-- `reads` counts the messages that the parent has read, and `at_accept` is that count at the last `accept`.
-- `child_runs` until the child is killed.
pub record Server : Type 0 where
  pub shared : Shared
  pub cfg : Memory
  pub interrupted : Bool
  pub child_runs : Bool
  pub phase : Phase
  pub reads : ℕ
  pub at_accept : ℕ

-- `*((uint32_t *)(cfg + 0)) &= ~15` and `|= 15`.
abbrev pub reset_mode : Memory → Memory
reset_mode cfg = store32 cfg 0 (bit_and (load32 cfg 0) (not32 15))

abbrev pub normal_mode : Memory → Memory
normal_mode cfg = store32 cfg 0 (bit_or (load32 cfg 0) 15)

-- One step of the parent. `ok` is whether the call that it makes succeeds; a `read` of an empty pipe blocks.
unfoldable pub parent_step : Bool → Server → Server
parent_step ok s = elim s.phase [
  | starting ↦
      if s.interrupted
      then record s { cfg = reset_mode s.cfg; child_runs = false; phase = finished (pos 0) }
      else record s { cfg = store32 (reset_mode s.cfg) 4 4; phase = listening }
  | listening ↦
      if ok
      then record s { cfg = normal_mode s.cfg; phase = serving; at_accept = s.reads }
      else record s { phase = finished (pos 1) }
  | serving ↦ record s { phase = if s.interrupted then starting else waiting 0 }
  | waiting half ↦ elim s.shared.messages [
    | zero ↦ s
    | suc n ↦ record s {
      shared = record s.shared { messages = n };
      phase = sending half;
      reads = suc s.reads;
    }
  ]
  | sending half ↦
      if ok
      then record s { phase = if half == 0 then waiting 1 else serving }
      else record s { phase = starting }
  | finished n ↦ s
]

-- `signal_handler` is set from the `accept` to the end of a connection. SIGINT has its default effect in
-- the other phases, the end of the process, which is no step.
abbrev pub handles_signal : Phase → Bool
handles_signal starting = false
handles_signal listening = false
handles_signal serving = true
handles_signal (waiting half) = true
handles_signal (sending half) = true
handles_signal (finished n) = false

abbrev pub has_finished : Phase → Bool
has_finished starting = false
has_finished listening = false
has_finished serving = false
has_finished (waiting half) = false
has_finished (sending half) = false
has_finished (finished n) = true

-- A round of the child in which it writes to a pipe that nobody reads any more, since its own end for reading is
-- closed.
abbrev pub breaks : ℕ → Server → Bool
breaks word s = has_finished s.phase && is_ready s.shared.limit (signed32 word)

-- The steps of the two processes, of the writer of the RAM and of a signal to the parent alone (one to both
-- would end the child). A write to the broken pipe ends the child by SIGPIPE: what it has copied before is
-- seen by nobody.
pub data Step (s : Server) : Server → Type 0 where
  child :
      (word : ℕ)
      → s.child_runs ≡ true
      → breaks word s ≡ false
      → Step s (record s { shared = child_round word s.shared })
  broken_pipe :
      (word : ℕ)
      → s.child_runs ≡ true
      → breaks word s ≡ true
      → Step s (record s { child_runs = false })
  parent : (ok : Bool) → Step s (parent_step ok s)
  hardware : (m : Memory) → Step s (record s { shared = record s.shared { ram = m } })
  signal : handles_signal s.phase ≡ true → Step s (record s { interrupted = true })

pub data Reach (s : Server) : Server → Type 0 where
  here : Reach s s
  next : {t u : Server} → Reach s t → Step t u → Reach s u

-- The calls of `main` before its loops: whether /dev/mem opens, what `fork` gives, and whether
-- `socket` and `bind` succeed.
pub record Os : Type 0 where
  pub opens : Bool
  pub fork_fails : Bool
  pub has_socket : Bool
  pub binds : Bool

-- The state when the parent enters its loop.
abbrev pub initial : Memory → Memory → Memory → Server
initial cfg ram buf = record {
  shared = record { limit = half_positions; ram = ram; buf = buf; messages = 0 };
  cfg = cfg;
  interrupted = false;
  child_runs = true;
  phase = starting;
  reads = 0;
  at_accept = 0;
}

-- `main` up to its loops. Before the fork there is no child; after it the early returns leave it running.
unfoldable pub start_server : Os → Memory → Memory → Memory → Server
start_server os cfg ram buf =
    let s = initial cfg ram buf in
    if os.opens
    then (if os.fork_fails
        then record s { child_runs = false; phase = finished (pos 0) }
        else if os.has_socket
        then (if os.binds then s else record s { phase = finished (pos 1) })
        else record s { phase = finished (pos 1) })
    else record s { child_runs = false; phase = finished (pos 1) }
