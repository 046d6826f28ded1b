-- ===== src/Dac/Recorder.antt =====
-- projects/dac_player/adc-recorder.c: the parent process. The child's loop is that of Stream/Child.
pub mod Laws
use rfsoc.Common.{
  ℕ, zero, suc, ◌+◌, ◌*◌, ◌≡◌, String, Bool, true, false, Option, none, some, List, [], ◌∷◌, ◌++◌,
  take, bit_and, bit_or, if◌then◌else◌,
}
use rfsoc.Common.Int.{ℤ, pos}
use rfsoc.Common.Bits.{not32}
use rfsoc.Common.Memory.{Memory, load32, store32}
use rfsoc.Common.Bytes.{bytes_at}
use rfsoc.Common.Text.{Text}
use rfsoc.Common.Program.{Outcome, done, crashed, Line, pure, ◌>>=◌, ◌>>◌}
use rfsoc.Dac.Factor.{Strtol, factor, set_factor}
use rfsoc.Stream.Child.{half_bytes}

-- `file`: the bytes in the output file.
pub record Disk : Type 0 where
  pub cfg : Memory
  pub file : Text
  pub child_runs : Bool
  pub console : List Line

-- The calls: whether /dev/mem opens, the child is started (`fork` gives a positive number) and the file
-- opens, and how many of the bytes that it is given each `fwrite` takes, by its number from 0.
pub record Calls : Type 0 where
  pub opens : Bool
  pub forks : Bool
  pub opens_file : Bool
  pub takes : ℕ → ℕ

abbrev pub say : String → Disk → Disk
say message d = record d { console = record { format = message; args = [] } ∷ d.console }

-- `fwrite(buf + offset, 1, 4096*1024, fileOut)`. Its result has no sign and is never below 0.
unfoldable pub write_half : Calls → ℕ → ℕ → Memory → Disk → Disk
write_half c i offset buf d = record d {
  file = d.file ++ take (c.takes i) (bytes_at buf offset half_bytes);
}

-- `while(!interrupted)`, in which the shared buffer is `bufs`, two of them in each round, at the two calls of
-- `fwrite`; it ends with the signal. `i` counts the calls.
unfoldable pub record_loop : Calls → ℕ → List (Memory × Memory) → Disk → Disk
record_loop c i [] d = d
record_loop c i (b ∷ bs) d =
    record_loop c (i + 2) bs (write_half c (i + 1) half_bytes b.1 (write_half c i 0 b.0 d))

-- `*((uint32_t *)(cfg + 0)) &= ~3` and `|= 3`.
abbrev pub reset : Memory → Memory
reset cfg = store32 cfg 0 (bit_and (load32 cfg 0) (not32 3))

abbrev pub operate : Memory → Memory
operate cfg = store32 cfg 0 (bit_or (load32 cfg 0) 3)

-- The parent after the `fork`, from the `fopen`, whose result is never below 0: without a file the first
-- `fwrite` crashes, or the `fclose`.
unfoldable pub parent : Calls → ℤ → List (Memory × Memory) → Disk → Outcome Disk ℤ
parent c number bufs d =
    let started = record d {
      cfg = operate (set_factor 4 number (reset d.cfg));
      child_runs = true;
    } in
    let ended = record_loop c 0 bufs started in
    if c.opens_file
    then done (pos 0) (record ended { child_runs = false; cfg = reset ended.cfg })
    else crashed

-- `main`. When `fork` fails it ends with 0 and does nothing.
unfoldable pub main :
    Calls → (Text → Strtol) → ℕ → Text → List (Memory × Memory) → Disk → Outcome Disk ℤ
main c strtol argc argv1 bufs d =
    if c.opens
    then elim (factor strtol argc argv1) [
      | none ↦ done (pos 1) (
          say "file - output file.\n" (
            say "factor - ADC decimation factor (10 - 65535),\n"
              (say "Usage: adc-recorder factor file\n" d)))
      | some number ↦ if c.forks then parent c number bufs d else done (pos 0) d
    ]
    else done (pos 1) (say "open" d)
