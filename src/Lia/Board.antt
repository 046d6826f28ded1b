-- ===== src/Lia/Board.antt =====
-- The state that zynq_io.c keeps (projects/gen_test/src/zynq_io.c): the four device mappings behind
-- its global pointers, and the two accesses that all else goes through.
pub mod Laws
use rfsoc.Common.{ℕ, ◌+◌, ◌≡◌, Bool, true, false, String, List, [], ◌∷◌, leb, if◌then◌else◌}
use rfsoc.Common.Int.{ℤ, pos}
use rfsoc.Common.Memory.{Memory, load32, store32}
use rfsoc.Common.Program.{Outcome, done, crashed, Arg, Line}

-- The devices that `n_dev` numbers from 0.
pub data Device : Type 0 where
  intc cfg sts xadc : Device

-- A global pointer: not set, `MAP_FAILED`, or a mapping of so many bytes.
pub data Ptr : Type 0 where
  null map_failed : Ptr
  mapped : ℕ → Ptr

abbrev pub same : Device → Device → Bool
same intc intc = true
same cfg cfg = true
same sts sts = true
same xadc xadc = true
same _ _ = false

abbrev pub put {ℓ} : {A : Type ℓ} → Device → A → (Device → A) → Device → A
put d x f e = if same d e then x else f e

-- `fd`, `ptr`: `cfg_fd`, `cfg_ptr` and so on. `mem`: the registers behind each mapping.
-- `console`: what was printed, newest line first.
pub record Board : Type 0 where
  pub fd : Device → ℤ
  pub ptr : Device → Ptr
  pub mem : Device → Memory
  pub dev_size : ℕ
  pub console : List Line

-- An access of four bytes at `offset` from the pointer: `none` of it may lie past the mapping.
abbrev pub in_reach : Ptr → ℕ → Bool
in_reach null offset = false
in_reach map_failed offset = false
in_reach (mapped size) offset = leb (offset + 4) size

-- What a write leaves behind a mapping. The core behind sts (cores/axi_sts_register_v1_0) takes no
-- writes: its registers are the inputs of the block.
abbrev pub stored : Device → Memory → ℕ → ℕ → Memory
stored intc m offset value = store32 m offset value
stored cfg m offset value = store32 m offset value
stored sts m offset value = m
stored xadc m offset value = store32 m offset value

-- `*((volatile unsigned *)(dev_base + offset)) = value`, the value as its 32-bit pattern.
unfoldable pub dev_write : Device → ℕ → ℕ → Board → Outcome Board (Unit {0})
dev_write d offset value b =
    if in_reach (b.ptr d) offset
    then done tt (record b { mem = put d (stored d (b.mem d) offset value) b.mem })
    else crashed

-- `return *((volatile unsigned *)(dev_base + offset))`.
unfoldable pub dev_read : Device → ℕ → Board → Outcome Board ℕ
dev_read d offset b =
    if in_reach (b.ptr d) offset then done (load32 (b.mem d) offset) b else crashed

abbrev pub printf : String → List Arg → Board → Outcome Board (Unit {0})
printf format args b =
    done tt (record b { console = record { format = format; args = args } ∷ b.console })

-- The board after a write that is in reach, for the statements about it.
abbrev pub written : Device → ℕ → ℕ → Board → Board
written d offset value b = record b { mem = put d (stored d (b.mem d) offset value) b.mem }

-- A board at power on, with the registers given: nothing is mapped.
abbrev pub power_on : (Device → Memory) → Board
power_on m = record { fd = λ _. pos 0; ptr = λ _. null; mem = m; dev_size = 0; console = [] }
