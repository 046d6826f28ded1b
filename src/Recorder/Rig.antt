-- ===== src/Recorder/Rig.antt =====
-- What the recorders share: the mapped configuration registers and RAM, the accesses to them and
-- the loop that prints the samples.
pub mod Laws
use rfsoc.Common.{
  ℕ, zero, suc, ◌+◌, ◌-◌, ◌*◌, ◌^◌, ◌≡◌, String, Bool, true, false, List, [], ◌∷◌, leb,
  if◌then◌else◌, bit_and, bit_or,
}
use rfsoc.Common.Int.{ℤ, pos, signed16}
use rfsoc.Common.Bits.{not32}
use rfsoc.Common.Memory.{Memory, load16, load32, store16, store32}
use rfsoc.Common.Program.{Outcome, done, crashed, Arg, int, Line, pure, ◌>>=◌, ◌>>◌}

-- The bytes mapped for the configuration registers and for the RAM, 0 if `mmap` failed, what they
-- hold, and what was printed, newest line first.
pub record Rig : Type 0 where
  pub cfg_size : ℕ
  pub ram_size : ℕ
  pub cfg : Memory
  pub ram : Memory
  pub console : List Line

-- The system: whether /dev/mem opens, whether so many bytes map at a physical address, and
-- `sysconf(_SC_PAGESIZE)`.
pub record System : Type 0 where
  pub opens : Bool
  pub maps : ℕ → ℕ → Bool
  pub page : ℕ

abbrev pub map_size : System → ℕ → ℕ → ℕ
map_size s bytes base = if s.maps base bytes then bytes else 0

abbrev pub printf : String → List Arg → Rig → Outcome Rig (Unit {0})
printf format args r =
    done tt (record r { console = record { format = format; args = args } ∷ r.console })

-- `*((uint32_t *)(cfg + offset)) = value`, `&= ~mask` and `|= mask`.
unfoldable pub write32 : ℕ → ℕ → Rig → Outcome Rig (Unit {0})
write32 offset value r =
    if leb (offset + 4) r.cfg_size
    then done tt (record r { cfg = store32 r.cfg offset value })
    else crashed

unfoldable pub clear32 : ℕ → ℕ → Rig → Outcome Rig (Unit {0})
clear32 offset mask r = write32 offset (bit_and (load32 r.cfg offset) (not32 mask)) r

unfoldable pub set32 : ℕ → ℕ → Rig → Outcome Rig (Unit {0})
set32 offset mask r = write32 offset (bit_or (load32 r.cfg offset) mask) r

-- The same with a `uint16_t`: the mask's complement is that of an `int`, cut to 16 bits.
unfoldable pub write16 : ℕ → ℕ → Rig → Outcome Rig (Unit {0})
write16 offset value r =
    if leb (offset + 2) r.cfg_size
    then done tt (record r { cfg = store16 r.cfg offset value })
    else crashed

unfoldable pub clear16 : ℕ → ℕ → Rig → Outcome Rig (Unit {0})
clear16 offset mask r = write16 offset (bit_and (load16 r.cfg offset) (not32 mask)) r

unfoldable pub set16 : ℕ → ℕ → Rig → Outcome Rig (Unit {0})
set16 offset mask r = write16 offset (bit_or (load16 r.cfg offset) mask) r

-- What the hardware has put into the RAM by the end of a wait.
abbrev pub captured : Memory → Rig → Outcome Rig (Unit {0})
captured m r = done tt (record r { ram = m })

-- `value[0]` and `value[1]`, from the RAM at `offset`.
unfoldable pub values : ℕ → Rig → Outcome Rig (ℤ × ℤ)
values offset r =
    if leb (offset + 4) r.ram_size
    then done (signed16 (load16 r.ram offset), signed16 (load16 r.ram (offset + 2))) r
    else crashed

-- `for(i = ...; ...; ++i) body`, so many times.
unfoldable pub for_loop : (ℕ → Rig → Outcome Rig (Unit {0})) → ℕ → ℕ → Rig → Outcome Rig (Unit {0})
for_loop body zero i = pure tt
for_loop body (suc n) i = do body i; for_loop body n (suc i)

-- `printf("%5d %5d\n", value[0], value[1])`, of the pair at an offset.
unfoldable pub print_pair : ℕ → Rig → Outcome Rig (Unit {0})
print_pair offset = do value ← values offset; printf "%5d %5d\n" (int value.0 ∷ int value.1 ∷ [])
