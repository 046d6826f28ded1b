-- ===== src/Recorder/Rig/Laws.antt =====
-- The printing loop: what it prints and that it stays in the mapping.
use rfsoc.Common.{
  ℕ, zero, suc, ◌+◌, ◌-◌, ◌^◌, ◌≤◌, ◌<◌, ◌≡◌, ap, ◌∙◌, refl, some, List, [], ◌∷◌, arith, get_elem?,
  length, le→leb, min, max, bit_and, bit_or,
}
use rfsoc.Common.Int.{ℤ, signed16}
use rfsoc.Common.Memory.{
  Memory, IsBytes, store32-IsBytes, load16, load32, store16, store32, load32-store32, load32-lt,
}
use rfsoc.Common.Bits.{bit, bit-lt-two, not32, bit-bit_or, bit-clear, bit_or-lt, bit_and-le}
use rfsoc.Common.Program.{Outcome, done, int, Line, >>=-done}
use rfsoc.Recorder.Rig.{
  Rig, printf, write16, clear16, set16, write32, clear32, set32, values, for_loop, print_pair,
}

-- The line of a pair of samples.
abbrev pub pair_line : Memory → ℕ → Line
pair_line m offset = record {
  format = "%5d %5d\n";
  args = int (signed16 (load16 m offset)) ∷ int (signed16 (load16 m (offset + 2))) ∷ [];
}

-- The lines for `i`, ..., `i + n - 1`, newest first, in front of those that are there.
unfoldable pub with_lines : (ℕ → Line) → ℕ → ℕ → List Line → List Line
with_lines line zero i ls = ls
with_lines line (suc n) i ls = with_lines line n (suc i) (line i ∷ ls)

abbrev pub pair : Memory → ℕ → ℤ × ℤ
pair m offset = (signed16 (load16 m offset), signed16 (load16 m (offset + 2)))

pub values_lem :
    (offset : ℕ) (r : Rig) → offset + 4 ≤ r.ram_size → values offset r ≡ done (pair r.ram offset) r
unfolding values
values_lem offset r h = rw (le→leb (offset + 4) r.ram_size h)

pub print_pair_lem :
    (offset : ℕ) (r : Rig)
    → offset + 4 ≤ r.ram_size
    → print_pair offset r ≡ done tt (record r { console = pair_line r.ram offset ∷ r.console })
unfolding print_pair
print_pair_lem offset r h =
    >>=-done (values offset) (λ value. printf "%5d %5d\n" (int value.0 ∷ int value.1 ∷ []))
      (values_lem offset r h)

-- A register after `&= ~mask` and after `|= mask`.
abbrev pub cleared : Memory → ℕ → ℕ → Memory
cleared m offset mask = store32 m offset (bit_and (load32 m offset) (not32 mask))

abbrev pub raised : Memory → ℕ → ℕ → Memory
raised m offset mask = store32 m offset (bit_or (load32 m offset) mask)

-- A register access in the mapping.
pub write32_lem :
    (offset value : ℕ) (r : Rig)
    → offset + 4 ≤ r.cfg_size
    → write32 offset value r ≡ done tt (record r { cfg = store32 r.cfg offset value })
unfolding write32
write32_lem offset value r h = rw (le→leb (offset + 4) r.cfg_size h)

-- A body that prints one line and does nothing else prints all of them, in order.
pub for_loop_prints :
    (body : ℕ → Rig → Outcome Rig (Unit {0})) (line : Memory → ℕ → Line) (n i : ℕ) (r : Rig)
    → ((j : ℕ) (t : Rig)
        → j < i + n
        → t.ram_size ≡ r.ram_size
        → body j t ≡ done tt (record t { console = line t.ram j ∷ t.console }))
    → for_loop body n i r ≡ done tt (record r { console = with_lines (line r.ram) n i r.console })
unfolding for_loop with_lines
for_loop_prints body line zero i r h = refl
for_loop_prints body line (suc n) i r h =
    >>=-done (body i) (λ _. for_loop body n (suc i)) (h i r (omega arith) refl)
    ∙ for_loop_prints body line n (suc i) (record r { console = line r.ram i ∷ r.console })
        (λ j t lt. h j t (omega arith))

-- The lines that are there stay behind the new ones.
with_lines_old :
    (line : ℕ → Line) (n i k : ℕ) (ls : List Line)
    → get_elem? (with_lines line n i ls) (n + k) ≡ get_elem? ls k
unfolding with_lines
with_lines_old line zero i k ls = let e : 0 + k ≡ k = omega arith in rw e refl
with_lines_old line (suc n) i k ls =
    let e : suc n + k ≡ n + suc k = omega arith in
    rw e (with_lines_old line n (suc i) (suc k) (line i ∷ ls))

-- Counted from the oldest, line `k` of the new ones is that of index `i + k`.
pub get_elem-with_lines :
    (line : ℕ → Line) (n i k : ℕ) (ls : List Line)
    → k < n
    → get_elem? (with_lines line n i ls) (n - 1 - k) ≡ some (line (i + k))
unfolding with_lines
get_elem-with_lines line zero i k ls h = absurd (omega arith)
get_elem-with_lines line (suc n) i zero ls h =
    let e : suc n - 1 - 0 ≡ n + 0 = omega arith in
    rw e (with_lines_old line n (suc i) 0 (line i ∷ ls) ∙ ap (λ j. some (line j)) (omega arith))
get_elem-with_lines line (suc n) i (suc k) ls h =
    let e : suc n - 1 - suc k ≡ n - 1 - k = omega arith in
    let f : i + suc k ≡ suc i + k = omega arith in
    rw (e, f) (get_elem-with_lines line n (suc i) k (line i ∷ ls) (omega arith))

pub length-with_lines :
    (line : ℕ → Line) (n i : ℕ) (ls : List Line) → length (with_lines line n i ls) ≡ n + length ls
unfolding with_lines
length-with_lines line zero i ls = omega arith
length-with_lines line (suc n) i ls = omega (arith, length-with_lines line n (suc i) (line i ∷ ls))

pub clear32_lem :
    (offset mask : ℕ) (r : Rig)
    → offset + 4 ≤ r.cfg_size
    → clear32 offset mask r ≡ done tt (record r { cfg = cleared r.cfg offset mask })
unfolding clear32
clear32_lem offset mask r h = write32_lem offset _ r h

pub set32_lem :
    (offset mask : ℕ) (r : Rig)
    → offset + 4 ≤ r.cfg_size
    → set32 offset mask r ≡ done tt (record r { cfg = raised r.cfg offset mask })
unfolding set32
set32_lem offset mask r h = write32_lem offset _ r h

pub write16_lem :
    (offset value : ℕ) (r : Rig)
    → offset + 2 ≤ r.cfg_size
    → write16 offset value r ≡ done tt (record r { cfg = store16 r.cfg offset value })
unfolding write16
write16_lem offset value r h = rw (le→leb (offset + 2) r.cfg_size h)

abbrev pub cleared16 : Memory → ℕ → ℕ → Memory
cleared16 m offset mask = store16 m offset (bit_and (load16 m offset) (not32 mask))

abbrev pub raised16 : Memory → ℕ → ℕ → Memory
raised16 m offset mask = store16 m offset (bit_or (load16 m offset) mask)

pub clear16_lem :
    (offset mask : ℕ) (r : Rig)
    → offset + 2 ≤ r.cfg_size
    → clear16 offset mask r ≡ done tt (record r { cfg = cleared16 r.cfg offset mask })
unfolding clear16
clear16_lem offset mask r h = write16_lem offset _ r h

pub set16_lem :
    (offset mask : ℕ) (r : Rig)
    → offset + 2 ≤ r.cfg_size
    → set16 offset mask r ≡ done tt (record r { cfg = raised16 r.cfg offset mask })
unfolding set16
set16_lem offset mask r h = write16_lem offset _ r h

-- What clearing and setting do to each bit of the register.
pub bit-cleared :
    (m : Memory) (offset mask k : ℕ)
    → IsBytes m
    → mask < 2 ^ 32
    → k < 32
    → bit k (load32 (cleared m offset mask) offset) ≡ min (bit k (load32 m offset)) (1 - bit k mask)
bit-cleared m offset mask k b h lt =
    let v : ℕ = bit_and (load32 m offset) (not32 mask) in
    let fits : v < 2 ^ 32 =
      omega (arith, bit_and-le (load32 m offset) (not32 mask), load32-lt m offset b) in
    ap (bit k) (load32-store32 m offset v fits) ∙ bit-clear k (load32 m offset) mask h lt

pub bit-raised :
    (m : Memory) (offset mask k : ℕ)
    → IsBytes m
    → mask < 2 ^ 32
    → bit k (load32 (raised m offset mask) offset) ≡ max (bit k (load32 m offset)) (bit k mask)
bit-raised m offset mask k b h =
    let v : ℕ = bit_or (load32 m offset) mask in
    let fits : v < 2 ^ 32 = bit_or-lt 32 (load32 m offset) mask (load32-lt m offset b) h in
    ap (bit k) (load32-store32 m offset v fits) ∙ bit-bit_or k (load32 m offset) mask

-- A reset and its release leave the register with the mask's bits set.
pub bit-raised-cleared :
    (m : Memory) (offset mask k : ℕ)
    → IsBytes m
    → mask < 2 ^ 32
    → k < 32
    → bit k (load32 (raised (cleared m offset mask) offset mask) offset)
      ≡ max (bit k (load32 m offset)) (bit k mask)
bit-raised-cleared m offset mask k b h lt = omega (
  arith,
  bit-cleared m offset mask k b h lt,
  bit-raised (cleared m offset mask) offset mask k (store32-IsBytes m offset _ b) h,
  bit-lt-two k (load32 m offset),
  bit-lt-two k mask,
)
