-- ===== src/Common/Memory.antt =====
-- Device registers and RAM seen as bytes, little endian, with the 16-bit and 32-bit accesses that
-- the programs make through their pointers.
use Prim.Native.Nat.{ℕ, ◌+◌, ◌*◌, ◌/◌, ◌%◌, ◌^◌, ◌≤◌, ◌<◌}
use mathlib.Core.Path.{◌≡◌}
use mathlib.Core.Logic.{◌⊎◌}
use native.Mathlib.Omega.{arith}
use rfsoc.Common.Tests.{◌==◌, if◌then◌else◌}

-- The byte at each offset from the base of a mapping.
abbrev pub Memory : Type 0
Memory = ℕ → ℕ

abbrev pub IsBytes : Memory → Type 0
IsBytes m = (a : ℕ) → m a < 256

unfoldable pub store8 : Memory → ℕ → ℕ → Memory
store8 m a v i = if i == a then v % 256 else m i

pub store8_self : (m : Memory) (a v : ℕ) → v < 256 → store8 m a v a ≡ v
unfolding store8
store8_self m a v h = ground arith

pub store8_outside : (m : Memory) (a v i : ℕ) → (i < a) ⊎ (a < i) → store8 m a v i ≡ m i
unfolding store8
store8_outside m a v i h = ground arith

pub store8-IsBytes : (m : Memory) (a v : ℕ) → IsBytes m → IsBytes (store8 m a v)
unfolding store8
store8-IsBytes m a v h i = ground (arith, h i)

-- `*((uint16_t *)(base + a))`.
unfoldable pub load16 : Memory → ℕ → ℕ
load16 m a = m a + m (a + 1) * 256

-- `*((uint32_t *)(base + a))`.
unfoldable pub load32 : Memory → ℕ → ℕ
load32 m a = m a + m (a + 1) * 256 + m (a + 2) * 65536 + m (a + 3) * 16777216

unfoldable pub store16 : Memory → ℕ → ℕ → Memory
unfolding store8
store16 m a v = store8 (store8 m a v) (a + 1) (v / 256)

unfoldable pub store32 : Memory → ℕ → ℕ → Memory
unfolding store8
store32 m a v =
    store8 (store8 (store8 (store8 m a v) (a + 1) (v / 256)) (a + 2) (v / 65536)) (a + 3)
      (v / 16777216)

-- A word written is the word read back.
pub load32-store32 : (m : Memory) (a v : ℕ) → v < 2 ^ 32 → load32 (store32 m a v) a ≡ v
unfolding load32 store32
load32-store32 m a v h = ground arith

pub load16-store16 : (m : Memory) (a v : ℕ) → v < 2 ^ 16 → load16 (store16 m a v) a ≡ v
unfolding load16 store16
load16-store16 m a v h = ground arith

-- A write changes no byte outside its four, or its two.
pub store32_outside : (m : Memory) (a v i : ℕ) → (i < a) ⊎ (a + 4 ≤ i) → store32 m a v i ≡ m i
unfolding store32
store32_outside m a v i h = ground arith

pub store16_outside : (m : Memory) (a v i : ℕ) → (i < a) ⊎ (a + 2 ≤ i) → store16 m a v i ≡ m i
unfolding store16
store16_outside m a v i h = ground arith

pub load32-store32_apart :
    (m : Memory) (a v c : ℕ) → (c + 4 ≤ a) ⊎ (a + 4 ≤ c) → load32 (store32 m a v) c ≡ load32 m c
unfolding load32
load32-store32_apart m a v c h = ground (
  arith,
  store32_outside m a v c,
  store32_outside m a v (c + 1),
  store32_outside m a v (c + 2),
  store32_outside m a v (c + 3),
)

-- A word depends on its own bytes.
pub load32_same :
    (m m' : Memory) (a : ℕ) → ((i : ℕ) → a ≤ i → m i ≡ m' i) → load32 m a ≡ load32 m' a
unfolding load32
load32_same m m' a h = omega (
  arith,
  h a (omega arith),
  h (a + 1) (omega arith),
  h (a + 2) (omega arith),
  h (a + 3) (omega arith),
)

pub load32-lt : (m : Memory) (a : ℕ) → IsBytes m → load32 m a < 2 ^ 32
unfolding load32
load32-lt m a h = omega (arith, h a, h (a + 1), h (a + 2), h (a + 3))

pub store32-IsBytes : (m : Memory) (a v : ℕ) → IsBytes m → IsBytes (store32 m a v)
unfolding store32
store32-IsBytes m a v h i = ground (arith, h i)

pub store16-IsBytes : (m : Memory) (a v : ℕ) → IsBytes m → IsBytes (store16 m a v)
unfolding store16
store16-IsBytes m a v h i = ground (arith, h i)

-- A 32-bit register is its two halves.
pub load32-halves : (m : Memory) (a : ℕ) → load32 m a ≡ load16 m a + load16 m (a + 2) * 65536
unfolding load32 load16
load32-halves m a = let e : a + 2 + 1 ≡ a + 3 = omega arith in rw e (omega arith)
