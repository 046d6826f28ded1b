-- ===== src/Common/Bits.antt =====
-- The bits of a register, and what `&` and `|` do to each of them.
use Prim.Native.Nat.{ℕ, zero, suc, ◌+◌, ◌-◌, ◌*◌, ◌/◌, ◌%◌, ◌^◌, ◌≤◌, ◌<◌, min, max}
use Prim.Native.Nat.{bit_and, bit_or, digits, bit_and-bitwise, bit_or-bitwise}
use mathlib.Core.Path.{◌≡◌, ◌∙◌, refl}
use native.Mathlib.Nat.{le_refl, one-le-pow, pow-suc}
use native.Mathlib.Omega.{arith}

-- `(x >> k) & 1`.
abbrev pub bit : ℕ → ℕ → ℕ
bit zero x = x % 2
bit (suc k) x = bit k (x / 2)

-- `~m` on a 32-bit word.
abbrev pub not32 : ℕ → ℕ
not32 m = 2 ^ 32 - 1 - m

-- Both operations stand for a recursion on digits with fuel; any two sufficient fuels agree.
module _ (edge : ℕ → ℕ) (op : ℕ → ℕ → ℕ) where
  grow : (n m a b : ℕ) → a ≤ n → a ≤ m → digits edge op n a b ≡ digits edge op m a b
  grow zero zero a b p q = refl
  grow zero (suc m) zero b p q = refl
  grow (suc n) zero zero b p q = refl
  grow (suc n) (suc m) zero b p q = refl
  grow zero m (suc a) b p q = absurd (omega arith)
  grow (suc n) zero (suc a) b p q = absurd (omega arith)
  grow (suc n) (suc m) (suc a) b p q = rw (grow n m (suc a / 2) (b / 2) (omega arith) (omega arith))

pub bit_or_step : (x y : ℕ) → bit_or x y ≡ bit_or (x / 2) (y / 2) * 2 + max (x % 2) (y % 2)
bit_or_step zero y = omega (arith, bit_or-bitwise 0 y, bit_or-bitwise 0 (y / 2))
bit_or_step (suc x) y =
    simp bit_or-bitwise (
      omega
        (arith, grow (λ z. z) max x (suc x / 2) (suc x / 2) (y / 2) (omega arith) (omega arith)))

pub bit_and_step : (x y : ℕ) → bit_and x y ≡ bit_and (x / 2) (y / 2) * 2 + min (x % 2) (y % 2)
bit_and_step zero y = simp bit_and-bitwise (omega arith)
bit_and_step (suc x) y =
    simp bit_and-bitwise (
      omega
        (arith, grow (λ _. 0) min x (suc x / 2) (suc x / 2) (y / 2) (omega arith) (omega arith)))

half-bit_or : (a b : ℕ) → bit_or a b / 2 ≡ bit_or (a / 2) (b / 2)
half-bit_or a b = omega (arith, bit_or_step a b)

half-bit_and : (a b : ℕ) → bit_and a b / 2 ≡ bit_and (a / 2) (b / 2)
half-bit_and a b = omega (arith, bit_and_step a b)

pub bit-bit_or : (k a b : ℕ) → bit k (bit_or a b) ≡ max (bit k a) (bit k b)
bit-bit_or zero a b = omega (arith, bit_or_step a b)
bit-bit_or (suc k) a b = rw half-bit_or (bit-bit_or k (a / 2) (b / 2))

pub bit-bit_and : (k a b : ℕ) → bit k (bit_and a b) ≡ min (bit k a) (bit k b)
bit-bit_and zero a b = omega (arith, bit_and_step a b)
bit-bit_and (suc k) a b = rw half-bit_and (bit-bit_and k (a / 2) (b / 2))

pub bit_seven : (k : ℕ) → bit k 7 ≡ max (max (bit k 1) (bit k 2)) (bit k 4)
bit_seven k = bit-bit_or k 3 4 ∙ rw (bit-bit_or k 1 2)

pub bit-lt-two : (k a : ℕ) → bit k a < 2
bit-lt-two zero a = omega arith
bit-lt-two (suc k) a = bit-lt-two k (a / 2)

pub bit-zero : (k : ℕ) → bit k 0 ≡ 0
bit-zero zero = refl
bit-zero (suc k) = bit-zero k

-- A value below `2 ^ n` stays below it.
pub bit_or-lt : (n a b : ℕ) → a < 2 ^ n → b < 2 ^ n → bit_or a b < 2 ^ n
bit_or-lt zero a b p q =
    let e : a ≡ 0 = omega arith in let f : b ≡ 0 = omega arith in rw (e, f) (omega arith)
bit_or-lt (suc n) a b p q =
    let two : 2 ^ suc n ≡ 2 * 2 ^ n = omega (arith, pow-suc 2 n) in
    omega (arith, bit_or_step a b, bit_or-lt n (a / 2) (b / 2) (omega arith) (omega arith))

zero-bit_and : (b : ℕ) → bit_and 0 b ≡ 0
zero-bit_and b = bit_and-bitwise 0 b

pub bit_and-le : (a b : ℕ) → bit_and a b ≤ a
bit_and-le a b = go a a b (le_refl a)
  where
    go : (n a b : ℕ) → a ≤ n → bit_and a b ≤ a
    go zero zero b h = omega (arith, zero-bit_and b)
    go zero (suc a) b h = absurd (omega arith)
    go (suc n) zero b h = omega (arith, zero-bit_and b)
    go (suc n) (suc a) b h =
        omega (arith, bit_and_step (suc a) b, go n (suc a / 2) (b / 2) (omega arith))

pub bit-complement : (w k m : ℕ) → m < 2 ^ w → k < w → bit k (2 ^ w - 1 - m) ≡ 1 - bit k m
bit-complement zero k m p q = absurd (omega arith)
bit-complement (suc w) zero m p q = omega (arith, pow-suc 2 w)
bit-complement (suc w) (suc k) m p q =
    let two : 2 ^ suc w ≡ 2 * 2 ^ w = omega (arith, pow-suc 2 w) in
    let half : (2 ^ suc w - 1 - m) / 2 ≡ 2 ^ w - 1 - m / 2 = omega arith in
    rw half (bit-complement w k (m / 2) (omega arith) (omega arith))

-- `x & ~m`: the bits of the mask are cleared, the others stay.
pub bit-clear :
    (k x m : ℕ) → m < 2 ^ 32 → k < 32 → bit k (bit_and x (not32 m)) ≡ min (bit k x) (1 - bit k m)
bit-clear k x m p q = rw (bit-bit_and, bit-complement 32 k m p q)

-- `x & ~m`, then `| m`: as `| m` alone.
pub bit-clear_set :
    (k x m : ℕ)
    → m < 2 ^ 32
    → k < 32
    → bit k (bit_or (bit_and x (not32 m)) m) ≡ max (bit k x) (bit k m)
bit-clear_set k x m p q =
    rw bit-bit_or (omega (arith, bit-clear k x m p q, bit-lt-two k m, bit-lt-two k x))

mod-double : (a m : ℕ) → 0 < m → a % (2 * m) ≡ a / 2 % m * 2 + a % 2
mod-double a m h = grind arith

none_kept : (n a : ℕ) → a ≤ n → bit_and a 0 ≡ 0
none_kept n zero h = zero-bit_and 0
none_kept zero (suc a) h = absurd (omega arith)
none_kept (suc n) (suc a) h =
    omega (arith, bit_and_step (suc a) 0, none_kept n (suc a / 2) (omega arith))

-- A mask of `k` ones keeps the `k` low bits.
pub bit_and-ones : (k a : ℕ) → bit_and a (2 ^ k - 1) ≡ a % 2 ^ k
bit_and-ones zero a = rw (none_kept a a (le_refl a)) (omega arith)
bit_and-ones (suc k) a =
    let two : 2 ^ suc k ≡ 2 * 2 ^ k = omega (arith, pow-suc 2 k) in
    let one : 1 ≤ 2 ^ k = one-le-pow k 2 (omega arith) in
    let half : (2 ^ suc k - 1) / 2 ≡ 2 ^ k - 1 = omega arith in
    let odd : (2 ^ suc k - 1) % 2 ≡ 1 = omega arith in
    rw
      (
        bit_and_step a (2 ^ suc k - 1),
        half,
        odd,
        bit_and-ones k (a / 2),
        two,
        mod-double a (2 ^ k) one,
      )
      (omega arith)

-- A mask of one bit.
pub bit_and-pow : (k a : ℕ) → bit_and a (2 ^ k) ≡ bit k a * 2 ^ k
bit_and-pow zero a = omega (arith, bit_and_step a 1, none_kept (a / 2) (a / 2) (le_refl (a / 2)))
bit_and-pow (suc k) a =
    let two : 2 ^ suc k ≡ 2 * 2 ^ k = omega (arith, pow-suc 2 k) in
    let half : 2 ^ suc k / 2 ≡ 2 ^ k = omega arith in
    let even : 2 ^ suc k % 2 ≡ 0 = omega arith in
    rw (bit_and_step a (2 ^ suc k), half, even, bit_and-pow k (a / 2), two) (grind arith)
