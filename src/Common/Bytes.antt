-- ===== src/Common/Bytes.antt =====
-- Parts of a memory as sequences of bytes.
use Prim.Native.Nat.{ℕ, zero, suc, ◌+◌, ◌≤◌, ◌<◌}
use mathlib.Core.Path.{◌≡◌, refl}
use mathlib.Core.List.{[], ◌∷◌}
use native.Mathlib.Omega.{arith}
use rfsoc.Common.Lists.{take, take_all, length}
use rfsoc.Common.Memory.{Memory}
use rfsoc.Common.Text.{Text}

-- The `n` bytes of a memory from `a` on.
unfoldable pub bytes_at : Memory → ℕ → ℕ → Text
bytes_at m a zero = []
bytes_at m a (suc n) = m a ∷ bytes_at m (suc a) n

length-bytes_at : (m : Memory) (a n : ℕ) → length (bytes_at m a n) ≡ n
unfolding bytes_at
length-bytes_at m a zero = refl
length-bytes_at m a (suc n) = omega (arith, length-bytes_at m (suc a) n)

pub take-bytes_at : (m : Memory) (a n k : ℕ) → n ≤ k → take k (bytes_at m a n) ≡ bytes_at m a n
take-bytes_at m a n k h = take_all k (bytes_at m a n) (omega (arith, length-bytes_at m a n))

pub bytes_at_same :
    (m m' : Memory) (a n : ℕ)
    → ((i : ℕ) → i < n → m (a + i) ≡ m' (a + i))
    → bytes_at m a n ≡ bytes_at m' a n
unfolding bytes_at
bytes_at_same m m' a zero h = refl
bytes_at_same m m' a (suc n) h =
    let z : a + 0 ≡ a = omega arith in
    let first : m a ≡ m' a = rw z at (h 0 (omega arith)) in
    let rest =
      bytes_at_same m m' (suc a) n
        (λ i l. let s : a + suc i ≡ suc a + i = omega arith in rw s at (h (suc i) (omega arith))) in
    rw (first, rest) refl
