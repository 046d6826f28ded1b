-- ===== src/Stream/Child/Halves.antt =====
-- The halves of a run of the child, in a row.
use rfsoc.Common.{
  ℕ, zero, suc, ◌+◌, ◌*◌, ◌%◌, ◌<◌, ◌≤◌, ◌≡◌, refl, Bool, true, false, [], ◌++◌, if◌then◌else◌,
  arith,
}
use rfsoc.Common.Memory.{Memory}
use rfsoc.Common.Text.{Text}
use rfsoc.Common.Bytes.{bytes_at, bytes_at_same}
use rfsoc.Stream.Child.{half_bytes}
use rfsoc.Stream.Child.Kept.{noted}

-- The halves of the `n` messages from number `a` on, each from what the RAM held at its copy.
unfoldable pub halves : (ℕ → Memory) → ℕ → ℕ → Text
halves g a zero = []
halves g a (suc n) = halves g a n ++ bytes_at (g (a + n)) ((a + n) % 2 * half_bytes) half_bytes

halves_same :
    (g g' : ℕ → Memory) (a n : ℕ)
    → ((k : ℕ) → k < a + n → g k ≡ g' k)
    → halves g a n ≡ halves g' a n
unfolding halves
halves_same g g' a zero h = refl
halves_same g g' a (suc n) h =
    rw (halves_same g g' a n (λ k l. h k (omega arith)), h (a + n) (omega arith)) refl

-- A round of the child leaves the copies before it.
pub halves-child :
    (b : Bool) (w : ℕ) (ram : Memory) (g : ℕ → Memory) (a n : ℕ)
    → a + n ≤ w
    → halves (if b then noted w ram g else g) a n ≡ halves g a n
halves-child true w ram g a n h = halves_same (noted w ram g) g a n (λ k l. ground arith)
halves-child false w ram g a n h = refl

-- The half of one message more, from a buffer that holds it.
pub halves_append :
    (g : ℕ → Memory) (buf : Memory) (t : Text) (half a n k : ℕ)
    → k ≡ a + n
    → half ≡ k % 2
    → ((i : ℕ) → i < half_bytes → buf (half * half_bytes + i) ≡ g k (half * half_bytes + i))
    → t ≡ halves g a n
    → t ++ bytes_at buf (half * half_bytes) half_bytes ≡ halves g a (suc n)
unfolding halves
halves_append g buf t half a n k place parity same e =
    let bytes = bytes_at_same buf (g k) (half * half_bytes) half_bytes same in
    rw (e, bytes, parity, ← place) refl
