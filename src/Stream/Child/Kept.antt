-- ===== src/Stream/Child/Kept.antt =====
-- The buffer and the copies of a run of the child: what the last two of them put there.
use rfsoc.Common.{
  ℕ, suc, ◌+◌, ◌*◌, ◌%◌, ◌<◌, ◌≤◌, ◌≡◌, ◌∙◌, refl, ap, inl, inr, Bool-cases, ltb, ◌==◌,
  if◌then◌else◌, arith,
}
use rfsoc.Common.Int.{signed32}
use rfsoc.Common.Memory.{Memory}
use rfsoc.Stream.Child.{Shared, half_bytes, copy_bytes, offset_for, is_ready, child_round}
use rfsoc.Stream.Child.Laws.{next_half, child_round_turns}

-- The copies so far, with one more.
abbrev pub noted : ℕ → Memory → (ℕ → Memory) → ℕ → Memory
noted w ram g n = if n == w then ram else g n

-- The last two of `w` copies are in the buffer.
abbrev pub Kept : ℕ → Memory → (ℕ → Memory) → Type 0
Kept w buf g =
    (n i : ℕ)
    → n < w
    → w ≤ n + 2
    → i < half_bytes
    → buf (n % 2 * half_bytes + i) ≡ g n (n % 2 * half_bytes + i)

Kept-copies :
    (w w' offset : ℕ) (ram buf : Memory) (g : ℕ → Memory)
    → w' ≡ suc w
    → offset ≡ w % 2 * half_bytes
    → Kept w buf g
    → Kept w' (copy_bytes offset half_bytes ram buf) (noted w ram g)
Kept-copies w w' offset ram buf g d e k n i l m b = elim (Bool-cases (n == w)) [
  | inl y ↦ ground arith
  | inr o ↦ let h = k n i (ground arith) (omega arith) b in ground arith
]

pub offset_for_lem : (limit : ℕ) → offset_for limit ≡ next_half limit * half_bytes
offset_for_lem limit = elim (Bool-cases (ltb 0 limit)) [ inl y ↦ rw y refl | inr n ↦ rw n refl ]

-- A round of the child, when its parent has taken `c` messages.
pub Kept-child_round :
    (word c : ℕ) (s : Shared) (g : ℕ → Memory)
    → next_half s.limit ≡ (c + s.messages) % 2
    → Kept (c + s.messages) s.buf g
    → let s' = child_round word s in
      Kept
        (c + s'.messages)
        s'.buf
        (if is_ready s.limit (signed32 word) then noted (c + s.messages) s.ram g else g)
unfolding child_round
Kept-child_round word c s g turns k = elim (Bool-cases (is_ready s.limit (signed32 word))) [
  | inl y ↦ rw y (
      Kept-copies (c + s.messages) (c + suc s.messages) (offset_for s.limit) s.ram s.buf g
        (omega arith) (offset_for_lem s.limit ∙ ap (λ h. h * half_bytes) turns) k)
  | inr n ↦ rw n k
]

-- The half that is next stays the parity of the messages written, when `c` of them have been taken.
pub child_round_parity :
    (word c : ℕ) (s : Shared)
    → next_half s.limit ≡ (c + s.messages) % 2
    → next_half ((child_round word s).limit) ≡ (c + (child_round word s).messages) % 2
child_round_parity word c s turns = elim (child_round_turns word s) [
  | inl e ↦ rw e turns
  | inr (m, t) ↦ t ∙ rw m (omega (arith, turns))
]
