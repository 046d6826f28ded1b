-- ===== src/Stream/Child/Laws.antt =====
-- Which half the child copies, and when.
use rfsoc.Common.{
  ℕ, suc, ◌+◌, ◌-◌, ◌*◌, ◌^◌, ◌<◌, ◌≤◌, ◌≡◌, refl, sym, ◌⊎◌, inl, inr, Bool, ◌&&◌, ltb, leb,
  if◌then◌else◌, arith, Bool-cases,
}
use mathlib.Core.Path.{subst}
use rfsoc.Common.Int.{signed32}
use rfsoc.Stream.Child.{half_positions, half_bytes, Shared, is_ready, child_round}

-- `limit` as the program keeps it.
abbrev pub IsLimit : ℕ → Type 0
IsLimit limit = (limit ≡ half_positions) ⊎ (limit ≡ 0)

-- The half that is copied next: 0 or 1.
abbrev pub next_half : ℕ → ℕ
next_half limit = if ltb 0 limit then 0 else 1

pub child_round-IsLimit :
    (word : ℕ) (s : Shared) → IsLimit s.limit → IsLimit ((child_round word s).limit)
unfolding child_round
child_round-IsLimit word s l = elim (Bool-cases (is_ready s.limit (signed32 word))) [
  | inl y ↦ elim (Bool-cases (ltb 0 s.limit)) [
    | inl f ↦ inr (rw (y, f) refl)
    | inr g ↦ inl (rw (y, g) refl)
  ]
  | inr n ↦ rw n l
]

-- A round adds a message exactly when it turns to the other half.
pub child_round_turns :
    (word : ℕ) (s : Shared)
    → (child_round word s ≡ s)
      ⊎ (((child_round word s).messages ≡ suc s.messages)
          × (next_half ((child_round word s).limit) ≡ 1 - next_half s.limit))
unfolding child_round
child_round_turns word s = elim (Bool-cases (is_ready s.limit (signed32 word))) [
  | inl y ↦ elim (Bool-cases (ltb 0 s.limit)) [
    | inl f ↦ inr (rw y refl, rw (y, f) refl)
    | inr g ↦ inr (rw y refl, rw (y, g) refl)
  ]
  | inr n ↦ inl (rw n refl)
]

-- The byte `i` lies in the half `h`.
abbrev pub in_half : ℕ → ℕ → Bool
in_half h i = leb (h * half_bytes) i && ltb i (h * half_bytes + half_bytes)

-- What a round of the child does: it changes nothing, or copies the half that is next, byte for byte,
-- leaves the rest of the buffer, adds one message and turns to the other half; and then the 8 bytes at the
-- writer's position lie outside the half that was copied.
abbrev pub IsRound : ℕ → ℕ → Shared → Shared → Type 0
IsRound word i s s' =
    (s' ≡ s)
    ⊎ ((s'.messages ≡ suc s.messages)
        × (next_half s'.limit ≡ 1 - next_half s.limit)
        × (s'.buf i ≡ if◌then◌else◌ (in_half (next_half s.limit) i) (s.ram i) (s.buf i))
        × ((word * 8 + 8 ≤ next_half s.limit * half_bytes)
            ⊎ (next_half s.limit * half_bytes + half_bytes ≤ word * 8)))

is_ready_first :
    (word : ℕ) → word < 2 ^ 20 → is_ready half_positions (signed32 word) ≡ ltb half_positions word
unfolding is_ready
is_ready_first word h = ground arith

is_ready_second : (word : ℕ) → word < 2 ^ 20 → is_ready 0 (signed32 word) ≡ ltb word half_positions
unfolding is_ready
is_ready_second word h = ground arith

IsRound-first :
    (word i : ℕ) (s : Shared)
    → word < 2 ^ 20
    → IsRound word i
        (record s { limit = half_positions })
        (child_round word (record s { limit = half_positions }))
unfolding child_round
IsRound-first word i s h = elim (Bool-cases (ltb half_positions word)) [
  | inl y ↦ rw (is_ready_first word h, y) (inr (refl, refl, refl, inr (ground arith)))
  | inr n ↦ rw (is_ready_first word h, n) (inl refl)
]

IsRound-second :
    (word i : ℕ) (s : Shared)
    → word < 2 ^ 20
    → IsRound word i (record s { limit = 0 }) (child_round word (record s { limit = 0 }))
unfolding child_round
IsRound-second word i s h = elim (Bool-cases (ltb word half_positions)) [
  | inl y ↦ rw (is_ready_second word h, y) (inr (refl, refl, refl, inl (ground arith)))
  | inr n ↦ rw (is_ready_second word h, n) (inl refl)
]

-- With the limit as the program keeps it, and the writer at one of its 2^20 positions of 8 bytes, a round
-- of the child keeps the limit so. It changes nothing, or it copies the half that is next, byte for
-- byte, leaves the rest of the buffer, adds one message and turns to the other half; and then the 8 bytes at
-- the writer's position lie outside the half that was copied.
pub child_round_lem :
    (word i : ℕ) (s : Shared)
    → IsLimit s.limit
    → word < 2 ^ 20
    → IsLimit ((child_round word s).limit) × IsRound word i s (child_round word s)
child_round_lem word i s l h = (child_round-IsLimit word s l, go l)
  where
    go : IsLimit s.limit → IsRound word i s (child_round word s)
    go (inl e) =
        subst
          (λ n. IsRound word i (record s { limit = n }) (child_round word (record s { limit = n })))
          (sym e) (IsRound-first word i s h)
    go (inr e) =
        subst
          (λ n. IsRound word i (record s { limit = n }) (child_round word (record s { limit = n })))
          (sym e) (IsRound-second word i s h)
