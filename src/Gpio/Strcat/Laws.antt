-- ===== src/Gpio/Strcat/Laws.antt =====
-- `strcat` appends, if the strings are apart.
use rfsoc.Common.{
  ℕ, zero, suc, ◌+◌, ◌≤◌, ◌<◌, ◌≡◌, refl, ap, ◌∙◌, ◌⊎◌, inl, false, some, [], ◌∷◌, ◌++◌, arith,
  length, ◌==◌,
}
use rfsoc.Common.Text.{Text}
use rfsoc.Common.Memory.{Memory, IsBytes, store8, store8_self, store8_outside, store8-IsBytes}
use rfsoc.Gpio.Strcat.{end_of, copy, strcat}

-- A string in memory: its characters, none of them 0, and the 0 that ends it.
abbrev pub HasText : Memory → ℕ → Text → Type 0
HasText m a [] = m a ≡ 0
HasText m a (c ∷ cs) = ((m a ≡ c) × (0 < c)) × HasText m (suc a) cs

-- It depends on its own bytes.
HasText-same :
    (m m' : Memory) (a : ℕ) (t : Text)
    → ((i : ℕ) → a ≤ i → i ≤ a + length t → m' i ≡ m i)
    → HasText m a t
    → HasText m' a t
HasText-same m m' a [] same h = same a (omega arith) (omega arith) ∙ h
HasText-same m m' a (c ∷ cs) same ((e, p), h) = (
  (same a (omega arith) (omega arith) ∙ e, p),
  HasText-same m m' (suc a) cs (λ i l r. same i (omega arith) (omega arith)) h,
)

HasText-append :
    (m m' : Memory) (a : ℕ) (t u : Text)
    → ((i : ℕ) → i < a + length t → m' i ≡ m i)
    → HasText m a t
    → HasText m' (a + length t) u
    → HasText m' a (t ++ u)
HasText-append m m' a [] u same h k = let e : a + 0 ≡ a = omega arith in rw (← e) k
HasText-append m m' a (c ∷ cs) u same ((e, p), h) k =
    let s : a + suc (length cs) ≡ suc a + length cs = omega arith in
    (
      (same a (omega arith) ∙ e, p),
      HasText-append m m' (suc a) cs u (λ i l. same i (omega arith)) h (rw (← s) k),
    )

end_of_lem :
    (fuel : ℕ) (m : Memory) (a : ℕ) (t : Text)
    → HasText m a t
    → length t < fuel
    → end_of fuel m a ≡ some (a + length t)
unfolding end_of
end_of_lem zero m a t h lt = absurd (omega arith)
end_of_lem (suc fuel) m a [] h lt = let e : a ≡ a + 0 = omega arith in rw h (ap some e)
end_of_lem (suc fuel) m a (c ∷ cs) ((e, p), h) lt =
    let no : (m a == 0) ≡ false = ground arith in
    let s : suc a + length cs ≡ a + suc (length cs) = omega arith in
    rw no (end_of_lem fuel m (suc a) cs h (omega arith) ∙ ap some s)

-- The source with its 0 and the bytes written do not meet.
abbrev Apart : ℕ → ℕ → ℕ → Type 0
Apart d source n = (source + n < d) ⊎ (d + n < source)

copy_lem :
    (fuel : ℕ) (m : Memory) (d source : ℕ) (t : Text)
    → IsBytes m
    → HasText m source t
    → Apart d source (length t)
    → length t < fuel
    → (m' : Memory) × (copy fuel m d source ≡ some m')
      × HasText m' d t
      × ((i : ℕ) → (i < d) ⊎ (d + length t < i) → m' i ≡ m i)
unfolding copy
copy_lem zero m d source t b h apart lt = absurd (omega arith)
copy_lem (suc fuel) m d source [] b h apart lt = (
  store8 m d (m source),
  rw h refl,
  store8_self m d (m source) (b source) ∙ h,
  λ i o. store8_outside m d (m source) i (ground arith),
)
copy_lem (suc fuel) m d source (c ∷ cs) b ((e, p), h) apart lt =
    let no : (m source == 0) ≡ false = ground arith in
    let m1 : Memory = store8 m d (m source) in
    let still : HasText m1 (suc source) cs =
      HasText-same m m1 (suc source) cs (λ i l r. store8_outside m d (m source) i (ground arith))
        h in
    let (m2, q, r, s) =
      copy_lem fuel m1 (suc d) (suc source) cs (store8-IsBytes m d (m source) b) still
        (ground arith) (omega arith) in
    let first : m2 d ≡ c = s d (inl (omega arith)) ∙ store8_self m d (m source) (b source) ∙ e in
    (
      m2,
      rw no q,
      ((first, p), r),
      λ i o. s i (ground arith) ∙ store8_outside m d (m source) i (ground arith),
    )

-- A string of length n at `destination` and one at `source`, which does not meet the bytes from
-- `destination` to the end of the result: `strcat` ends, the first string then is the two in a row, the
-- second is as it was, and only the bytes from the old end of the first to the new end have changed.
pub strcat_lem :
    (fuel : ℕ) (m : Memory) (destination source : ℕ) (a b : Text)
    → IsBytes m
    → HasText m destination a
    → HasText m source b
    → (source + length b < destination) ⊎ (destination + length a + length b < source)
    → length a < fuel
    → length b < fuel
    → (m' : Memory) × (strcat fuel m destination source ≡ some m')
      × HasText m' destination (a ++ b)
      × HasText m' source b
      × ((i : ℕ)
          → (i < destination + length a) ⊎ (destination + length a + length b < i)
          → m' i ≡ m i)
unfolding strcat
strcat_lem fuel m destination source a b bytes ha hb apart la lb =
    let (m', q, r, s) =
      copy_lem fuel m (destination + length a) source b bytes hb (ground arith) lb in
    (
      m',
      rw (end_of_lem fuel m destination a ha la, strcat) q,
      HasText-append m m' destination a b (λ i l. s i (inl l)) ha r,
      HasText-same m m' source b (λ i l g. s i (ground arith)) hb,
      s,
    )
