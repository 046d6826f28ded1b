-- ===== src/Dma/Buffers/Laws.antt =====
-- What the comparison at the end stands for.
use rfsoc.Common.{
  ℕ, zero, suc, ◌+◌, ◌*◌, ◌/◌, ◌<◌, ◌≤◌, ◌≡◌, ◌≢◌, ◌∙◌, refl, ap, ◌⊎◌, inl, inr, ◌↔◌, Bool, true,
  false, ◌&&◌, String, [], ◌∷◌, ◌==◌, arith, Bool-cases,
}
use rfsoc.Common.Int.{pos}
use rfsoc.Common.Memory.{Memory, IsBytes, load32, store32, store8}
use rfsoc.Common.Program.{done, int, ◌>>=◌, ◌>>◌}
use rfsoc.Dma.Device.{Host}
use rfsoc.Dma.Buffers.{
  Macros, Machine, Calls, buffer_bytesize, src_array, behind, attempt, copy_in, compare,
  load_destination, open_and_map, read_back,
}

-- The sixteen bytes of the pattern.
abbrev pub HasPattern : Memory → ℕ → Type 0
HasPattern m base = (i : ℕ) → i < buffer_bytesize → m (base + i) ≡ 0x5A

-- A word of the destination has the pattern when its four bytes have it.
word_pattern :
    (m : Memory) (a : ℕ)
    → IsBytes m
    → load32 m a ≡ 0x5A5A5A5A
    → (m a ≡ 0x5A) × (m (a + 1) ≡ 0x5A) × (m (a + 2) ≡ 0x5A) × (m (a + 3) ≡ 0x5A)
unfolding load32
word_pattern m a b h = (
  omega (arith, b a, b (a + 1), b (a + 2), b (a + 3)),
  omega (arith, b a, b (a + 1), b (a + 2), b (a + 3)),
  omega (arith, b a, b (a + 1), b (a + 2), b (a + 3)),
  omega (arith, b a, b (a + 1), b (a + 2), b (a + 3)),
)

-- The source as step 1 leaves it.
src_array_lem :
    (junk : Memory)
    → (load32 (src_array junk) 0 ≡ 0x5A5A5A5A)
      × (load32 (src_array junk) 4 ≡ 0x5A5A5A5A)
      × (load32 (src_array junk) 8 ≡ 0x5A5A5A5A)
      × (load32 (src_array junk) 12 ≡ 0x5A5A5A5A)
unfolding load32 store32 store8
src_array_lem junk = (refl, refl, refl, refl)

all_four :
    (a b c d : Bool)
    → (a && (b && (c && (d && true)))) ≡ true
    → (a ≡ true) × (b ≡ true) × (c ≡ true) × (d ≡ true)
all_four a b c d h = ground arith

all_four_true :
    (a b c d : Bool)
    → a ≡ true
    → b ≡ true
    → c ≡ true
    → d ≡ true
    → (a && (b && (c && (d && true)))) ≡ true
all_four_true a b c d p q r s = rw (p, q, r, s) refl

equal_words : (u v w : ℕ) → u ≡ w → v ≡ w → (u == v) ≡ true
equal_words u v w p q = ground arith

bool_apart : (b : Bool) → b ≡ true → b ≢ false
bool_apart b p q = ground arith

same_words : (u v w : ℕ) → u ≡ w → (u == v) ≡ true → v ≡ w
same_words u v w e h = ground arith

-- Each byte from its word.
byte_pattern : (d : Memory) (i : ℕ) → IsBytes d → load32 d (4 * (i / 4)) ≡ 0x5A5A5A5A → d i ≡ 0x5A
byte_pattern d i b h =
    let (p, q, r, s) = word_pattern d (4 * (i / 4)) b h in
    elim (quarter i) [
      | inl e ↦ ap d e ∙ p
      | inr (inl e) ↦ ap d e ∙ q
      | inr (inr (inl e)) ↦ ap d e ∙ r
      | inr (inr (inr e)) ↦ ap d e ∙ s
    ]
  where
    quarter :
        (j : ℕ)
        → (j ≡ 4 * (j / 4))
          ⊎ ((j ≡ 4 * (j / 4) + 1) ⊎ ((j ≡ 4 * (j / 4) + 2) ⊎ (j ≡ 4 * (j / 4) + 3)))
    quarter j = ground arith

four_words :
    (d : Memory) (i : ℕ)
    → IsBytes d
    → (load32 d 0 ≡ 0x5A5A5A5A)
      × (load32 d 4 ≡ 0x5A5A5A5A)
      × (load32 d 8 ≡ 0x5A5A5A5A)
      × (load32 d 12 ≡ 0x5A5A5A5A)
    → i < 16
    → d i ≡ 0x5A
four_words d i b (p, q, r, s) h = byte_pattern d i b (word (i / 4) (omega arith))
  where
    word : (n : ℕ) → n < 4 → load32 d (4 * n) ≡ 0x5A5A5A5A
    word zero l = p
    word (suc zero) l = q
    word (suc (suc zero)) l = r
    word (suc (suc (suc zero))) l = s
    word (suc (suc (suc (suc n)))) l = absurd (omega arith)

-- A word whose four bytes have the pattern.
pattern_word :
    (d : Memory) (a : ℕ)
    → d a ≡ 0x5A
    → d (a + 1) ≡ 0x5A
    → d (a + 2) ≡ 0x5A
    → d (a + 3) ≡ 0x5A
    → load32 d a ≡ 0x5A5A5A5A
unfolding load32
pattern_word d a p q r s = rw (p, q, r, s) refl

module _ (x : Macros) (c : Machine) (k : Calls) where
  abbrev pub destination_base : ℕ
  destination_base = behind x.ddr_base_write_address x.ddr_map_mask

  -- The test of step 11.
  abbrev agrees : Memory → Memory → Host c.State → Bool
  agrees junk junk' h =
      compare x c k 4 0 (src_array junk) (copy_in c destination_base buffer_bytesize h.engine junk')

  agrees→HasPattern :
      (junk junk' : Memory) (h : Host c.State)
      → IsBytes (c.peek h.engine)
      → agrees junk junk' h ≡ true
      → HasPattern (c.peek h.engine) destination_base
  unfolding load32
  agrees→HasPattern junk junk' h b t i l =
      let (p, q, r, s) = src_array_lem junk in
      let d : Memory = λ j. c.peek h.engine (destination_base + j) in
      let (e, f, g, u) = all_four _ _ _ _ t in
      four_words d i (λ j. b (destination_base + j))
        (same_words _ _ _ p e, same_words _ _ _ q f, same_words _ _ _ r g, same_words _ _ _ s u) l

  HasPattern→agrees :
      (junk junk' : Memory) (h : Host c.State)
      → HasPattern (c.peek h.engine) destination_base
      → agrees junk junk' h ≡ true
  unfolding load32
  HasPattern→agrees junk junk' h p =
      let (e, f, g, u) = src_array_lem junk in
      let d : Memory = λ j. c.peek h.engine (destination_base + j) in
      let word : (a : ℕ) → a + 3 < 16 → load32 d a ≡ 0x5A5A5A5A = λ a l.
        pattern_word d a (p a (omega arith)) (p (a + 1) (omega arith)) (p (a + 2) (omega arith))
          (p (a + 3) l) in
      all_four_true _ _ _ _ (equal_words _ _ _ e (word 0 (omega arith)))
        (equal_words _ _ _ f (word 4 (omega arith))) (equal_words _ _ _ g (word 8 (omega arith)))
        (equal_words _ _ _ u (word 12 (omega arith)))

  -- What steps 7 to 11 print.
  abbrev left : String → Host c.State → Host c.State
  left message h = record h {
    console =
        record { format = message; args = [] }
        ∷ record {
          format = "Memory mapped at address %p.\n";
          args = int (pos k.mapped_base_2) ∷ [];
        }
        ∷ record { format = "/dev/mem opened.\n"; args = [] }
        ∷ h.console;
  }

  -- When the calls at the end succeed, the program ends with 0 if and only if the 16 bytes at the destination
  -- all are 0x5A, and otherwise with 1, whatever the two arrays held before they were initialised.
  pub read_back_lem :
      (junk junk' : Memory) (h : Host c.State)
      → k.unmaps 1 ≡ true
      → k.opens 2 ≡ true
      → k.maps 2 ≡ true
      → k.unmaps 2 ≡ true
      → IsBytes (c.peek h.engine)
      → (n : ℕ) × (t : Host c.State) × (read_back x c k (src_array junk) junk' h ≡ done (pos n) t)
        × ((n ≡ 0) ↔ HasPattern (c.peek h.engine) destination_base)
        × (n ≤ 1)
  unfolding read_back open_and_map attempt load_destination
  read_back_lem junk junk' h u1 o m u2 b = elim (Bool-cases (agrees junk junk' h)) [
    | inl y ↦ (
      0,
      left "DATA Transfer is Successfull \n\r" h,
      rw (u1, o, m, u2, ◌>>=◌, ◌>>◌, y) refl,
      (λ e. agrees→HasPattern junk junk' h b y, λ p. refl),
      omega arith,
    )
    | inr n ↦ (
      1,
      left "Error in the Data comparison \n \r" h,
      rw (u1, o, m, u2, ◌>>=◌, ◌>>◌, n) refl,
      (λ e. absurd (omega arith), λ p. absurd (bool_apart _ (HasPattern→agrees junk junk' h p) n)),
      omega arith,
    )
  ]
