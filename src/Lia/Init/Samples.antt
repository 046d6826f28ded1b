-- ===== src/Lia/Init/Samples.antt =====
-- What the `init_system` of projects/rxchan16_test2 leaves in the configuration registers.
use rfsoc.Common.{
  ℕ, ◌^◌, ◌≤◌, ◌<◌, ◌≡◌, ◌≢◌, max, refl, ap, inl, inr, ◌∙◌, true, bit_and, bit_or, arith, le→leb,
}
use rfsoc.Common.Int.{pos}
use rfsoc.Common.Bits.{
  bit_seven, bit, not32, bit_and-le, bit_or-lt, bit-bit_or, bit-clear, bit-lt-two,
}
use rfsoc.Common.Memory.{
  IsBytes, load32, load32-store32, load32-store32_apart, load32-lt, store32_outside,
  store32-IsBytes,
}
use rfsoc.Common.Program.{done}
use rfsoc.Lia.Board.{Device, intc, cfg, sts, xadc, Board, mapped, in_reach, written}
use rfsoc.Lia.Board.Laws.{dev_write_lem}
use rfsoc.Lia.Registers.{cfg_reset_gral_offset}
use rfsoc.Lia.Init.{cfg_nsamples_offset, init_system_samples}
use rfsoc.Lia.Init.Laws.{clear_reset_lem, set_reset_lem}

-- The reset register through the three clearing and the three setting steps.
abbrev held : ℕ → ℕ
held r = bit_and (bit_and (bit_and r (not32 1)) (not32 2)) (not32 4)

abbrev released : ℕ → ℕ
released r = bit_or (bit_or (bit_or (held r) 1) 2) 4

bit-released : (k r : ℕ) → k < 32 → bit k (released r) ≡ max (bit k r) (bit k 7)
bit-released k r h =
    rw (bit-bit_or, bit-bit_or, bit-bit_or)
      (omega (
        arith,
        bit_seven k,
        bit-clear k (bit_and (bit_and r (not32 1)) (not32 2)) 4 (omega arith) h,
        bit-clear k (bit_and r (not32 1)) 2 (omega arith) h,
        bit-clear k r 1 (omega arith) h,
        bit-lt-two k r,
        bit-lt-two k 1,
        bit-lt-two k 2,
        bit-lt-two k 4,
      ))

abbrev reset : Board → ℕ
reset x = load32 (x.mem cfg) 0

abbrev Bytes : Board → Type 0
Bytes x = IsBytes (x.mem cfg)

abbrev with_reset : ℕ → Board → Board
with_reset v x = written cfg 0 v x

reset-with_and :
    (x : Board) (m : ℕ) → Bytes x → reset (with_reset (bit_and (reset x) m) x) ≡ bit_and (reset x) m
reset-with_and x m h =
    load32-store32 (x.mem cfg) 0 (bit_and (reset x) m)
      (omega (arith, bit_and-le (reset x) m, load32-lt (x.mem cfg) 0 h))

reset-with_or :
    (x : Board) (m : ℕ)
    → m < 2 ^ 32
    → Bytes x
    → reset (with_reset (bit_or (reset x) m) x) ≡ bit_or (reset x) m
reset-with_or x m p h =
    load32-store32 (x.mem cfg) 0 (bit_or (reset x) m)
      (bit_or-lt 32 (reset x) m (load32-lt (x.mem cfg) 0 h) p)

module _ (b : Board) where
  abbrev s1 : Board
  s1 = written cfg 0 (bit_and (reset b) (not32 1)) b

  abbrev s2 : Board
  s2 = written cfg 0 (bit_and (reset s1) (not32 2)) s1

  abbrev s3 : Board
  s3 = written cfg 0 (bit_and (reset s2) (not32 4)) s2

  abbrev s4 : Board
  s4 = written cfg 4 1048576 s3

  abbrev s5 : Board
  s5 = written cfg 0 (bit_or (reset s4) 1) s4

  abbrev s6 : Board
  s6 = written cfg 0 (bit_or (reset s5) 2) s5

  abbrev s7 : Board
  s7 = written cfg 0 (bit_or (reset s6) 4) s6

  runs : (size : ℕ) → b.ptr cfg ≡ mapped size → 8 ≤ size → init_system_samples b ≡ done (pos 0) s7
  unfolding init_system_samples
  runs size p h =
      let r0 : in_reach (b.ptr cfg) 0 ≡ true = rw p (le→leb _ _ (omega arith)) in
      let r4 : in_reach (b.ptr cfg) 4 ≡ true = rw p (le→leb _ _ (omega arith)) in
      ground (
        arith,
        clear_reset_lem 1 b r0,
        clear_reset_lem 2 s1 r0,
        clear_reset_lem 4 s2 r0,
        dev_write_lem cfg 4 1048576 s3 r4,
        set_reset_lem 1 s4 r0,
        set_reset_lem 2 s5 r0,
        set_reset_lem 4 s6 r0,
      )

  reset-s7 : Bytes b → reset s7 ≡ released (reset b)
  reset-s7 h =
      let h1 : Bytes s1 = store32-IsBytes (b.mem cfg) 0 _ h in
      let h2 : Bytes s2 = store32-IsBytes (s1.mem cfg) 0 _ h1 in
      let h3 : Bytes s3 = store32-IsBytes (s2.mem cfg) 0 _ h2 in
      let h4 : Bytes s4 = store32-IsBytes (s3.mem cfg) 4 _ h3 in
      let h5 : Bytes s5 = store32-IsBytes (s4.mem cfg) 0 _ h4 in
      let h6 : Bytes s6 = store32-IsBytes (s5.mem cfg) 0 _ h5 in
      let e3 : reset s3 ≡ held (reset b) =
        reset-with_and s2 (not32 4) h2
        ∙ ap (λ x. bit_and x (not32 4))
            (reset-with_and s1 (not32 2) h1
              ∙ ap (λ x. bit_and x (not32 2)) (reset-with_and b (not32 1) h)) in
      let e4 : reset s4 ≡ reset s3 =
        load32-store32_apart (s3.mem cfg) 4 1048576 0 (inl (omega arith)) in
      reset-with_or s6 4 (omega arith) h6
      ∙ ap (λ x. bit_or x 4)
          (reset-with_or s5 2 (omega arith) h5
            ∙ ap (λ x. bit_or x 2)
                (reset-with_or s4 1 (omega arith) h4 ∙ ap (λ x. bit_or x 1) (e4 ∙ e3)))

  samples-s7 : load32 (s7.mem cfg) 4 ≡ 2 ^ 20
  samples-s7 =
      load32-store32_apart (s6.mem cfg) 0 _ 4 (inr (omega arith))
      ∙ load32-store32_apart (s5.mem cfg) 0 _ 4 (inr (omega arith))
      ∙ load32-store32_apart (s4.mem cfg) 0 _ 4 (inr (omega arith))
      ∙ load32-store32 (s3.mem cfg) 4 1048576 (omega arith)

  outside-s7 : (i : ℕ) → 8 ≤ i → s7.mem cfg i ≡ b.mem cfg i
  outside-s7 i h =
      store32_outside (s6.mem cfg) 0 _ i (inr (omega arith))
      ∙ store32_outside (s5.mem cfg) 0 _ i (inr (omega arith))
      ∙ store32_outside (s4.mem cfg) 0 _ i (inr (omega arith))
      ∙ store32_outside (s3.mem cfg) 4 _ i (inr (omega arith))
      ∙ store32_outside (s2.mem cfg) 0 _ i (inr (omega arith))
      ∙ store32_outside (s1.mem cfg) 0 _ i (inr (omega arith))
      ∙ store32_outside (b.mem cfg) 0 _ i (inr (omega arith))

  others-s7 : (d : Device) → d ≢ cfg → s7.mem d ≡ b.mem d
  others-s7 intc ne = refl
  others-s7 cfg ne = absurd (ne refl)
  others-s7 sts ne = refl
  others-s7 xadc ne = refl

-- rxchan16_test2's `init_system`, with the configuration registers mapped over 8 bytes or more,
-- returns 0. It leaves 2^20 in the number of samples. Of the reset register, bits 0, 1 and 2 are
-- set and the other 29 bits are as before. No byte after the two registers and no other device
-- changes.
pub init_system_samples_lem :
    (b : Board) (size : ℕ)
    → b.ptr cfg ≡ mapped size
    → 8 ≤ size
    → IsBytes (b.mem cfg)
    → (b' : Board) × (init_system_samples b ≡ done (pos 0) b')
      × (load32 (b'.mem cfg) cfg_nsamples_offset ≡ 2 ^ 20)
      × ((k : ℕ)
          → k < 32
          → bit k (load32 (b'.mem cfg) cfg_reset_gral_offset)
            ≡ max (bit k (load32 (b.mem cfg) cfg_reset_gral_offset)) (bit k 7))
      × ((i : ℕ) → 8 ≤ i → b'.mem cfg i ≡ b.mem cfg i)
      × ((d : Device) → d ≢ cfg → b'.mem d ≡ b.mem d)
init_system_samples_lem b size p h bytes = (
  s7 b,
  runs b size p h,
  samples-s7 b,
  (λ k lt. rw (reset-s7 b bytes) (bit-released k (load32 (b.mem cfg) 0) lt)),
  outside-s7 b,
  others-s7 b,
)
