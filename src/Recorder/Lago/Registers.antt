-- ===== src/Recorder/Lago/Registers.antt =====
-- The registers through a run of lago's recorder (projects/lago/adc-recorder.c).
use rfsoc.Common.{
  ℕ, zero, suc, ◌*◌, ◌-◌, ◌^◌, ◌≤◌, ◌<◌, ◌≡◌, ◌∙◌, refl, inl, inr, arith, max, min, ap,
}
use rfsoc.Common.Bits.{bit_seven, bit}
use rfsoc.Common.Memory.{
  Memory, IsBytes, store32-IsBytes, load32, store32, load32-store32, load32-store32_apart,
}
use rfsoc.Common.Program.{done, ◌>>=◌, ◌>>◌}
use rfsoc.Recorder.Rig.{Rig}
use rfsoc.Recorder.Rig.Laws.{
  cleared, raised, clear32_lem, set32_lem, write32_lem, bit-cleared, bit-raised, bit-raised-cleared,
}
use rfsoc.Recorder.Lago.{configure}

last_bits :
    (x a b c d : ℕ)
    → min (max (max (min (max (max x c) a) (1 - b)) d) b) (1 - d)
      ≡ min (max x (max (max a b) c)) (1 - d)
last_bits x a b c (suc d) = omega arith
last_bits x a zero c zero = omega arith
last_bits x a (suc b) c zero = omega arith

-- The registers through the steps of `configure`, and at the end.
module _ (m : Memory) where
  abbrev writer_reset : Memory
  writer_reset = raised (cleared m 0 4) 0 4

  abbrev filters_reset : Memory
  filters_reset = raised (cleared writer_reset 0 1) 0 1

  abbrev stopped : Memory
  stopped = cleared filters_reset 0 2

  abbrev counted : Memory
  counted = store32 stopped 4 (2 ^ 20 - 1)

  abbrev level_a : Memory
  level_a = raised counted 8 100

  abbrev levels : Memory
  levels = raised level_a 8 (16383 * 2 ^ 16)

  abbrev with_pps : Memory
  with_pps = raised levels 0 8

  abbrev pub started : Memory
  started = raised with_pps 0 2

  abbrev pub ended : Memory
  ended = cleared started 0 8

  module _ (b : IsBytes m) where
    IsBytes-filters : IsBytes filters_reset
    IsBytes-filters = store32-IsBytes (cleared writer_reset 0 1) 0 _ (
        store32-IsBytes writer_reset 0 _
          (store32-IsBytes (cleared m 0 4) 0 _ (store32-IsBytes m 0 _ b)))

    IsBytes-counted : IsBytes counted
    IsBytes-counted =
        store32-IsBytes stopped 4 _ (store32-IsBytes filters_reset 0 _ IsBytes-filters)

    IsBytes-level_a : IsBytes level_a
    IsBytes-level_a = store32-IsBytes counted 8 _ IsBytes-counted

    IsBytes-levels : IsBytes levels
    IsBytes-levels = store32-IsBytes level_a 8 _ IsBytes-level_a

    IsBytes-started : IsBytes started
    IsBytes-started = store32-IsBytes with_pps 0 _ (store32-IsBytes levels 0 _ IsBytes-levels)

    -- The reset register up to the reset of the packetizer.
    bit-stopped :
        (k : ℕ)
        → k < 32
        → bit k (load32 stopped 0)
          ≡ min (max (max (bit k (load32 m 0)) (bit k 4)) (bit k 1)) (1 - bit k 2)
    bit-stopped k lt =
        let w : IsBytes writer_reset =
          store32-IsBytes (cleared m 0 4) 0 _ (store32-IsBytes m 0 _ b) in
        bit-cleared filters_reset 0 2 k IsBytes-filters (omega arith) lt
        ∙ rw
            (
              bit-raised-cleared writer_reset 0 1 k w (omega arith) lt,
              bit-raised-cleared m 0 4 k b (omega arith) lt,
            )
            refl

    -- The settings behind it leave the reset register.
    levels_apart : load32 levels 0 ≡ load32 stopped 0
    levels_apart =
        load32-store32_apart level_a 8 _ 0 (inl (omega arith))
        ∙ load32-store32_apart counted 8 _ 0 (inl (omega arith))
        ∙ load32-store32_apart stopped 4 _ 0 (inl (omega arith))

    pub bit-ended :
        (k : ℕ)
        → k < 32
        → bit k (load32 ended 0) ≡ min (max (bit k (load32 m 0)) (bit k 7)) (1 - bit k 8)
    bit-ended k lt =
        let x : ℕ = bit k (load32 m 0) in
        let kept : bit k (load32 levels 0) ≡ min (max (max x (bit k 4)) (bit k 1)) (1 - bit k 2) =
          ap (bit k) levels_apart ∙ bit-stopped k lt in
        bit-cleared started 0 8 k IsBytes-started (omega arith) lt
        ∙ rw
            (
              bit-raised with_pps 0 2 k (store32-IsBytes levels 0 _ IsBytes-levels) (omega arith),
              bit-raised levels 0 8 k IsBytes-levels (omega arith),
              kept,
              bit_seven k,
            )
            (last_bits x (bit k 1) (bit k 2) (bit k 4) (bit k 8))

    -- The trigger levels.
    pub bit-levels :
        (k : ℕ)
        → bit k (load32 ended 8)
          ≡ max (max (bit k (load32 m 8)) (bit k 100)) (bit k (16383 * 2 ^ 16))
    bit-levels k =
        let before : load32 counted 8 ≡ load32 m 8 =
          load32-store32_apart stopped 4 _ 8 (inr (omega arith))
          ∙ load32-store32_apart filters_reset 0 _ 8 (inr (omega arith))
          ∙ load32-store32_apart (cleared writer_reset 0 1) 0 _ 8 (inr (omega arith))
          ∙ load32-store32_apart writer_reset 0 _ 8 (inr (omega arith))
          ∙ load32-store32_apart (cleared m 0 4) 0 _ 8 (inr (omega arith))
          ∙ load32-store32_apart m 0 _ 8 (inr (omega arith)) in
        let behind : load32 ended 8 ≡ load32 levels 8 =
          load32-store32_apart started 0 _ 8 (inr (omega arith))
          ∙ load32-store32_apart with_pps 0 _ 8 (inr (omega arith))
          ∙ load32-store32_apart levels 0 _ 8 (inr (omega arith)) in
        ap (bit k) behind
        ∙ rw
            (
              bit-raised level_a 8 (16383 * 2 ^ 16) k IsBytes-level_a (omega arith),
              bit-raised counted 8 100 k IsBytes-counted (omega arith),
              before,
            )
            refl

  pub samples-ended : load32 ended 4 ≡ 2 ^ 20 - 1
  samples-ended =
      load32-store32_apart started 0 _ 4 (inr (omega arith))
      ∙ load32-store32_apart with_pps 0 _ 4 (inr (omega arith))
      ∙ load32-store32_apart levels 0 _ 4 (inr (omega arith))
      ∙ load32-store32_apart level_a 8 _ 4 (inl (omega arith))
      ∙ load32-store32_apart counted 8 _ 4 (inl (omega arith))
      ∙ load32-store32 stopped 4 (2 ^ 20 - 1) (omega arith)

pub configure_lem :
    (r : Rig) → 12 ≤ r.cfg_size → configure r ≡ done tt (record r { cfg = started r.cfg })
unfolding configure
configure_lem r h =
    let at : Memory → Rig = λ m. record r { cfg = m } in
    rw (
      ◌>>◌,
      ◌>>=◌,
      clear32_lem 0 4 r (omega arith),
      set32_lem 0 4 (at (cleared r.cfg 0 4)) (omega arith),
      clear32_lem 0 1 (at (writer_reset r.cfg)) (omega arith),
      set32_lem 0 1 (at (cleared (writer_reset r.cfg) 0 1)) (omega arith),
      clear32_lem 0 2 (at (filters_reset r.cfg)) (omega arith),
      write32_lem 4 (2 ^ 20 - 1) (at (stopped r.cfg)) (omega arith),
      set32_lem 8 100 (at (counted r.cfg)) (omega arith),
      set32_lem 8 (16383 * 2 ^ 16) (at (level_a r.cfg)) (omega arith),
      set32_lem 0 8 (at (levels r.cfg)) (omega arith),
      set32_lem 0 2 (at (with_pps r.cfg)) (omega arith),
    )
