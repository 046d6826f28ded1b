-- ===== src/Recorder/Plain/Laws.antt =====
-- What adc_recorder leaves in its registers and what it prints.
use rfsoc.Common.{
  ℕ, ◌+◌, ◌-◌, ◌*◌, ◌^◌, ◌≤◌, ◌<◌, ◌≡◌, ◌∙◌, inl, inr, true, some, arith, get_elem?, length, max,
  ap,
}
use rfsoc.Common.Int.{pos}
use rfsoc.Common.Bits.{bit_seven, bit-lt-two, bit}
use rfsoc.Common.Memory.{
  Memory, IsBytes, store32-IsBytes, load32, store32, load32-store32, load32-store32_apart,
}
use rfsoc.Common.Program.{done, ◌>>=◌, ◌>>◌}
use rfsoc.Recorder.Rig.{Rig, System, print_pair}
use rfsoc.Recorder.Rig.Laws.{
  cleared, raised, clear32_lem, set32_lem, bit-cleared, bit-raised, bit-raised-cleared, pair_line,
  with_lines, print_pair_lem, write32_lem, for_loop_prints, get_elem-with_lines, length-with_lines,
}
use rfsoc.Recorder.Plain.{configure, main}

max_last : (x a b c : ℕ) → max (max (max x c) a) b ≡ max x (max (max a b) c)
max_last x a b c = omega arith

-- The registers through the steps of `configure`.
module _ (m : Memory) where
  abbrev writer_reset : Memory
  writer_reset = raised (cleared m 0 4) 0 4

  abbrev filters_reset : Memory
  filters_reset = raised (cleared writer_reset 0 1) 0 1

  abbrev counted : Memory
  counted = store32 (cleared filters_reset 0 2) 4 (2 ^ 20 - 1)

  abbrev started : Memory
  started = raised counted 0 2

  bit-started :
      (k : ℕ) → k < 32 → IsBytes m → bit k (load32 started 0) ≡ max (bit k (load32 m 0)) (bit k 7)
  bit-started k lt b =
      let b1 : IsBytes (cleared m 0 4) = store32-IsBytes m 0 _ b in
      let b2 : IsBytes writer_reset = store32-IsBytes (cleared m 0 4) 0 _ b1 in
      let b3 : IsBytes (cleared writer_reset 0 1) = store32-IsBytes writer_reset 0 _ b2 in
      let b4 : IsBytes filters_reset = store32-IsBytes (cleared writer_reset 0 1) 0 _ b3 in
      let b5 : IsBytes (cleared filters_reset 0 2) = store32-IsBytes filters_reset 0 _ b4 in
      let b6 : IsBytes counted = store32-IsBytes (cleared filters_reset 0 2) 4 _ b5 in
      let same : bit k (load32 counted 0) ≡ bit k (load32 (cleared filters_reset 0 2) 0) =
        ap (bit k) (load32-store32_apart (cleared filters_reset 0 2) 4 _ 0 (inl (omega arith))) in
      let end : bit k (load32 started 0) ≡ max (bit k (load32 filters_reset 0)) (bit k 2) = omega (
        arith,
        same,
        bit-cleared filters_reset 0 2 k b4 (omega arith) lt,
        bit-raised counted 0 2 k b6 (omega arith),
        bit-lt-two k (load32 filters_reset 0),
        bit-lt-two k 2,
      ) in
      end
      ∙ rw
          (
            bit-raised-cleared writer_reset 0 1 k b2 (omega arith) lt,
            bit-raised-cleared m 0 4 k b (omega arith) lt,
            bit_seven k,
          )
          (max_last (bit k (load32 m 0)) (bit k 1) (bit k 2) (bit k 4))

  samples-started : load32 started 4 ≡ 2 ^ 20 - 1
  samples-started =
      load32-store32_apart counted 0 _ 4 (inr (omega arith))
      ∙ load32-store32 (cleared filters_reset 0 2) 4 (2 ^ 20 - 1) (omega arith)

configure_lem :
    (r : Rig) → 8 ≤ r.cfg_size → configure r ≡ done tt (record r { cfg = started r.cfg })
unfolding configure
configure_lem r h =
    let r1 : Rig = record r { cfg = cleared r.cfg 0 4 } in
    let r2 : Rig = record r { cfg = writer_reset r.cfg } in
    let r3 : Rig = record r { cfg = cleared (writer_reset r.cfg) 0 1 } in
    let r4 : Rig = record r { cfg = filters_reset r.cfg } in
    let r5 : Rig = record r { cfg = cleared (filters_reset r.cfg) 0 2 } in
    let r6 : Rig = record r { cfg = counted r.cfg } in
    rw (
      ◌>>◌,
      ◌>>=◌,
      clear32_lem 0 4 r (omega arith),
      set32_lem 0 4 r1 (omega arith),
      clear32_lem 0 1 r2 (omega arith),
      set32_lem 0 1 r3 (omega arith),
      clear32_lem 0 2 r4 (omega arith),
      write32_lem 4 (2 ^ 20 - 1) r5 (omega arith),
      set32_lem 0 2 r6 (omega arith),
    )

abbrev after : Memory → Rig → Rig
after m r = record r {
  cfg_size = 0;
  ram_size = 0;
  cfg = started r.cfg;
  ram = m;
  console = with_lines (λ i. pair_line m (4 * i)) (2 ^ 20) 0 r.console;
}

main_runs :
    (s : System) (m : Memory) (r : Rig)
    → s.opens ≡ true
    → s.page ≡ 4096
    → s.maps 0x40000000 4096 ≡ true
    → s.maps 0x1E000000 (1024 * 4096) ≡ true
    → main s m r ≡ done (pos 0) (after m r)
unfolding main
main_runs s m r o p c ra =
    let r1 : Rig = record r { cfg_size = 4096; ram_size = 1024 * 4096 } in
    let r2 : Rig = record r1 { cfg = started r.cfg; ram = m } in
    let printing =
      for_loop_prints (λ i. print_pair (4 * i)) (λ t i. pair_line t (4 * i)) (2 ^ 20) 0 r2
        (λ j t lt e. print_pair_lem (4 * j) t (omega arith)) in
    rw (o, p, c, ra, ◌>>◌, ◌>>=◌, configure_lem r1 (omega arith), printing)

-- adc_recorder, if /dev/mem opens, both mappings succeed and a page has 4096 bytes: it returns 0, the
-- register of the number of samples holds 2^20 - 1, and of the reset register the bits 0, 1 and 2 are
-- set and the others as before.
pub main_configures :
    (s : System) (m : Memory) (r : Rig) (k : ℕ)
    → s.opens ≡ true
    → s.page ≡ 4096
    → s.maps 0x40000000 4096 ≡ true
    → s.maps 0x1E000000 (1024 * 4096) ≡ true
    → IsBytes r.cfg
    → k < 32
    → (r' : Rig) × (main s m r ≡ done (pos 0) r')
      × (load32 r'.cfg 4 ≡ 2 ^ 20 - 1)
      × (bit k (load32 r'.cfg 0) ≡ max (bit k (load32 r.cfg 0)) (bit k 7))
main_configures s m r k o p c ra b lt =
    (after m r, main_runs s m r o p c ra, samples-started r.cfg, bit-started r.cfg k lt b)

-- adc_recorder, if /dev/mem opens, both mappings succeed and a page has 4096 bytes: it returns 0 after
-- 2^20 lines more, and line `i` of them, i below 2^20, is the pair of 16-bit samples at the offset 4 * i
-- of what the RAM holds after the second wait.
pub main_prints :
    (s : System) (m : Memory) (r : Rig) (i : ℕ)
    → s.opens ≡ true
    → s.page ≡ 4096
    → s.maps 0x40000000 4096 ≡ true
    → s.maps 0x1E000000 (1024 * 4096) ≡ true
    → i < 2 ^ 20
    → (r' : Rig) × (main s m r ≡ done (pos 0) r')
      × (length r'.console ≡ 2 ^ 20 + length r.console)
      × (get_elem? r'.console (2 ^ 20 - 1 - i) ≡ some (pair_line m (4 * i)))
main_prints s m r i o p c ra lt = (
  after m r,
  main_runs s m r o p c ra,
  length-with_lines (λ i. pair_line m (4 * i)) (2 ^ 20) 0 r.console,
  get_elem-with_lines (λ i. pair_line m (4 * i)) (2 ^ 20) 0 i r.console lt
      ∙ ap (λ j. some (pair_line m (4 * j))) (omega arith),
)
