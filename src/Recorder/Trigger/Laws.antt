-- ===== src/Recorder/Trigger/Laws.antt =====
-- The wait for the oscilloscope, and what the program prints.
use rfsoc.Common.{
  ℕ, zero, suc, ◌+◌, ◌-◌, ◌*◌, ◌^◌, ◌≤◌, ◌<◌, ◌≡◌, refl, ap, ◌∙◌, inl, inr, true, some, arith,
  get_elem?, length, bit_and, ◌==◌, Bool-cases,
}
use rfsoc.Common.Int.{pos}
use rfsoc.Common.Memory.{Memory, store16, store32}
use rfsoc.Common.Program.{done, Line, ◌>>=◌, ◌>>◌}
use rfsoc.Recorder.Rig.{Rig, System, print_pair}
use rfsoc.Recorder.Rig.Laws.{
  pair_line, with_lines, print_pair_lem, write32_lem, write16_lem, clear16_lem, set16_lem,
  cleared16, raised16, for_loop_prints, get_elem-with_lines, length-with_lines,
}
use rfsoc.Recorder.Trigger.{
  configure, wait_stop, start_of, offset_of, print_window, read_window, main,
}
use rfsoc.Recorder.Trigger.Window.{offset_of-lt}

-- If the read of number n + k sees the oscilloscope stopped, and the fuel is more than k, the wait ends
-- with that read at the latest, and the last read that it made saw it stopped.
pub wait_stop_lem :
    (status : ℕ → ℕ) (fuel n k : ℕ)
    → bit_and (status (n + k)) 1 ≡ 0
    → k < fuel
    → (j : ℕ) × (wait_stop status fuel n ≡ some (suc j)) × (j ≤ n + k) × (bit_and (status j) 1 ≡ 0)
unfolding wait_stop
wait_stop_lem status zero n k h lt = absurd (omega arith)
wait_stop_lem status (suc fuel) n zero h lt =
    let e : n ≡ n + 0 = omega arith in
    let now : bit_and (status n) 1 ≡ 0 = ap (λ j. bit_and (status j) 1) e ∙ h in
    (n, rw now refl, omega arith, now)
wait_stop_lem status (suc fuel) n (suc k) h lt = elim (Bool-cases (bit_and (status n) 1 == 0)) [
  | inl y ↦ (n, rw y refl, omega arith, ground (arith, y))
  | inr z ↦
      let e : suc n + k ≡ n + suc k = omega arith in
      let halts : bit_and (status (suc n + k)) 1 ≡ 0 = ap (λ j. bit_and (status j) 1) e ∙ h in
      let (j, p, q, r) = wait_stop_lem status fuel (suc n) k halts (omega arith) in
      (j, rw z p, omega (arith, q), r)
]

-- The registers through the steps of `configure`.
module _ (m : Memory) where
  abbrev m2 : Memory
  m2 = raised16 (cleared16 m 0 1) 0 1

  abbrev m5 : Memory
  m5 = store16 (store16 (store16 m2 2 0) 4 1) 6 1

  abbrev m8 : Memory
  m8 = store16 (store32 (store32 m5 8 1023) 12 (2 ^ 20 - 1)) 16 5

  abbrev configured : Memory
  configured = cleared16 (raised16 m8 0 2) 0 2

configure_lem :
    (r : Rig) → 18 ≤ r.cfg_size → configure r ≡ done tt (record r { cfg = configured r.cfg })
unfolding configure
configure_lem r h =
    let at : Memory → Rig = λ c. record r { cfg = c } in
    let c = r.cfg in
    rw (
      ◌>>◌,
      ◌>>=◌,
      clear16_lem 0 1 r (omega arith),
      set16_lem 0 1 (at (cleared16 c 0 1)) (omega arith),
      write16_lem 2 0 (at (m2 c)) (omega arith),
      write16_lem 4 1 (at (store16 (m2 c) 2 0)) (omega arith),
      write16_lem 6 1 (at (store16 (store16 (m2 c) 2 0) 4 1)) (omega arith),
      write32_lem 8 1023 (at (m5 c)) (omega arith),
      write32_lem 12 (2 ^ 20 - 1) (at (store32 (m5 c) 8 1023)) (omega arith),
      write16_lem 16 5 (at (store32 (store32 (m5 c) 8 1023) 12 (2 ^ 20 - 1))) (omega arith),
      set16_lem 0 2 (at (m8 c)) (omega arith),
      clear16_lem 0 2 (at (raised16 (m8 c) 0 2)) (omega arith),
    )

-- The line of sample `i` in the window of a status word.
abbrev window_line : ℕ → Memory → ℕ → Line
window_line word m i = pair_line m (offset_of (start_of word) i)

abbrev after : ℕ → Memory → Rig → Rig
after word m r = record r {
  cfg_size = 0;
  ram_size = 0;
  ram = m;
  console = with_lines (window_line word m) (2 ^ 20) 0 r.console;
}

print_window_runs :
    (status : ℕ → ℕ) (m : Memory) (n : ℕ) (r : Rig)
    → r.ram_size ≡ 8192 * 4096
    → print_window status m n r ≡ done (some (pos 0)) (after (status n) m r)
unfolding print_window
print_window_runs status m n r h =
    let printing =
      for_loop_prints (λ i. print_pair (offset_of (start_of (status n)) i))
        (λ t i. window_line (status n) t i) (2 ^ 20) 0 (record r { ram = m })
        (λ j t lt e.
          print_pair_lem (offset_of (start_of (status n)) j) t
            (omega (arith, offset_of-lt (status n) j, e, h))) in
    rw (◌>>◌, ◌>>=◌, printing)

read_window_runs :
    (s : System) (status : ℕ → ℕ) (fuel j : ℕ) (m : Memory) (r : Rig)
    → s.page ≡ 4096
    → s.maps 0x40001000 4096 ≡ true
    → wait_stop status fuel 0 ≡ some (suc j)
    → r.ram_size ≡ 8192 * 4096
    → read_window s status fuel m r ≡ done (some (pos 0)) (after (status (suc j)) m r)
unfolding read_window
read_window_runs s status fuel j m r p st e h =
    rw (p, st, e) (print_window_runs status m (suc j) r h)

-- adc_recorder_trigger, if /dev/mem opens, the three mappings succeed, a page has 4096 bytes and
-- read number `k` of the status, `k` less than the fuel, sees the oscilloscope stopped: it returns 0,
-- after 2^20 lines more. There is a read `j`, no later than `k`, that saw it stopped. With `word` the one
-- read after it, line `i` is the pair at the offset of sample `i` in the window of `word`.
pub main_prints_window :
    (s : System) (status : ℕ → ℕ) (fuel k : ℕ) (m : Memory) (r : Rig) (i : ℕ)
    → s.opens ≡ true
    → s.page ≡ 4096
    → s.maps 0x40000000 4096 ≡ true
    → s.maps 0x40001000 4096 ≡ true
    → s.maps 0x1E000000 (8192 * 4096) ≡ true
    → bit_and (status k) 1 ≡ 0
    → k < fuel
    → i < 2 ^ 20
    → (r' : Rig) × (j : ℕ) × (main s status fuel m r ≡ done (some (pos 0)) r')
      × (j ≤ k)
      × (bit_and (status j) 1 ≡ 0)
      × (length r'.console ≡ 2 ^ 20 + length r.console)
      × (get_elem? r'.console (2 ^ 20 - 1 - i)
          ≡ some (pair_line m (offset_of (start_of (status (suc j))) i)))
unfolding main
main_prints_window s status fuel k m r i o p c st ra stopped lt low =
    let z : 0 + k ≡ k = omega arith in
    let halts : bit_and (status (0 + k)) 1 ≡ 0 = ap (λ x. bit_and (status x) 1) z ∙ stopped in
    let (j, e, le, now) = wait_stop_lem status fuel 0 k halts lt in
    let r1 : Rig = record r { cfg_size = 4096; ram_size = 8192 * 4096 } in
    let r2 : Rig = record r1 { cfg = configured r.cfg } in
    let line = window_line (status (suc j)) m in
    (
      after (status (suc j)) m r2,
      j,
      rw (o, p, c, ra, ◌>>◌, ◌>>=◌, configure_lem r1 (omega arith))
          (read_window_runs s status fuel j m r2 p st e refl),
      omega (arith, le),
      now,
      length-with_lines line (2 ^ 20) 0 r.console,
      get_elem-with_lines line (2 ^ 20) 0 i r.console low ∙ ap (λ x. some (line x)) (omega arith),
    )
