-- ===== src/Recorder/Lago/Run.antt =====
-- A whole run of lago's recorder (projects/lago/adc-recorder.c): what it prints.
use rfsoc.Common.{
  ℕ, zero, suc, ◌+◌, ◌*◌, ◌-◌, ◌/◌, ◌^◌, ◌≤◌, ◌<◌, ◌≡◌, ◌∙◌, refl, sym, true, List, [], ◌∷◌, ◌++◌,
  arith, max, min, ap, ◌==◌, if◌then◌else◌,
}
use mathlib.Core.List.{append_assoc}
use rfsoc.Common.Int.{pos}
use rfsoc.Common.Bits.{bit}
use rfsoc.Common.Memory.{Memory, IsBytes, load32}
use rfsoc.Common.Program.{done, Line, int, ◌>>=◌, ◌>>◌, >>=-done}
use rfsoc.Recorder.Rig.{Rig, System, values, for_loop}
use rfsoc.Recorder.Rig.Laws.{clear32_lem, pair, values_lem}
use rfsoc.Recorder.Lago.{word_of, print_word, print_sample, main}
use rfsoc.Recorder.Lago.Laws.{triple, time_line, print_word_lem}
use rfsoc.Recorder.Lago.Registers.{
  started, ended, samples-ended, bit-levels, bit-ended, configure_lem,
}

-- The lines of the sample `i`, newest first.
abbrev pub sample_lines : Memory → ℕ → List Line
sample_lines m i =
    let first = (pair m (4 * i)).0 in
    let second = (pair m (4 * i)).1 in
    let kind = word_of first second / 2 ^ 30 in
    (if kind == 0
      then record { format = "%5d %5d\n"; args = int first ∷ int second ∷ [] } ∷ []
      else if kind == 1
      then time_line (word_of first second) ∷ []
      else [])
    ++ triple first second ∷ []

-- Those of `n` samples from `i` on, in front of what is there.
unfoldable pub all_lines : Memory → ℕ → ℕ → List Line → List Line
all_lines m zero i ls = ls
all_lines m (suc n) i ls = all_lines m n (suc i) (sample_lines m i ++ ls)

print_sample_lem :
    (i : ℕ) (r : Rig)
    → 4 * i + 4 ≤ r.ram_size
    → print_sample i r ≡ done tt (record r { console = sample_lines r.ram i ++ r.console })
unfolding print_sample
print_sample_lem i r h =
    let (first, second) = pair r.ram (4 * i) in
    >>=-done (values (4 * i)) (λ value. print_word value.0 value.1) (values_lem (4 * i) r h)
    ∙ print_word_lem first second r
    ∙ ap (λ ls. done tt (record r { console = ls }))
        (sym (append_assoc _ (triple first second ∷ []) r.console))

for_loop_samples :
    (n i : ℕ) (r : Rig)
    → 4 * (i + n) ≤ r.ram_size
    → for_loop print_sample n i r ≡ done tt (record r { console = all_lines r.ram n i r.console })
unfolding for_loop all_lines
for_loop_samples zero i r h = refl
for_loop_samples (suc n) i r h =
    >>=-done (print_sample i) (λ _. for_loop print_sample n (suc i))
      (print_sample_lem i r (omega arith))
    ∙ for_loop_samples n (suc i) _ (omega arith)

abbrev after : Memory → Rig → Rig
after m r = record r {
  cfg_size = 0;
  ram_size = 0;
  cfg = ended r.cfg;
  ram = m;
  console = all_lines m (2 ^ 20) 0 r.console;
}

main_runs :
    (s : System) (m : Memory) (r : Rig)
    → s.opens ≡ true
    → s.page ≡ 4096
    → s.maps 0x40000000 4096 ≡ true
    → s.maps 0x1E000000 (1024 * 4096) ≡ true
    → main s m r ≡ done (pos 0) (after m r)
unfolding main
main_runs s m r o p c ra =
    let r1 : Rig = record r { cfg_size = 4096; ram_size = 1024 * 4096 } in
    let r2 : Rig = record r1 { cfg = started r.cfg; ram = m } in
    let r3 : Rig = record r2 { console = all_lines m (2 ^ 20) 0 r.console } in
    rw
      (
        o,
        p,
        c,
        ra,
        ◌>>◌,
        ◌>>=◌,
        configure_lem r1 (omega arith),
        for_loop_samples (2 ^ 20) 0 r2 (omega arith),
        clear32_lem 0 8 r3 (omega arith),
      )
      refl

-- lago's recorder, if /dev/mem opens, both mappings succeed and a page has 4096 bytes: it returns 0 after
-- printing the lines of 2^20 samples of what the RAM holds after the second wait. The register of the number
-- of samples holds 2^20 - 1; the one of the trigger levels has the bits of 100 and of 16383 * 2^16 besides
-- those that it had; of the reset register bits 0, 1 and 2 are set, bit 3 is cleared and the others are as
-- before.
pub main_prints_words :
    (s : System) (m : Memory) (r : Rig)
    → s.opens ≡ true
    → s.page ≡ 4096
    → s.maps 0x40000000 4096 ≡ true
    → s.maps 0x1E000000 (1024 * 4096) ≡ true
    → IsBytes r.cfg
    → (r' : Rig) × (main s m r ≡ done (pos 0) r')
      × (r'.console ≡ all_lines m (2 ^ 20) 0 r.console)
      × (load32 r'.cfg 4 ≡ 2 ^ 20 - 1)
      × ((k : ℕ)
          → bit k (load32 r'.cfg 8)
            ≡ max (max (bit k (load32 r.cfg 8)) (bit k 100)) (bit k (16383 * 2 ^ 16)))
      × ((k : ℕ)
          → k < 32
          → bit k (load32 r'.cfg 0) ≡ min (max (bit k (load32 r.cfg 0)) (bit k 7)) (1 - bit k 8))
main_prints_words s m r o p c ra b = (
  after m r,
  main_runs s m r o p c ra,
  refl,
  samples-ended r.cfg,
  bit-levels r.cfg b,
  bit-ended r.cfg b,
)
