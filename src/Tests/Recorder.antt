-- ===== src/Tests/Recorder.antt =====
-- The recorders at concrete inputs (projects/adc_recorder/adc-recorder.c,
-- projects/adc_recorder_trigger/adc-recorder-trigger.c, projects/lago/adc-recorder.c).
use rfsoc.Common.{
  ℕ, suc, ◌+◌, ◌-◌, ◌*◌, ◌/◌, ◌%◌, ◌^◌, ◌≤◌, ◌≡◌, refl, true, some, [], arith, get_elem?, length,
  bit_and, ltb, ◌<◌, min, max, if◌then◌else◌,
}
use rfsoc.Common.Int.{pos}
use rfsoc.Common.Memory.{Memory, IsBytes, load32}
use rfsoc.Common.Bits.{bit}
use rfsoc.Common.Program.{done}
use rfsoc.Recorder.Rig.{Rig, System}
use rfsoc.Recorder.Rig.Laws.{pair_line}
use rfsoc.Recorder.Plain
use rfsoc.Recorder.Plain.Laws.{main_prints}
use rfsoc.Recorder.Trigger
use rfsoc.Recorder.Trigger.{start_of, offset_of, wait_stop}
use rfsoc.Recorder.Trigger.Window.{offset_of-lt, window_has_position}
use rfsoc.Recorder.Trigger.Laws.{main_prints_window}
use rfsoc.Recorder.Lago.{print_word}
use rfsoc.Recorder.Lago
use rfsoc.Recorder.Lago.Run.{all_lines, main_prints_words}

abbrev whole : System
whole = record { opens = true; maps = λ base bytes. true; page = 4096 }

abbrev zeros : Memory
zeros i = 0

abbrev sixes : Memory
sixes i = 6

abbrev idle : Rig
idle = record { cfg_size = 0; ram_size = 0; cfg = zeros; ram = zeros; console = [] }

zeros-IsBytes : IsBytes zeros
zeros-IsBytes i = omega arith

-- The oscilloscope stops at the third read, at position 100.
abbrev status : ℕ → ℕ
status n = if ltb n 2 then 1 else 200

main_prints_example :
    (r' : Rig) × (Plain.main whole sixes idle ≡ done (pos 0) r')
    × (length r'.console ≡ 2 ^ 20 + length idle.console)
    × (get_elem? r'.console (2 ^ 20 - 1 - 5) ≡ some (pair_line sixes (4 * 5)))
main_prints_example = main_prints whole sixes idle 5 refl refl refl refl (omega arith)

main_prints_window_example :
    (r' : Rig) × (j : ℕ) × (Trigger.main whole status 9 sixes idle ≡ done (some (pos 0)) r')
    × (j ≤ 2)
    × (bit_and (status j) 1 ≡ 0)
    × (length r'.console ≡ 2 ^ 20 + length idle.console)
    × (get_elem? r'.console (2 ^ 20 - 1 - 5)
        ≡ some (pair_line sixes (offset_of (start_of (status (suc j))) 5)))
main_prints_window_example =
    main_prints_window whole status 9 2 sixes idle 5 refl refl refl refl refl refl (omega arith)
      (omega arith)

offset_of-lt_example : offset_of (start_of 200) 1000000 + 4 ≤ 8192 * 4096
offset_of-lt_example = offset_of-lt 200 1000000

window_has_position_example : offset_of (start_of 200) (1024 + 200 / 2 % 64) ≡ 200 / 2 * 4
window_has_position_example = window_has_position 200 (omega arith)

main_prints_words_example :
    (r' : Rig) × (Lago.main whole sixes idle ≡ done (pos 0) r')
    × (r'.console ≡ all_lines sixes (2 ^ 20) 0 [])
    × (load32 r'.cfg 4 ≡ 2 ^ 20 - 1)
    × ((k : ℕ)
        → bit k (load32 r'.cfg 8)
          ≡ max (max (bit k (load32 zeros 8)) (bit k 100)) (bit k (16383 * 2 ^ 16)))
    × ((k : ℕ)
        → k < 32
        → bit k (load32 r'.cfg 0) ≡ min (max (bit k (load32 zeros 0)) (bit k 7)) (1 - bit k 8))
main_prints_words_example = main_prints_words whole sixes idle refl refl refl refl zeros-IsBytes
