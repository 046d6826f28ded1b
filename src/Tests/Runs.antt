-- ===== src/Tests/Runs.antt =====
-- Whole runs of the lock-in amplifier's program at concrete inputs (projects/gen_test/src/lia_rp.c).
use rfsoc.Common.{
  ℕ, bit_or, ◌+◌, ◌≤◌, ◌<◌, ◌≡◌, ◌≢◌, refl, ◌⊎◌, inl, true, false, List, [], ◌∷◌, arith,
}
use rfsoc.Common.Int.{pos, signed32}
use rfsoc.Common.Memory.{load32, store32}
use rfsoc.Common.Text.{Text, codes}
use rfsoc.Common.Program.{done, exited, crashed}
use rfsoc.Lia.Board.{Device, cfg, sts, null, power_on}
use rfsoc.Lia.Main.{Process, main}
use rfsoc.Lia.Main.Sampling.{sample_line, Printable}
use rfsoc.Lia.Main.Gain.{main_sets_gain}
use rfsoc.Lia.Main.Streaming.{Stop, main_streams}
use rfsoc.Lia.Main.Initialise.{IsInitialised, main_initialises}
use rfsoc.Lia.Main.Frequency.{Sent, main_sets_frequency}
use rfsoc.Lia.Main.Status.{status_lines, main_shows_gain}
use rfsoc.Tests.Registers.{test_libc, test_os, ones, blank_board, blank-IsBytes}
use rfsoc.Tests.Program.{fresh, set_kp, atoi_range, boots, started, running}

main_streams_example :
    (Printable (65537 ∷ [])
      × ((p' : Process) × (main test_os test_libc
              (codes "lia_rp")
              (codes "lia_rp" ∷ codes "-o" ∷ [])
              (65537 ∷ [])
              started
            ≡ done (pos 0) p')
          × (p'.board.console ≡ sample_line 65537 ∷ [])
          × (p'.board.mem cfg ≡ store32 (ones cfg) 0 (bit_or (load32 (ones cfg) 0) 1))
          × (p'.board.ptr cfg ≡ null)
          × (p'.board.ptr sts ≡ null)))
    ⊎ (Stop (65537 ∷ [])
        × (main test_os test_libc
              (codes "lia_rp")
              (codes "lia_rp" ∷ codes "-o" ∷ [])
              (65537 ∷ [])
              started
            ≡ crashed))
main_streams_example =
    main_streams test_os test_libc 20 20 (codes "lia_rp") (65537 ∷ []) started boots (omega arith)
      (omega arith) refl running (omega arith, tt)

abbrev never_started : Process
never_started = record { board = blank_board; globals = fresh }

main_initialises_example :
    (p' : Process) × (main test_os test_libc
        (codes "lia_rp")
        (codes "lia_rp" ∷ codes "-i" ∷ [])
        []
        never_started
      ≡ done (pos 0) p')
    × IsInitialised test_libc blank_board.mem p'.board.mem
main_initialises_example =
    main_initialises test_os test_libc 20 20 boots (omega arith) (codes "lia_rp") [] never_started
      blank-IsBytes

main_sets_gain_example :
    (p' : Process) × (main test_os test_libc (codes "lia_rp") set_kp [] started ≡ done (pos 0) p')
    × (signed32 (load32 (p'.board.mem cfg) 4) ≡ pos 42)
    × ((i : ℕ) → (i < 4) ⊎ (4 + 4 ≤ i) → p'.board.mem cfg i ≡ 1)
    × ((d : Device) → d ≢ cfg → p'.board.mem d ≡ ones d)
    × (p'.board.ptr cfg ≡ null)
    × (p'.board.ptr sts ≡ null)
main_sets_gain_example =
    main_sets_gain test_libc atoi_range test_os 20 20 (codes "lia_rp") (codes "kp") (codes "42") 4
      [] started boots (omega arith) (inl (refl, refl)) refl running

main_shows_gain_example :
    (p' p'' : Process) × (main test_os test_libc (codes "lia_rp") set_kp [] started
      ≡ done (pos 0) p')
    × (main test_os test_libc
          (codes "lia_rp")
          (codes "lia_rp" ∷ codes "-a" ∷ [])
          []
          (record { board = power_on p'.board.mem; globals = fresh })
        ≡ done (pos 0) p'')
    × (p''.board.console
        ≡ status_lines
            (pos 42)
            (signed32 (load32 (ones cfg) 8))
            (load32 (ones cfg) 12)
            (load32 (ones cfg) 16)
            [])
    × (p''.board.mem ≡ p'.board.mem)
main_shows_gain_example =
    main_shows_gain test_libc test_os 20 20 (codes "lia_rp") (codes "kp") (codes "42") 4 [] []
      started fresh atoi_range boots (omega arith) (inl (refl, refl)) refl refl running

-- A frequency that is accepted and overflows when it is scaled.
abbrev set_high : List Text
set_high = codes "lia_rp" ∷ codes "-s" ∷ codes "fv" ∷ codes "8399999" ∷ []

main_sets_frequency_example :
    let run = main test_os test_libc (codes "lia_rp") set_high [] started in
    ((test_libc.atof_above (codes "8399999") 8400000 ≡ true)
      × ((p' : Process) × (run ≡ exited (pos 1) p') × (p'.board ≡ started.board)))
    ⊎ ((test_libc.atof_above (codes "8399999") 8400000 ≡ false)
        × ((p' : Process) × (run ≡ done (pos 0) p')
            × Sent test_libc (test_libc.atof (codes "8399999")) 8 (load32 (p'.board.mem cfg) 16)
            × ((i : ℕ) → (i < 16) ⊎ (20 ≤ i) → p'.board.mem cfg i ≡ 1)
            × (p'.board.ptr cfg ≡ null)
            × (p'.board.ptr sts ≡ null)))
main_sets_frequency_example =
    main_sets_frequency test_os test_libc 20 20 (codes "lia_rp") (codes "8399999") [] started boots
      (omega arith) refl running
