-- ===== src/Tests/Uio.antt =====
-- otro_dma.c on an engine that keeps a byte memory and moves nothing.
use rfsoc.Common.{ℕ, ◌≡◌, ◌↔◌, ◌++◌, true, some, List, [], refl, if◌then◌else◌, ◌==◌, arith}
use rfsoc.Common.Int.{pos}
use rfsoc.Common.Program.{crashed, done, Line}
use rfsoc.Dma.Device.{Engine, Host}
use rfsoc.Dma.Programs.Laws.{recorded}
use rfsoc.Dma.Uio.{Calls, Process, main}
use rfsoc.Dma.Uio.Laws.{beside_log, channel_writes, byte_lines, main_moves}
use rfsoc.Dma.Uio.Crash.{Fails, main_crashes}

abbrev still : Engine
still = record {
  State = ℕ → ℕ;
  read = λ offset s. (0x1002, s);
  write = λ offset value s. s;
  ram = λ s. s;
}

abbrev own_memory : Process (ℕ → ℕ)
own_memory = record {
  load = λ a s. s a;
  store = λ a b s i. if i == a then b else s i;
  wait = λ s. s;
  acknowledge = λ s. s;
}

abbrev calls : Calls
calls = record {
  uio_fd = pos 3;
  fopen = some 4096;
  uio_size = 65536;
  mmap = λ size. size;
  maps = true;
  out_buff = 100;
  in_buff = 200;
  errno = pos 0;
}

abbrev at_start : Host ((ℕ → ℕ) × List (ℕ × ℕ))
at_start = record { engine = (λ a. 0, []); console = [] }

main_moves_example :
    (h' : Host ((ℕ → ℕ) × List (ℕ × ℕ))) × (ls : List Line) × (main
        (recorded still)
        (beside_log own_memory)
        calls
        at_start
      ≡ done (pos 0) h')
    × (h'.engine.1
        ≡ channel_writes 0x0 0x18 0x1C 0x28 100 ++ channel_writes 0x30 0x48 0x4C 0x58 200 ++ [])
    × (h'.console ≡ byte_lines (λ a. h'.engine.0 a) 100 200 10 0 ls)
main_moves_example =
    main_moves still own_memory calls 4096 at_start refl refl (omega arith) (omega arith)
      (omega arith) refl

abbrev without_file : Calls
without_file = record calls { fopen = some 0 }

main_crashes_example :
    (main (recorded still) (beside_log own_memory) without_file at_start ≡ crashed)
    ↔ Fails without_file
main_crashes_example = main_crashes still own_memory without_file at_start refl
