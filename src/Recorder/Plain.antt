-- ===== src/Recorder/Plain.antt =====
-- projects/adc_recorder/adc-recorder.c.
pub mod Laws
use rfsoc.Common.{ℕ, ◌+◌, ◌-◌, ◌*◌, ◌≡◌, Bool, true, false, [], if◌then◌else◌}
use rfsoc.Common.Int.{ℤ, pos}
use rfsoc.Common.Memory.{Memory}
use rfsoc.Common.Program.{Outcome, done, pure, ◌>>=◌, ◌>>◌}
use rfsoc.Recorder.Rig.{
  Rig, System, map_size, printf, write32, clear32, set32, captured, for_loop, print_pair,
}

-- `main` from the reset of the writer to the start of the packetizer.
unfoldable pub configure : Rig → Outcome Rig (Unit {0})
configure = do
  clear32 0 4
  set32 0 4
  clear32 0 1
  set32 0 1
  clear32 0 2
  write32 4 (1024 * 1024 - 1)
  set32 0 2

-- `munmap` of both.
abbrev pub unmap : Rig → Outcome Rig (Unit {0})
unmap r = done tt (record r { cfg_size = 0; ram_size = 0 })

-- The two calls of `mmap`, whose results are not looked at.
abbrev pub map_both : System → Rig → Outcome Rig (Unit {0})
map_both s r = done tt (record r {
  cfg_size = map_size s s.page 0x40000000;
  ram_size = map_size s (1024 * s.page) 0x1E000000;
})

-- `main`; `m` is what the RAM holds after the second wait.
unfoldable pub main : System → Memory → Rig → Outcome Rig ℤ
main s m =
    if s.opens
    then (do
      map_both s
      configure
      captured m
      for_loop (λ i. print_pair (4 * i)) (1024 * 1024) 0
      unmap
      pure (pos 0))
    else (do printf "open" []; pure (pos 1))
