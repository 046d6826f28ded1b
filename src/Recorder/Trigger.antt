-- ===== src/Recorder/Trigger.antt =====
-- projects/adc_recorder_trigger/adc-recorder-trigger.c.
pub mod Window
pub mod Laws
use rfsoc.Common.{
  ℕ, zero, suc, ◌+◌, ◌-◌, ◌*◌, ◌/◌, ◌%◌, ◌^◌, ◌≡◌, Bool, true, false, Option, none, some, [],
  bit_and, ◌==◌, if◌then◌else◌,
}
use rfsoc.Common.Int.{ℤ, pos}
use rfsoc.Common.Memory.{Memory}
use rfsoc.Common.Program.{Outcome, done, crashed, pure, ◌>>=◌, ◌>>◌}
use rfsoc.Recorder.Rig.{
  Rig, System, map_size, printf, write32, write16, clear16, set16, captured, for_loop, print_pair,
}

-- `main` from the reset of the oscilloscope to its start.
unfoldable pub configure : Rig → Outcome Rig (Unit {0})
configure = do
  clear16 0 1
  set16 0 1
  write16 2 0
  write16 4 1
  write16 6 1
  write32 8 (1024 - 1)
  write32 12 (1024 * 1024 - 1)
  write16 16 5
  set16 0 2
  clear16 0 2

-- `while(*((uint32_t *)(sts + 0)) & 1)`: `status n` is the word that the read of number `n` sees. The
-- number of the next read, or `none` if the fuel ran out.
unfoldable pub wait_stop : (ℕ → ℕ) → ℕ → ℕ → Option ℕ
wait_stop status zero n = none
wait_stop status (suc fuel) n =
    let next = wait_stop status fuel (suc n) in
    if bit_and (status n) 1 == 0 then some (suc n) else next

-- `start = word >> 1; start = (start - 1024) & 0x007FFFC0`, of `uint32_t`.
unfoldable pub start_of : ℕ → ℕ
start_of word = bit_and ((word / 2 + (2 ^ 32 - 1024)) % 2 ^ 32) 0x007FFFC0

-- `((start + i) & 0x007FFFFF) * 4`.
unfoldable pub offset_of : ℕ → ℕ → ℕ
offset_of start i = bit_and ((start + i) % 2 ^ 32) 0x007FFFFF * 4

abbrev pub unmap : Rig → Outcome Rig (Unit {0})
unmap r = done tt (record r { cfg_size = 0; ram_size = 0 })

-- The three calls of `mmap`, whose results are not looked at.
abbrev pub map_three : System → Rig → Outcome Rig (Unit {0})
map_three s r = done tt (record r {
  cfg_size = map_size s s.page 0x40000000;
  ram_size = map_size s (8192 * s.page) 0x1E000000;
})

-- The end of `main`, from the stop of the oscilloscope on, when the next read has number `n`.
unfoldable pub print_window : (ℕ → ℕ) → Memory → ℕ → Rig → Outcome Rig (Option ℤ)
print_window status m n = do
  captured m
  for_loop (λ i. print_pair (offset_of (start_of (status n)) i)) (1024 * 1024) 0
  unmap
  pure (some (pos 0))

-- The reads of the status register crash if it is not mapped.
unfoldable pub read_window : System → (ℕ → ℕ) → ℕ → Memory → Rig → Outcome Rig (Option ℤ)
read_window s status fuel m =
    if s.maps 0x40001000 s.page
    then elim (wait_stop status fuel 0) [ some n ↦ print_window status m n | none ↦ pure none ]
    else (λ r. crashed)

-- `main`. `none` means that the fuel of the wait ran out; `m` is what the RAM holds after the wait.
unfoldable pub main : System → (ℕ → ℕ) → ℕ → Memory → Rig → Outcome Rig (Option ℤ)
main s status fuel m =
    if s.opens
    then (do map_three s; configure; read_window s status fuel m)
    else (do printf "open" []; pure (some (pos 1)))
