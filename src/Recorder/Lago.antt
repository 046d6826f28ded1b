-- ===== src/Recorder/Lago.antt =====
-- projects/lago/adc-recorder.c.
pub mod Laws
pub mod Registers
pub mod Run
use rfsoc.Common.{
  ℕ, ◌+◌, ◌-◌, ◌*◌, ◌/◌, ◌%◌, ◌^◌, ◌≡◌, Bool, true, false, [], ◌∷◌, bit_and, ◌==◌, if◌then◌else◌,
}
use rfsoc.Common.Int.{ℤ, pos, negsuc, signed32, word32}
use rfsoc.Common.Memory.{Memory}
use rfsoc.Common.Program.{Outcome, done, int, pure, ◌>>=◌, ◌>>◌}
use rfsoc.Recorder.Rig.{Rig, System, printf, write32, clear32, set32, captured, for_loop, values}
use rfsoc.Recorder.Plain.{map_both, unmap}

-- `main` from the reset of the writer to the start of the packetizer.
unfoldable pub configure : Rig → Outcome Rig (Unit {0})
configure = do
  clear32 0 4
  set32 0 4
  clear32 0 1
  set32 0 1
  clear32 0 2
  write32 4 (1024 * 1024 - 1)
  set32 8 100
  set32 8 (16383 * 2 ^ 16)
  set32 0 8
  set32 0 2

-- `wo = (value[1]<<16) + value[0]`, as its 32-bit pattern.
abbrev pub word_of : ℤ → ℤ → ℕ
word_of first second = (word32 second * 2 ^ 16 + word32 first) % 2 ^ 32

-- `wo >> k` of an `int`, which keeps the sign.
abbrev pub shift_right : ℕ → ℤ → ℤ
shift_right k (pos n) = pos (n / 2 ^ k)
shift_right k (negsuc n) = negsuc (n / 2 ^ k)

abbrev pub is_value : ℕ → ℤ → Bool
is_value k (pos n) = n == k
is_value k (negsuc n) = false

-- The body of the loop after the samples are read.
unfoldable pub print_word : ℤ → ℤ → Rig → Outcome Rig (Unit {0})
print_word first second =
    let wo = word_of first second in
    let kind = shift_right 30 (signed32 wo) in
    do
      printf "%5d %5d %d\n" (int first ∷ int second ∷ int (signed32 wo) ∷ [])
      if is_value 0 kind then printf "%5d %5d\n" (int first ∷ int second ∷ []) else pure tt
      if is_value 1 kind
          then printf "# t %d %d\n" (
              int (pos (bit_and (word32 (shift_right 27 (signed32 wo))) 0x7))
              ∷ int (pos (bit_and wo 0x7FFFFFF))
              ∷ [])
          else pure tt
      if is_value 2 kind
          then printf "# c %d\n" (int (pos (bit_and wo 0x3FFFFFFF)) ∷ [])
          else pure tt

unfoldable pub print_sample : ℕ → Rig → Outcome Rig (Unit {0})
print_sample i = do value ← values (4 * i); print_word value.0 value.1

-- `main`; `m` is what the RAM holds after the second wait.
unfoldable pub main : System → Memory → Rig → Outcome Rig ℤ
main s m =
    if s.opens
    then (do
      map_both s
      configure
      captured m
      for_loop print_sample (1024 * 1024) 0
      clear32 0 8
      unmap
      pure (pos 0))
    else (do printf "open" []; pure (pos 1))
