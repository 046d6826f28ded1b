-- ===== src/Stream/Child.antt =====
-- The child process (projects/adc_test/server/adc-test-server.c; projects/dac_player/adc-recorder.c has the
-- same loop).
pub mod Laws
pub mod Kept
pub mod Halves
use rfsoc.Common.{
  ℕ, suc, ◌+◌, ◌*◌, ◌≡◌, Bool, true, false, ◌&&◌, ◌||◌, ltb, leb, ◌==◌, if◌then◌else◌,
}
use rfsoc.Common.Int.{ℤ, pos, ltb_ℤ, signed32}
use rfsoc.Common.Memory.{Memory}

-- `512*1024` and `4096*1024`.
abbrev pub half_positions : ℕ
half_positions = 512 * 1024

abbrev pub half_bytes : ℕ
half_bytes = 4096 * 1024

-- What the two processes share, and the child's own `limit`. `messages`: the integers in the pipe that
-- have not been read.
pub record Shared : Type 0 where
  pub limit : ℕ
  pub ram : Memory
  pub buf : Memory
  pub messages : ℕ

-- `memcpy(buf + offset, ram + offset, size)`.
abbrev pub copy_bytes : ℕ → ℕ → Memory → Memory → Memory
copy_bytes offset size ram buf i = if leb offset i && ltb i (offset + size) then ram i else buf i

-- `(limit > 0 && position > limit) || (limit == 0 && position < 512*1024)`, of `int`s.
unfoldable pub is_ready : ℕ → ℤ → Bool
is_ready limit position =
    (ltb 0 limit && ltb_ℤ (pos limit) position)
    || (limit == 0 && ltb_ℤ position (pos half_positions))

-- `limit > 0 ? 0 : 4096*1024` and `limit > 0 ? 0 : 512*1024`.
abbrev pub offset_for : ℕ → ℕ
offset_for limit = if ltb 0 limit then 0 else half_bytes

abbrev pub next_limit : ℕ → ℕ
next_limit limit = if ltb 0 limit then 0 else half_positions

-- One round of `while(1)`, in which the status register gives `word`.
unfoldable pub child_round : ℕ → Shared → Shared
child_round word s =
    let offset = offset_for s.limit in
    if is_ready s.limit (signed32 word)
    then record s {
      limit = next_limit s.limit;
      buf = copy_bytes offset half_bytes s.ram s.buf;
      messages = suc s.messages;
    }
    else s
