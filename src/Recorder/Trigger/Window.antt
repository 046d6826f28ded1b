-- ===== src/Recorder/Trigger/Window.antt =====
-- Where the window of samples starts and what it holds.
use rfsoc.Common.{ℕ, ◌+◌, ◌-◌, ◌*◌, ◌/◌, ◌%◌, ◌^◌, ◌≤◌, ◌<◌, ◌≡◌, bit_and, min, arith}
use rfsoc.Common.Bits.{bit_and_step, bit_and-ones}
use rfsoc.Recorder.Trigger.{start_of, offset_of}

bit_and-mask_64 : (x : ℕ) → bit_and x 0x007FFFC0 ≡ x / 64 % 2 ^ 17 * 64
bit_and-mask_64 x =
    let s0 : bit_and x 8388544 ≡ bit_and (x / 2) 4194272 * 2 + min (x % 2) 0 =
      bit_and_step x 8388544 in
    let s1 : bit_and (x / 2) 4194272 ≡ bit_and (x / 2 / 2) 2097136 * 2 + min (x / 2 % 2) 0 =
      bit_and_step (x / 2) 4194272 in
    let s2 : bit_and (x / 2 / 2) 2097136
        ≡ bit_and (x / 2 / 2 / 2) 1048568 * 2 + min (x / 2 / 2 % 2) 0 =
      bit_and_step (x / 2 / 2) 2097136 in
    let s3 : bit_and (x / 2 / 2 / 2) 1048568
        ≡ bit_and (x / 2 / 2 / 2 / 2) 524284 * 2 + min (x / 2 / 2 / 2 % 2) 0 =
      bit_and_step (x / 2 / 2 / 2) 1048568 in
    let s4 : bit_and (x / 2 / 2 / 2 / 2) 524284
        ≡ bit_and (x / 2 / 2 / 2 / 2 / 2) 262142 * 2 + min (x / 2 / 2 / 2 / 2 % 2) 0 =
      bit_and_step (x / 2 / 2 / 2 / 2) 524284 in
    let s5 : bit_and (x / 2 / 2 / 2 / 2 / 2) 262142
        ≡ bit_and (x / 2 / 2 / 2 / 2 / 2 / 2) 131071 * 2 + min (x / 2 / 2 / 2 / 2 / 2 % 2) 0 =
      bit_and_step (x / 2 / 2 / 2 / 2 / 2) 262142 in
    let ones : bit_and (x / 2 / 2 / 2 / 2 / 2 / 2) 131071 ≡ (x / 2 / 2 / 2 / 2 / 2 / 2) % 2 ^ 17 =
      bit_and-ones 17 (x / 2 / 2 / 2 / 2 / 2 / 2) in
    omega (arith, s0, s1, s2, s3, s4, s5, ones)

-- The offsets of the samples walk round a ring of 2^23 pairs.
pub offset_of_lem : (start i : ℕ) → offset_of start i ≡ (start + i) % 2 ^ 23 * 4
unfolding offset_of
offset_of_lem start i =
    let w : ℕ = (start + i) % 2 ^ 32 in
    let ones : bit_and w 0x007FFFFF ≡ w % 2 ^ 23 = bit_and-ones 23 w in omega (arith, ones)

pub start_of_lem :
    (word : ℕ) → start_of word ≡ (word / 2 + (2 ^ 32 - 1024)) % 2 ^ 32 / 64 % 2 ^ 17 * 64
unfolding start_of
start_of_lem word = bit_and-mask_64 ((word / 2 + (2 ^ 32 - 1024)) % 2 ^ 32)

-- For every status word and every sample of the window, the four bytes of the pair lie in the 8192
-- pages of 4096 bytes that are mapped.
pub offset_of-lt : (word i : ℕ) → offset_of (start_of word) i + 4 ≤ 8192 * 4096
offset_of-lt word i = omega (arith, offset_of_lem (start_of word) i)

-- The pair at the position p that the status word gives, p below 2^23, is printed as line
-- 1024 + p % 64 of the window: the window starts at least 1024 and less than 1088 pairs before it, also
-- where the ring wraps round.
pub window_has_position :
    (word : ℕ) → word / 2 < 2 ^ 23 → offset_of (start_of word) (1024 + word / 2 % 64) ≡ word / 2 * 4
window_has_position word h =
    omega (arith, offset_of_lem (start_of word) (1024 + word / 2 % 64), start_of_lem word)
