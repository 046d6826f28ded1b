-- ===== src/Lia/Init/Laws.antt =====
-- What `init_system` leaves in the configuration registers.
use rfsoc.Common.{
  ℕ, ◌^◌, ◌≤◌, ◌<◌, ◌≡◌, ◌≢◌, max, refl, inl, inr, ◌⊎◌, Bool-cases, false, ◌∙◌, true, [], ◌∷◌,
  String, List, bit_and, bit_or, arith, le→leb,
}
use rfsoc.Common.Int.{pos, signed32, word32, word32-lt, is_int32, is_int32_lem, signed32-word32}
use rfsoc.Common.Bits.{bit, not32, bit_and-le, bit_or-lt, bit-clear_set}
use rfsoc.Common.Memory.{
  Memory, IsBytes, load32, store32, load32-store32, load32-lt, store32_outside,
}
use rfsoc.Common.Program.{done, Arg, ◌>>=◌, ◌>>◌, int, str, scaled}
use rfsoc.Lia.Board.{Device, intc, cfg, sts, xadc, Board, mapped, in_reach, written}
use rfsoc.Lia.Board.Laws.{dev_read_lem, dev_write_lem}
use rfsoc.Lia.Registers.{
  cfg_reset_gral_offset, cfg_kp_offset, cfg_ki_offset, cfg_x_value_offset, cfg_f_value_offset,
}
use rfsoc.Lia.Init.{
  Libc, times_pow, clear_reset, set_reset, set_frequency, set_kconstant, set_xvalue, init_system,
}

-- The board with one more line on its console.
abbrev pub say : String → List Arg → Board → Board
say format args b = record b { console = record { format = format; args = args } ∷ b.console }

pub times_pow-lt : (c : Libc) (f : c.Float) (k : ℕ) → times_pow c f k < 2 ^ 32
unfolding times_pow
times_pow-lt c f k = word32-lt _

-- What is written is the scaled value, or, when `int32_t` does not hold it, what the overflow gives.
pub times_pow_cases :
    (c : Libc) (f : c.Float) (k : ℕ)
    → ((is_int32 (c.scale f k) ≡ true) × (signed32 (times_pow c f k) ≡ c.scale f k))
      ⊎ ((is_int32 (c.scale f k) ≡ false) × (times_pow c f k ≡ word32 (c.overflow f k)))
unfolding times_pow
times_pow_cases c f k = elim (Bool-cases (is_int32 (c.scale f k))) [
  | inl h ↦ inl (h, rw h (signed32-word32 (c.scale f k) (is_int32_lem (c.scale f k) h)))
  | inr h ↦ inr (h, rw h refl)
]

pub clear_reset_lem :
    (mask : ℕ) (b : Board)
    → in_reach (b.ptr cfg) 0 ≡ true
    → clear_reset mask b ≡ done tt (written cfg 0 (bit_and (load32 (b.mem cfg) 0) (not32 mask)) b)
unfolding clear_reset
clear_reset_lem mask b h = rw (dev_read_lem cfg 0 b h, ◌>>=◌, dev_write_lem cfg 0 _ b h)

pub set_reset_lem :
    (mask : ℕ) (b : Board)
    → in_reach (b.ptr cfg) 0 ≡ true
    → set_reset mask b ≡ done tt (written cfg 0 (bit_or (load32 (b.mem cfg) 0) mask) b)
unfolding set_reset
set_reset_lem mask b h = rw (dev_read_lem cfg 0 b h, ◌>>=◌, dev_write_lem cfg 0 _ b h)

module _ (c : Libc) where
  pub set_frequency_lem :
      (offset : ℕ) (value : c.Float) (b : Board)
      → in_reach (b.ptr cfg) offset ≡ true
      → set_frequency c offset value b
        ≡ done tt (
            say "The output frequency is now: %.3f Hz\n"
              (str (c.show value) ∷ [])
              (written cfg offset (times_pow c value 8) b))
  unfolding set_frequency
  set_frequency_lem offset value b h = rw (dev_write_lem cfg offset _ b h, ◌>>=◌, ◌>>◌)

  set_kconstant_lem :
      (offset value : ℕ) (b : Board)
      → in_reach (b.ptr cfg) offset ≡ true
      → set_kconstant c offset value b
        ≡ done tt (
            say "The value of k constant is: %d \n"
              (int (signed32 value) ∷ [])
              (written cfg offset value b))
  unfolding set_kconstant
  set_kconstant_lem offset value b h = rw (dev_write_lem cfg offset _ b h, ◌>>=◌, ◌>>◌)

  set_xvalue_lem :
      (offset : ℕ) (value : c.Float) (b : Board)
      → in_reach (b.ptr cfg) offset ≡ true
      → in_reach (b.ptr cfg) 0xC ≡ true
      → let b' = written cfg offset (times_pow c value 31) b in
        set_xvalue c offset value b
        ≡ done tt (
            say "The value of X is now: %.9f \n"
              (scaled (pos (load32 (b'.mem cfg) 0xC)) 31 ∷ [])
              b')
  unfolding set_xvalue
  set_xvalue_lem offset value b h k = ground (
    arith,
    dev_write_lem cfg offset (times_pow c value 31) b,
    dev_read_lem cfg 0xC (written cfg offset (times_pow c value 31) b),
  )

-- The configuration registers after `init_system`.
module _ (c : Libc) (m : Memory) where
  abbrev frequency : ℕ
  frequency = times_pow c (c.literal 10000 0) 8

  abbrev x_value : ℕ
  x_value = times_pow c (c.literal 999998994 9) 31

  abbrev cleared : Memory
  cleared = store32 m 0 (bit_and (load32 m 0) (not32 1))

  abbrev loaded : Memory
  loaded =
      store32 (store32 (store32 (store32 cleared 0x10 frequency) 0x4 2097152) 0x8 32) 0xC x_value

  abbrev initialised : Memory
  initialised = store32 loaded 0 (bit_or (load32 loaded 0) 1)

module _ (c : Libc) (m : Memory) where
  initialised_kp : load32 (initialised c m) 0x4 ≡ 2 ^ 21
  unfolding load32 store32
  initialised_kp = refl

  initialised_ki : load32 (initialised c m) 0x8 ≡ 32
  unfolding load32 store32
  initialised_ki = refl

  initialised_x : x_value c m < 2 ^ 32 → load32 (initialised c m) 0xC ≡ x_value c m
  unfolding load32 store32
  initialised_x h = omega arith

  initialised_f : frequency c m < 2 ^ 32 → load32 (initialised c m) 0x10 ≡ frequency c m
  unfolding load32 store32
  initialised_f h = omega arith

  load32-loaded : load32 (loaded c m) 0 ≡ load32 (cleared c m) 0
  unfolding load32 store32
  load32-loaded = refl

  initialised_reset :
      IsBytes m
      → (k : ℕ) → k < 32
      → bit k (load32 (initialised c m) 0) ≡ max (bit k (load32 m 0)) (bit k 1)
  initialised_reset bytes k h =
      let small : bit_and (load32 m 0) (not32 1) < 2 ^ 32 =
        omega (arith, bit_and-le (load32 m 0) (not32 1), load32-lt m 0 bytes) in
      let low : load32 (loaded c m) 0 ≡ bit_and (load32 m 0) (not32 1) =
        load32-loaded ∙ load32-store32 m 0 _ small in
      rw
        (
          load32-store32 (loaded c m) 0 _
              (bit_or-lt 32 (load32 (loaded c m) 0) 1 (rw low small) (omega arith)),
          low,
        )
        (bit-clear_set k (load32 m 0) 1 (omega arith) h)

  initialised_outside : (i : ℕ) → 20 ≤ i → initialised c m i ≡ m i
  initialised_outside i h =
      store32_outside _ 0 _ i (inr (omega arith))
      ∙ store32_outside _ 0xC _ i (inr (omega arith))
      ∙ store32_outside _ 0x8 _ i (inr (omega arith))
      ∙ store32_outside _ 0x4 _ i (inr (omega arith))
      ∙ store32_outside _ 0x10 _ i (inr (omega arith))
      ∙ store32_outside _ 0 _ i (inr (omega arith))

module _ (c : Libc) (b : Board) where
  abbrev b1 : Board
  b1 = written cfg 0 (bit_and (load32 (b.mem cfg) 0) (not32 1)) b

  abbrev b2 : Board
  b2 =
      say "The output frequency is now: %.3f Hz\n" (str (c.show (c.literal 10000 0)) ∷ [])
        (written cfg 0x10 (frequency c (b.mem cfg)) b1)

  abbrev b3 : Board
  b3 =
      say "The value of k constant is: %d \n" (int (signed32 2097152) ∷ [])
        (written cfg 0x4 2097152 b2)

  abbrev b4 : Board
  b4 = say "The value of k constant is: %d \n" (int (signed32 32) ∷ []) (written cfg 0x8 32 b3)

  abbrev b5 : Board
  b5 =
      let b' = written cfg 0xC (x_value c (b.mem cfg)) b4 in
      say "The value of X is now: %.9f \n" (scaled (pos (load32 (b'.mem cfg) 0xC)) 31 ∷ []) b'

  abbrev pub after_init : Board
  after_init = written cfg 0 (bit_or (load32 (b5.mem cfg) 0) 1) b5

pub init_system_runs :
    (c : Libc) (b : Board) (size : ℕ)
    → b.ptr cfg ≡ mapped size
    → 20 ≤ size
    → init_system c b ≡ done (pos 0) (after_init c b)
unfolding init_system
init_system_runs c b size p h =
    let r : (k : ℕ) → k ≤ 16 → in_reach (b.ptr cfg) k ≡ true =
      λ k q. rw p (le→leb _ _ (omega arith)) in
    ground (
      arith,
      clear_reset_lem 1 b (r 0 (omega arith)),
      set_frequency_lem c 0x10 (c.literal 10000 0) (b1 c b) (r 0x10 (omega arith)),
      set_kconstant_lem c 0x4 2097152 (b2 c b) (r 0x4 (omega arith)),
      set_kconstant_lem c 0x8 32 (b3 c b) (r 0x8 (omega arith)),
      set_xvalue_lem c 0xC (c.literal 999998994 9) (b4 c b) (r 0xC (omega arith))
          (r 0xC (omega arith)),
      set_reset_lem 1 (b5 c b) (r 0 (omega arith)),
    )

-- `init_system`, with the configuration registers mapped over 20 bytes or more, returns 0. It leaves
-- 2^21 in K_p, 32 in K_i and the scaled 10 kHz and 0.999998994 in the other two registers. Of the
-- reset register, bit 0 is set and the other 31 bits are as before. No byte after the registers and
-- no other device changes.
pub init_system_lem :
    (c : Libc) (b : Board) (size : ℕ)
    → b.ptr cfg ≡ mapped size
    → 20 ≤ size
    → IsBytes (b.mem cfg)
    → (b' : Board) × (init_system c b ≡ done (pos 0) b')
      × (load32 (b'.mem cfg) cfg_kp_offset ≡ 2 ^ 21)
      × (load32 (b'.mem cfg) cfg_ki_offset ≡ 32)
      × (load32 (b'.mem cfg) cfg_x_value_offset ≡ times_pow c (c.literal 999998994 9) 31)
      × (load32 (b'.mem cfg) cfg_f_value_offset ≡ times_pow c (c.literal 10000 0) 8)
      × ((k : ℕ)
          → k < 32
          → bit k (load32 (b'.mem cfg) cfg_reset_gral_offset)
            ≡ max (bit k (load32 (b.mem cfg) cfg_reset_gral_offset)) (bit k 1))
      × ((i : ℕ) → 20 ≤ i → b'.mem cfg i ≡ b.mem cfg i)
      × ((d : Device) → d ≢ cfg → b'.mem d ≡ b.mem d)
init_system_lem c b size p h bytes = (
  after_init c b,
  init_system_runs c b size p h,
  initialised_kp c (b.mem cfg),
  initialised_ki c (b.mem cfg),
  initialised_x c (b.mem cfg) (times_pow-lt c _ _),
  initialised_f c (b.mem cfg) (times_pow-lt c _ _),
  initialised_reset c (b.mem cfg) bytes,
  initialised_outside c (b.mem cfg),
  other,
)
  where
    other : (d : Device) → d ≢ cfg → (after_init c b).mem d ≡ b.mem d
    other intc ne = refl
    other cfg ne = absurd (ne refl)
    other sts ne = refl
    other xadc ne = refl
