-- ===== src/Lia/Main/Sampling.antt =====
-- The sampling loop: what one status word prints, and the words at which it stops.
use mathlib.Core.List.{foldl}
use rfsoc.Common.{
  ℕ, ◌+◌, ◌-◌, ◌*◌, ◌/◌, ◌%◌, ◌^◌, ◌<◌, ◌≡◌, ◌≢◌, refl, ap, ◌∙◌, true, List, [], ◌∷◌, ◌++◌, arith,
  bit_and,
}
use rfsoc.Common.Int.{ℤ, pos, negsuc, signed16, div_trunc}
use rfsoc.Common.Bits.{bit_and-ones}
use rfsoc.Common.Memory.{store32, load32-store32}
use rfsoc.Common.Program.{done, crashed, Line, int, scaled, modulus, degrees, ◌>>=◌, ◌>>◌}
use rfsoc.Lia.Board.{cfg, sts, Board, put, in_reach, dev_read}
use rfsoc.Lia.Board.Laws.{dev_read_lem}
use rfsoc.Lia.Main.{latch, in_phase, quadrature, print_sample, sample_loop}

-- The 16-bit pattern of an `int16_t`.
abbrev pub unsigned16 : ℤ → ℕ
unsigned16 (pos n) = n
unsigned16 (negsuc n) = 2 ^ 16 - 1 - n

low_half : (w : ℕ) → bit_and w 0xFFFF ≡ w % 65536
low_half w = bit_and-ones 16 w

unsigned16-signed16 : (x : ℕ) → x < 2 ^ 16 → unsigned16 (signed16 x) ≡ x
unsigned16-signed16 x h = ground arith

-- The in-phase and the quadrature sample of a 32-bit status word are its low and its high half, and
-- together give the word back.
pub sample_halves :
    (w : ℕ)
    → w < 2 ^ 32
    → (unsigned16 (in_phase w) ≡ w % 2 ^ 16)
      × (unsigned16 (in_phase w) + unsigned16 (quadrature w) * 2 ^ 16 ≡ w)
unfolding in_phase quadrature
sample_halves w h =
    rw (low_half w, low_half (w / 65536))
      (omega (
        arith,
        unsigned16-signed16 (w % 65536) (omega arith),
        unsigned16-signed16 (w / 65536 % 65536) (omega arith),
      ))

-- The line that a status word stands for.
abbrev pub sample_line : ℕ → Line
sample_line w =
    let i = in_phase w in
    let q = quadrature w in
    record {
      format = "%5d %5d %.9lf %.9lf %.9f %.9f\n";
      args =
          int i ∷ int q ∷ scaled i 13 ∷ scaled q 13 ∷ modulus i q 13 ∷ degrees (div_trunc q i) ∷ [];
    }

-- The words that can be printed: 32 bits, with a low half that is not 0.
abbrev pub Printable : List ℕ → Type 0
Printable [] = Unit {0}
Printable (w ∷ ws) = ((w < 2 ^ 32) × (w % 2 ^ 16 ≢ 0)) × Printable ws

abbrev latched : ℕ → Board → Board
latched w b = record b { mem = put sts (store32 (b.mem sts) 0 w) b.mem }

abbrev shown : ℕ → Board → Board
shown w b = record (latched w b) { console = sample_line w ∷ b.console }

nonzero_low : (w : ℕ) → w % 2 ^ 16 ≢ 0 → in_phase w ≢ pos 0
unfolding in_phase
nonzero_low w h e = ground (arith, low_half w)

zero_low : (w : ℕ) → w % 2 ^ 16 ≡ 0 → in_phase w ≡ pos 0
unfolding in_phase
zero_low w h = rw (low_half w, h)

print_sample_lem :
    (w : ℕ) (b : Board)
    → w % 2 ^ 16 ≢ 0
    → print_sample (in_phase w) (quadrature w) b
      ≡ done tt (record b { console = sample_line w ∷ b.console })
unfolding print_sample
print_sample_lem w b h = ground (arith, nonzero_low w h)

read_latched :
    (w : ℕ) (b : Board)
    → w < 2 ^ 32
    → in_reach (b.ptr sts) 0 ≡ true
    → dev_read sts 0 (latched w b) ≡ done w (latched w b)
read_latched w b lt r =
    dev_read_lem sts 0 (latched w b) r
    ∙ ap (λ x. done x (latched w b)) (load32-store32 (b.mem sts) 0 w lt)

sample_loop-cons :
    (w : ℕ) (ws : List ℕ) (b : Board)
    → w < 2 ^ 32
    → w % 2 ^ 16 ≢ 0
    → in_reach (b.ptr sts) 0 ≡ true
    → sample_loop (w ∷ ws) b ≡ sample_loop ws (shown w b)
unfolding sample_loop latch
sample_loop-cons w ws b lt ne r =
    rw (read_latched w b lt r, ◌>>=◌, ◌>>◌, print_sample_lem w (latched w b) ne)

abbrev after_samples : List ℕ → Board → Board
after_samples [] b = b
after_samples (w ∷ ws) b = after_samples ws (shown w b)

sample_loop_runs :
    (ws : List ℕ) (b : Board)
    → Printable ws
    → in_reach (b.ptr sts) 0 ≡ true
    → sample_loop ws b ≡ done tt (after_samples ws b)
sample_loop_runs [] b h r = unfold sample_loop in refl
sample_loop_runs (w ∷ ws) b ((lt, ne), h) r =
    sample_loop-cons w ws b lt ne r ∙ sample_loop_runs ws (shown w b) h r

after_samples_console :
    (ws : List ℕ) (b : Board)
    → (after_samples ws b).console ≡ foldl (λ lines w. sample_line w ∷ lines) b.console ws
after_samples_console [] b = refl
after_samples_console (w ∷ ws) b = after_samples_console ws (shown w b)

after_samples_cfg :
    (ws : List ℕ) (b : Board)
    → ((after_samples ws b).mem cfg ≡ b.mem cfg) × ((after_samples ws b).ptr ≡ b.ptr)
after_samples_cfg [] b = (refl, refl)
after_samples_cfg (w ∷ ws) b = after_samples_cfg ws (shown w b)

-- With the status register mapped, and words of which none has a low half of 0, the sampling loop
-- ends, has printed exactly one line for each word, in the words' order, and has changed no
-- configuration register and no mapping.
pub sample_loop_lem :
    (ws : List ℕ) (b : Board)
    → Printable ws
    → in_reach (b.ptr sts) 0 ≡ true
    → (b' : Board) × (sample_loop ws b ≡ done tt b')
      × (b'.console ≡ foldl (λ lines w. sample_line w ∷ lines) b.console ws)
      × (b'.mem cfg ≡ b.mem cfg)
      × (b'.ptr ≡ b.ptr)
sample_loop_lem ws b h r = (
  after_samples ws b,
  sample_loop_runs ws b h r,
  after_samples_console ws b,
  (after_samples_cfg ws b).0,
  (after_samples_cfg ws b).1,
)

-- A word whose in-phase half is 0 stops the program by a division by zero, whatever words follow
-- it and whatever printable words came before.
pub sample_loop-zero_divisor :
    (ws rest : List ℕ) (w : ℕ) (b : Board)
    → Printable ws
    → w < 2 ^ 32
    → w % 2 ^ 16 ≡ 0
    → in_reach (b.ptr sts) 0 ≡ true
    → sample_loop (ws ++ w ∷ rest) b ≡ crashed
unfolding sample_loop print_sample latch
sample_loop-zero_divisor [] rest w b h lt z r =
    rw (read_latched w b lt r, ◌>>=◌, ◌>>◌, zero_low w z)
sample_loop-zero_divisor (v ∷ ws) rest w b ((lt', ne), h) lt z r =
    sample_loop-cons v (ws ++ w ∷ rest) b lt' ne r
    ∙ sample_loop-zero_divisor ws rest w (shown v b) h lt z r
