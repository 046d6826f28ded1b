-- ===== src/Recorder/Lago/Laws.antt =====
-- Which lines a word gives.
use rfsoc.Common.{ℕ, ◌/◌, ◌^◌, ◌<◌, ◌≡◌, false, [], ◌∷◌, ◌++◌, bit_and, arith, ◌==◌, if◌then◌else◌}
use rfsoc.Common.Int.{ℤ, pos, signed32, word32}
use rfsoc.Common.Program.{done, int, Line}
use rfsoc.Recorder.Rig.{Rig}
use rfsoc.Recorder.Lago.{word_of, shift_right, is_value, print_word}

-- The two top bits of a word, as `wo>>30` gives them.
top_bits :
    (w : ℕ)
    → w < 2 ^ 32
    → let kind = shift_right 30 (signed32 w) in
      (is_value 0 kind ≡ (w / 2 ^ 30 == 0))
      × (is_value 1 kind ≡ (w / 2 ^ 30 == 1))
      × (is_value 2 kind ≡ false)
top_bits w h = (ground arith, ground arith, ground arith)

-- The first line of every sample.
abbrev pub triple : ℤ → ℤ → Line
triple first second = record {
  format = "%5d %5d %d\n";
  args = int first ∷ int second ∷ int (signed32 (word_of first second)) ∷ [];
}

-- The line of a word whose two top bits are 01.
abbrev pub time_line : ℕ → Line
time_line wo = record {
  format = "# t %d %d\n";
  args =
      int (pos (bit_and (word32 (shift_right 27 (signed32 wo))) 0x7))
      ∷ int (pos (bit_and wo 0x7FFFFFF))
      ∷ [];
}

-- What is printed for a pair of samples goes by the two top bits of the word that they make: for 00 the
-- pair again, for 01 the line "# t", and nothing more for 10 and 11. No word gives the line "# c", which
-- the program has for 10.
pub print_word_lem :
    (first second : ℤ) (r : Rig)
    → let wo = word_of first second in
      print_word first second r
      ≡ done tt (record r {
        console =
            (if wo / 2 ^ 30 == 0
              then record { format = "%5d %5d\n"; args = int first ∷ int second ∷ [] } ∷ []
              else if wo / 2 ^ 30 == 1
              then time_line wo ∷ []
              else [])
            ++ triple first second ∷ r.console;
      })
unfolding print_word
print_word_lem first second r =
    let wo = word_of first second in
    let (zero, one, two) = top_bits wo (omega arith) in ground (arith, zero, one, two)
