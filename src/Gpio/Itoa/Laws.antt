-- ===== src/Gpio/Itoa/Laws.antt =====
-- What `itoa` writes, read back.
use rfsoc.Common.{ℕ, ◌+◌, ◌-◌, ◌*◌, ◌≤◌, ◌<◌, [], ◌∷◌, ltb, ◌==◌, if◌then◌else◌, ◌⊎◌}
use rfsoc.Common.Int.{ℤ, pos, word32, sub_ℕ}
use rfsoc.Common.Text.{Text}

-- The number that a digit stands for, 0 to 9 and then from the letter a.
abbrev pub digit_value : ℕ → ℕ
digit_value c = if ltb c 58 then c - 48 else c - 87

-- The number that a text of digits stands for, after digits that gave `n`.
pub read_digits : ℕ → ℕ → Text → ℕ
read_digits radix n [] = n
read_digits radix n (c ∷ cs) = read_digits radix (n * radix + digit_value c) cs

-- The characters 0 to 9, and the letters from a on, below the radix.
abbrev pub IsDigit : ℕ → ℕ → Type 0
IsDigit radix c = ((48 ≤ c) × (c < 58) × (c - 48 < radix)) ⊎ ((97 ≤ c) × (c - 87 < radix))

abbrev pub IsDigits : ℕ → Text → Type 0
IsDigits radix [] = Unit {0}
IsDigits radix (c ∷ cs) = IsDigit radix c × IsDigits radix cs

-- The number that a text stands for: a sign, or none, and digits.
abbrev pub read_number : ℕ → Text → ℤ
read_number radix [] = pos 0
read_number radix (c ∷ cs) =
    if c == 45 then sub_ℕ 0 (read_digits radix 0 cs) else pos (read_digits radix 0 (c ∷ cs))

-- What is shown of a value: in radix 10 the value, in the others its 32-bit pattern.
abbrev pub shown_value : ℤ → ℕ → ℤ
shown_value value radix = if radix == 10 then value else pos (word32 value)
