-- ===== src/Gpio/Itoa.antt =====
-- `itoa` (projects/gpio_led_test/gpio_led_test.c).
pub mod Laws
use rfsoc.Common.{
  ℕ, zero, suc, ◌+◌, ◌-◌, ◌*◌, ◌/◌, ◌%◌, ◌^◌, ◌≡◌, Bool, true, false, ◌&&◌, ◌||◌, Option, none,
  some, List, [], ◌∷◌, ltb, leb, ◌==◌, if◌then◌else◌,
}
use rfsoc.Common.Int.{ℤ, pos, negsuc, word32, ltb_ℤ, neg_part}
use rfsoc.Common.Text.{Text}

-- `i+'0'` and `i + 'a' - 10`.
abbrev pub digit : ℕ → ℕ
digit i = if ltb i 10 then i + 48 else i + 97 - 10

abbrev pub not_empty : Text → Bool
not_empty [] = false
not_empty (c ∷ cs) = true

-- `while (v || tp == tmp)`: `tmp` holds what the loop has written, newest first, which is the order
-- in which the last loop copies it out. `none` means that the fuel ran out.
unfoldable pub digit_loop : ℕ → ℕ → ℕ → Text → Option Text
digit_loop zero radix v tmp = none
digit_loop (suc fuel) radix v tmp =
    let next = digit_loop fuel radix (v / radix) (digit (v % radix) ∷ tmp) in
    if v == 0 && not_empty tmp then some tmp else next

-- `sign = (radix == 10 && value < 0)`.
abbrev pub is_signed : ℤ → ℕ → Bool
is_signed value radix = radix == 10 && ltb_ℤ value (pos 0)

-- `v`: the absolute value under a sign, the bit pattern otherwise.
unfoldable pub magnitude : ℤ → ℕ → ℕ
magnitude value radix = if is_signed value radix then neg_part value else word32 value

-- What `string` holds afterwards: `none` for the null pointer of a radix out of range. `tmp` has room for
-- 33 characters, and 33 rounds see every `unsigned` to its end.
unfoldable pub itoa : ℤ → ℕ → Option Text
itoa value radix =
    let digits = digit_loop 33 radix (magnitude value radix) [] in
    if ltb 36 radix || leb radix 1
    then none
    else if is_signed value radix
    then (elim digits [ some s ↦ some (45 ∷ s) | none ↦ none ])
    else digits
