-- ===== src/Gpio/Sine.antt =====
-- `factorial`, `sine`, `driveBarGraph` and `do_sine_sample` (projects/gpio_led_test/gpio_led_test.c), over
-- the operations of `double`, which are a parameter.
pub mod Laws
use rfsoc.Common.{ℕ, zero, suc, ◌-◌, ◌≡◌, Bool, true, false, ltb, if◌then◌else◌}
use rfsoc.Common.Int.{ℤ, pos, negsuc, add_ℤ}
use rfsoc.Common.Program.{Outcome}
use rfsoc.Gpio.Panel.{Panel}
use rfsoc.Gpio.Bars.{cylon, do_bar_graph}

pub record Doubles : Type 1 where
  pub Double : Type 0
  pub of_int : ℤ → Double
  -- The `double`, and the `float`, nearest to `n / 10 ^ k`.
  pub literal : ℕ → ℕ → Double
  pub float_literal : ℕ → ℕ → Double
  pub add : Double → Double → Double
  pub sub : Double → Double → Double
  pub mul : Double → Double → Double
  pub div : Double → Double → Double
  -- `a > b`, and `(int)a`.
  pub above : Double → Double → Bool
  pub to_int : Double → ℤ

module _ (d : Doubles) where
  open d use {Double, of_int, literal, float_literal, add, sub, mul, div, above, to_int}

  abbrev pub number : ℕ → Double
  number n = of_int (pos n)

  -- `for (term=2; term<=final_term; term++) result *= term`, with so many rounds left.
  unfoldable pub factorial_loop : ℕ → ℕ → Double → Double
  factorial_loop zero term result = result
  factorial_loop (suc n) term result = factorial_loop n (suc term) (mul result (number term))

  unfoldable pub factorial : ℕ → Double
  factorial final_term = factorial_loop (final_term - 1) 2 (literal 1 0)

  abbrev pub pi : Double
  pi = literal 3141592653 9

  -- The quadrant, and the angle reflected into the first one.
  unfoldable pub reflect : Double → ℕ × Double
  reflect angle =
      if above angle (div (mul (number 3) pi) (number 2))
      then (4, sub (mul (number 2) pi) angle)
      else if above angle pi
      then (3, sub angle pi)
      else if above angle (div pi (number 2))
      then (2, sub pi angle)
      else (1, angle)

  -- The four terms.
  unfoldable pub taylor : Double → Double
  taylor x =
      let x2 = mul x x in
      let x3 = mul x2 x in
      let x5 = mul x3 x2 in
      let x7 = mul x5 x2 in
      sub (add (sub x (div x3 (factorial 3))) (div x5 (factorial 5))) (div x7 (factorial 7))

  unfoldable pub sine : Double → Double
  sine angle_in_radians =
      let (quadrant, angle) = reflect angle_in_radians in
      let result = taylor angle in if ltb 2 quadrant then mul result (of_int (negsuc 0)) else result

  -- `(int)((double)value / bin_range)`, with a range of 256 / 8.
  abbrev pub bars : ℤ → ℤ
  bars value = to_int (div (of_int value) (number 32))

  unfoldable pub drive_bar_graph : ℤ → Panel → Outcome Panel (Unit {0})
  drive_bar_graph value = do_bar_graph (bars value) cylon

  -- The sine of the location in the period, times 256 and halved, as an `int`.
  unfoldable pub scaled_sine : ℤ → ℤ
  scaled_sine location_in_period =
      let radian_equivalent =
        mul (mul (div (of_int location_in_period) (number 128)) (float_literal 31415927 7))
          (literal 20 1) in
      to_int (div (mul (number 256) (sine radian_equivalent)) (number 2))

  unfoldable pub do_sine_sample : ℤ → Panel → Outcome Panel (Unit {0})
  do_sine_sample location_in_period =
      drive_bar_graph (add_ℤ (scaled_sine location_in_period) (pos 128))
