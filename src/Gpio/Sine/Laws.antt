-- ===== src/Gpio/Sine/Laws.antt =====
-- The factorial, and which LED a sample lights.
use rfsoc.Common.{
  ℕ, zero, suc, ◌+◌, ◌-◌, ◌*◌, ◌/◌, ◌%◌, ◌^◌, ◌<◌, ◌≤◌, ◌≡◌, refl, ap, ◌∙◌, some, arith,
}
use native.Mathlib.Nat.{mul-le-mul_left, pow-le-pow_right}
use rfsoc.Common.Int.{ℤ, pos, add_ℤ, sub_ℕ}
use rfsoc.Common.Memory.{store32}
use rfsoc.Common.Program.{done}
use rfsoc.Gpio.Panel.{Panel, Window, leds_driver, write_register}
use rfsoc.Gpio.Bars.{cylon}
use rfsoc.Gpio.Bars.Laws.{expected_cylon, do_bar_graph_lem}
use rfsoc.Gpio.Sine.{
  Doubles, factorial_loop, factorial, drive_bar_graph, scaled_sine, do_sine_sample,
}

-- 1 * 2 * ... * n.
abbrev pub product : ℕ → ℕ
product zero = 1
product (suc n) = product n * suc n

product-step : (n : ℕ) → product n ≤ product (suc n)
product-step n = let h : 1 ≤ suc n = omega arith in omega (arith, mul-le-mul_left (product n) h)

product-add : (m n : ℕ) → product m ≤ product (m + n)
product-add m zero = let e : m + 0 ≡ m = omega arith in rw e (omega arith)
product-add m (suc n) =
    let e : m + suc n ≡ suc (m + n) = omega arith in
    rw e (omega (arith, product-add m n, product-step (m + n)))

-- What the program relies on of a `double`: 1.0 is the integer 1; the product of two integers is exact if
-- it is below 2^53; and an integer below 2^53 over 32 is exact, so its `int` is the quotient.
pub record IsExact (d : Doubles) : Type 0 where
  pub one : d.literal 1 0 ≡ d.of_int (pos 1)
  pub mul_exact :
      (a b : ℕ)
      → a * b < 2 ^ 53
      → d.mul (d.of_int (pos a)) (d.of_int (pos b)) ≡ d.of_int (pos (a * b))
  pub bin_exact :
      (a : ℕ) → a < 2 ^ 53 → d.to_int (d.div (d.of_int (pos a)) (d.of_int (pos 32))) ≡ pos (a / 32)

module _ (d : Doubles) (exact : IsExact d) where
  factorial_loop_lem :
      (n m : ℕ)
      → product (m + n) < 2 ^ 53
      → factorial_loop d n (suc m) (d.of_int (pos (product m))) ≡ d.of_int (pos (product (m + n)))
  unfolding factorial_loop
  factorial_loop_lem zero m h =
      let e : m ≡ m + 0 = omega arith in ap (λ k. d.of_int (pos (product k))) e
  factorial_loop_lem (suc n) m h =
      let e : suc m + n ≡ m + suc n = omega arith in
      let small : product (suc m + n) < 2 ^ 53 = rw e h in
      let fits : product m * suc m < 2 ^ 53 = omega (arith, product-add (suc m) n) in
      rw (exact.mul_exact (product m) (suc m) fits)
        (factorial_loop_lem n (suc m) small ∙ ap (λ k. d.of_int (pos (product k))) e)

  -- `factorial(n)` is n!, as a `double`, for every n with n! below 2^53: 3, 5 and 7 are.
  pub factorial_lem : (n : ℕ) → product n < 2 ^ 53 → factorial d n ≡ d.of_int (pos (product n))
  unfolding factorial
  factorial_lem zero h = unfold factorial_loop in exact.one
  factorial_lem (suc n) h =
      let e : suc n - 1 ≡ n = omega arith in
      let s : 1 + n ≡ suc n = omega arith in
      let small : product (1 + n) < 2 ^ 53 = rw s h in
      rw (e, exact.one) (factorial_loop_lem n 1 small ∙ ap (λ k. d.of_int (pos (product k))) s)

  -- If the scaled sine of a location is v - 128 with v below 256, then `do_sine_sample` lights exactly the
  -- LED number v / 32, by one write to the LEDs' data register.
  pub do_sine_sample_lem :
      (location : ℤ) (v : ℕ) (w : Window) (p : Panel)
      → scaled_sine d location ≡ sub_ℕ v 128
      → v < 256
      → p.mapped_led_dev_base ≡ some w
      → do_sine_sample d location p
        ≡ done tt (record p { memory = store32 p.memory (w.physical + 0) (2 ^ (v / 32)) })
  unfolding do_sine_sample drive_bar_graph leds_driver write_register
  do_sine_sample_lem location v w p e h led =
      let back : add_ℤ (sub_ℕ v 128) (pos 128) ≡ pos v = ground arith in
      let image : expected_cylon (pos (v / 32)) ≡ 2 ^ (v / 32) = ground arith in
      let below : v / 32 ≤ 7 = omega arith in
      let power : 2 ^ (v / 32) ≤ 2 ^ 7 = pow-le-pow_right (omega arith) below in
      let small : 2 ^ (v / 32) % 2 ^ 32 ≡ 2 ^ (v / 32) = omega arith in
      rw
        (
          e,
          back,
          exact.bin_exact v (omega arith),
          (do_bar_graph_lem (pos (v / 32)) cylon p).0,
          image,
          led,
          small,
        )
        refl
