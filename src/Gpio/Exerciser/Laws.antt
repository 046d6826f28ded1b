-- ===== src/Gpio/Exerciser/Laws.antt =====
-- Which way the exerciser counts, and what `main` has set up.
use rfsoc.Common.{
  ℕ, suc, ◌+◌, ◌*◌, ◌%◌, ◌<◌, ◌≤◌, ◌≡◌, refl, ap, ◌∙◌, ◌⊎◌, inl, inr, some, List, [], ◌∷◌,
  Bool-cases, ◌==◌, arith, String, length, bit_and, bit_xor,
}
use rfsoc.Common.Int.{ℤ, pos, add_ℤ, sub_ℕ, word32}
use rfsoc.Common.Memory.{store32, store32_outside}
use rfsoc.Common.Program.{Line, done, >>=-done, ◌>>=◌, ◌>>◌}
use rfsoc.Gpio.Panel.{Panel, Window, buttons_get_state, leds_driver, write_register}
use rfsoc.Gpio.Bars.{cylon_image, do_bar_graph}
use rfsoc.Gpio.Sine.{Doubles, bars, scaled_sine, do_sine_sample, drive_bar_graph}
use rfsoc.Gpio.Exerciser.{
  up, down, stop, Counter, handle_buttons, next_sample, round, hardware_exerciser,
}

-- The sample after `n` rounds, plus one.
abbrev pub countdown : ℕ → ℕ
countdown n = (1 + 128 * n) % 129

-- A counter that shows the sample of round `n`.
abbrev At : ℕ → Counter → Type 0
At n c = c.sample ≡ sub_ℕ (countdown n) 1

next_sample_lem : (n : ℕ) (c : Counter) → At n c → At (suc n) (next_sample c)
unfolding next_sample
next_sample_lem n c h = ground (arith, h)

-- What the exerciser leaves of the panel: the pointers, how often /dev/mem was opened, and all memory but
-- the data register of the LEDs, which are at `w`.
pub record Keeps (w : Window) (p p' : Panel) : Type 0 where
  pub led : p'.mapped_led_dev_base ≡ p.mapped_led_dev_base
  pub button : p'.mapped_button_dev_base ≡ p.mapped_button_dev_base
  pub opened : p'.opened ≡ p.opened
  pub outside : (i : ℕ) → (i < w.physical) ⊎ (w.physical + 4 ≤ i) → p'.memory i ≡ p.memory i

-- Printing keeps everything.
Keeps-printed : (w : Window) (p : Panel) (ls : List Line) → Keeps w p (record p { console = ls })
Keeps-printed w p ls = record { led = refl; button = refl; opened = refl; outside = λ i h. refl }

Keeps-trans : {w : Window} {p q r : Panel} → Keeps w p q → Keeps w q r → Keeps w p r
Keeps-trans h k = record {
  led = k.led ∙ h.led;
  button = k.button ∙ h.button;
  opened = k.opened ∙ h.opened;
  outside = λ i o. k.outside i o ∙ h.outside i o;
}

abbrev says : String → Panel → Panel
says message p = record p { console = record { format = message; args = [] } ∷ p.console }

handle_buttons_lem :
    (b : ℕ) (c : Counter) (w : Window) (p : Panel)
    → (c' : Counter) × (p' : Panel) × (handle_buttons b c p ≡ done c' p')
      × (c'.sample ≡ c.sample)
      × Keeps w p p'
unfolding handle_buttons
handle_buttons_lem b c w p = elim (Bool-cases (b == 0)) [
  | inl y ↦ (c, p, rw y refl, refl, Keeps-printed w p p.console)
  | inr z ↦ elim (Bool-cases (bit_and b 0x04 == 0)) [
    | inr y ↦ (
      record c { count_direction = stop },
      says "Stop counting..." p,
      rw (z, y) refl,
      refl,
      Keeps-printed w p _,
    )
    | inl f ↦ elim (Bool-cases (bit_and b 0x02 == 0)) [
      | inr y ↦ (
        record c { count_direction = down },
        says "Counting down..." p,
        rw (z, f, y) refl,
        refl,
        Keeps-printed w p _,
      )
      | inl g ↦ elim (Bool-cases (bit_and b 0x01 == 0)) [
        | inr y ↦ (
          record c { count_direction = up },
          says "Counting up..." p,
          rw (z, f, g, y) refl,
          refl,
          Keeps-printed w p _,
        )
        | inl y ↦ (c, p, rw (z, f, g, y) refl, refl, Keeps-printed w p p.console)
      ]
    ]
  ]
]

module _ (d : Doubles) (w : Window) where
  do_sine_sample-Keeps :
      (location : ℤ) (p : Panel)
      → p.mapped_led_dev_base ≡ some w
      → (p' : Panel) × (do_sine_sample d location p ≡ done tt p') × Keeps w p p'
  unfolding do_sine_sample drive_bar_graph do_bar_graph leds_driver write_register
  do_sine_sample-Keeps location p h =
      let image : ℕ =
        word32 (pos (cylon_image (bars d (add_ℤ (scaled_sine d location) (pos 128))))) in
      (
        record p { memory = store32 p.memory (w.physical + 0) image },
        rw h refl,
        record {
          led = refl;
          button = refl;
          opened = refl;
          outside = λ i o. store32_outside p.memory (w.physical + 0) image i (ground arith);
        },
      )

  buttons_get_state_lem :
      (b : ℕ) (at : Window) (p : Panel)
      → p.mapped_button_dev_base ≡ some at
      → buttons_get_state b p ≡ done b p
  unfolding buttons_get_state
  buttons_get_state_lem b at p h = ground arith

  round_lem :
      (n b : ℕ) (c : Counter) (at : Window) (p : Panel)
      → At n c
      → p.mapped_led_dev_base ≡ some w
      → p.mapped_button_dev_base ≡ some at
      → (c' : Counter) × (p' : Panel) × (round d b c p ≡ done c' p') × At (suc n) c' × Keeps w p p'
  unfolding round
  round_lem n b c at p h led button =
      let difference : ℕ = bit_and (bit_xor b c.last_button_state) b in
      let (c1, p1, q1, s1, k1) = handle_buttons_lem difference c w p in
      let c2 = next_sample (record c1 { last_button_state = b }) in
      let (p2, q2, k2) = do_sine_sample-Keeps c2.sample p1 (k1.led ∙ led) in
      (
        c2,
        p2,
        rw (◌>>=◌, ◌>>◌, buttons_get_state_lem b at p button, q1, q2) refl,
        next_sample_lem n (record c1 { last_button_state = b }) (s1 ∙ h),
        Keeps-trans k1 k2,
      )

  -- The buttons do not matter: whatever they give, the sample after `n` rounds from the start is one less
  -- than (1 + 128 * n) % 129, so it counts down from 127 to -1 and round again. The rounds keep the
  -- pointers, the number of times /dev/mem was opened, and all memory but the LEDs' data register.
  pub hardware_exerciser_lem :
      (bs : List ℕ) (n : ℕ) (c : Counter) (at : Window) (p : Panel)
      → c.sample ≡ sub_ℕ (countdown n) 1
      → p.mapped_led_dev_base ≡ some w
      → p.mapped_button_dev_base ≡ some at
      → (c' : Counter) × (p' : Panel) × (hardware_exerciser d bs c p ≡ done c' p')
        × (c'.sample ≡ sub_ℕ (countdown (n + length bs)) 1)
        × Keeps w p p'
  unfolding hardware_exerciser
  hardware_exerciser_lem [] n c at p h led button =
      let e : n ≡ n + 0 = omega arith in
      (c, p, refl, h ∙ ap (λ k. sub_ℕ (countdown k) 1) e, Keeps-printed w p p.console)
  hardware_exerciser_lem (b ∷ bs) n c at p h led button =
      let (c1, p1, q1, a1, k1) = round_lem n b c at p h led button in
      let (c2, p2, q2, a2, k2) =
        hardware_exerciser_lem bs (suc n) c1 at p1 a1 (k1.led ∙ led) (k1.button ∙ button) in
      let e : suc n + length bs ≡ n + suc (length bs) = omega arith in
      (
        c2,
        p2,
        >>=-done (round d b c) (hardware_exerciser d bs) q1 ∙ q2,
        a2 ∙ ap (λ k. sub_ℕ (countdown k) 1) e,
        Keeps-trans k1 k2,
      )
