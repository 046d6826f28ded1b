-- ===== src/Gpio/Exerciser.antt =====
-- `hardware_exerciser` and `main` (projects/gpio_led_test/gpio_led_test.c).
pub mod Laws
pub mod Main
use rfsoc.Common.{
  ℕ, ◌-◌, ◌≡◌, Bool, true, false, not, Option, some, List, [], ◌∷◌, bit_and, bit_xor, ◌==◌,
  if◌then◌else◌,
}
use rfsoc.Common.Int.{ℤ, pos, negsuc, add_ℤ, ltb_ℤ, rem_trunc}
use rfsoc.Common.Program.{Outcome, done, pure, ◌>>=◌, ◌>>◌}
use rfsoc.Gpio.Panel.{
  Panel, Os, Window, printf, linux_gpio_initialize, buttons_get_state, gpio_led_base_address,
  gpio_button_base_address, all_outputs, all_inputs, c_true, c_false,
}
use rfsoc.Gpio.Sine.{Doubles, do_sine_sample}

abbrev pub up : ℕ
up = 0

abbrev pub down : ℕ
down = 1

abbrev pub stop : ℕ
stop = 2

-- The local variables that a round of the loop passes on. The states of the buttons are 32-bit patterns.
pub record Counter : Type 0 where
  pub last_button_state : ℕ
  pub count_direction : ℕ
  pub sample : ℤ

abbrev pub start : Counter
start = record { last_button_state = 0; count_direction = up; sample = pos 0 }

-- `if (button_difference != 0)` and what is under it.
unfoldable pub handle_buttons : ℕ → Counter → Panel → Outcome Panel Counter
handle_buttons button_difference c =
    if button_difference == 0
    then pure c
    else if not (bit_and button_difference 0x04 == 0)
    then (do printf "Stop counting..." []; pure (record c { count_direction = stop }))
    else if not (bit_and button_difference 0x02 == 0)
    then (do printf "Counting down..." []; pure (record c { count_direction = down }))
    else if not (bit_and button_difference 0x01 == 0)
    then (do printf "Counting up..." []; pure (record c { count_direction = up }))
    else pure c

-- `if (count_direction = UP) ... else if (count_direction = DOWN) ...`: both conditions assign, and
-- their values are those of UP and DOWN.
unfoldable pub next_sample : Counter → Counter
next_sample c =
    let assigned_up = record c { count_direction = up } in
    let assigned_down = record c { count_direction = down } in
    let lower = add_ℤ c.sample (negsuc 0) in
    if not (up == 0)
    then record assigned_up { sample = rem_trunc (add_ℤ c.sample (pos 1)) 128 }
    else if not (down == 0)
    then record assigned_down { sample = if ltb_ℤ lower (negsuc 0) then pos (128 - 1) else lower }
    else assigned_down

module _ (d : Doubles) where
  -- One round, in which `buttons_get_state` gives `buttons`.
  unfoldable pub round : ℕ → Counter → Panel → Outcome Panel Counter
  round buttons c = do
    current_button_state ← buttons_get_state buttons
    c' ←
        handle_buttons
          (bit_and (bit_xor current_button_state c.last_button_state) current_button_state) c
    let next = next_sample (record c' { last_button_state = current_button_state }) in
        (do do_sine_sample d next.sample; pure next)

  -- The loop is endless; what it does in as many rounds as there are states of the buttons.
  unfoldable pub hardware_exerciser : List ℕ → Counter → Panel → Outcome Panel Counter
  hardware_exerciser [] c = pure c
  hardware_exerciser (b ∷ bs) c = do c' ← round b c; hardware_exerciser bs c'

  abbrev pub set_pointers : Window → Window → Panel → Outcome Panel (Unit {0})
  set_pointers led button p =
      done tt (record p { mapped_led_dev_base = some led; mapped_button_dev_base = some button })

  -- `main`, up to as many rounds of the exerciser.
  unfoldable pub main : Os → List ℕ → Panel → Outcome Panel Counter
  main os bs = do
    printf "---basic_design_zynq Exerciser---\n\r" []
    led ← linux_gpio_initialize os gpio_led_base_address all_outputs c_true
    button ← linux_gpio_initialize os gpio_button_base_address all_inputs c_false
    set_pointers led button
    printf "running the Linux app...\n\r" []
    hardware_exerciser bs start
