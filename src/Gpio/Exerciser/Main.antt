-- ===== src/Gpio/Exerciser/Main.antt =====
-- What `main` has set up before the exerciser counts, and how it ends when it cannot.
use rfsoc.Common.{
  ℕ, suc, ◌+◌, ◌-◌, ◌^◌, ◌≡◌, refl, ap, ◌∙◌, inl, inr, true, some, List, [], ◌∷◌, arith, length,
  String,
}
use rfsoc.Common.Int.{pos, negsuc, sub_ℕ}
use rfsoc.Common.Memory.{load32, store32, load32_same, load32-store32, load32-store32_apart}
use rfsoc.Common.Program.{done, int, ◌>>=◌, ◌>>◌}
use rfsoc.Gpio.Panel.{Panel, Os, Window, open_memory, linux_gpio_initialize, write_register}
use rfsoc.Gpio.Sine.{Doubles}
use rfsoc.Gpio.Exerciser.{Counter, start, main}
use rfsoc.Gpio.Exerciser.Laws.{countdown, hardware_exerciser_lem}

-- The panel after a call of `Linux_GPIO_initialize` for a device at the start of its page.
abbrev window : ℕ → ℕ → Window
window base at = record { address = at + 0; physical = base }

abbrev initialized : ℕ → ℕ → ℕ → Panel → Panel
initialized base at direction p = record p {
  opened = suc p.opened;
  mapped_base = some (record { address = at; physical = base });
  memory = store32 p.memory (base + 4) direction;
  console =
      record { format = "LED GPIO memory mapped at address %p.\n"; args = int (pos at) ∷ [] }
      ∷ record { format = "/dev/mem opened.\n"; args = [] }
      ∷ p.console;
}

module _ (os : Os) where
  initialize_led :
      (at : ℕ) (p : Panel)
      → os.opens ≡ true
      → os.map_page 0x40000000 ≡ some at
      → linux_gpio_initialize os 0x40000000 (pos 0) 1 p
        ≡ done (window 0x40000000 at) (initialized 0x40000000 at 0 p)
  unfolding linux_gpio_initialize open_memory write_register
  initialize_led at p o m = ground arith

  initialize_button :
      (at : ℕ) (p : Panel)
      → os.opens ≡ true
      → os.map_page 0x41240000 ≡ some at
      → linux_gpio_initialize os 0x41240000 (negsuc 0) 1 p
        ≡ done (window 0x41240000 at) (initialized 0x41240000 at (2 ^ 32 - 1) p)
  unfolding linux_gpio_initialize open_memory write_register
  initialize_button at p o m = ground arith

  -- If /dev/mem opens and both pages map, `main` opens /dev/mem twice, although its second call of
  -- `Linux_GPIO_initialize` passes FALSE; the LEDs are outputs and the buttons inputs; and the exerciser
  -- counts down, whatever the buttons give.
  pub main_lem :
      (d : Doubles) (led button : ℕ) (bs : List ℕ) (p : Panel)
      → os.opens ≡ true
      → os.map_page 0x40000000 ≡ some led
      → os.map_page 0x41240000 ≡ some button
      → (c' : Counter) × (p' : Panel) × (main d os bs p ≡ done c' p')
        × (p'.opened ≡ p.opened + 2)
        × (load32 p'.memory 0x40000004 ≡ 0)
        × (load32 p'.memory 0x41240004 ≡ 2 ^ 32 - 1)
        × (c'.sample ≡ sub_ℕ (countdown (length bs)) 1)
  unfolding main
  main_lem d led button bs p o ml mb =
      let say : String → Panel → Panel =
        λ s q. record q { console = record { format = s; args = [] } ∷ q.console } in
      let p0 = say "---basic_design_zynq Exerciser---\n\r" p in
      let p1 = initialized 0x40000000 led 0 p0 in
      let p2 = initialized 0x41240000 button (2 ^ 32 - 1) p1 in
      let p3 = say "running the Linux app...\n\r" (record p2 {
        mapped_led_dev_base = some (window 0x40000000 led);
        mapped_button_dev_base = some (window 0x41240000 button);
      }) in
      let (c', p', q, s, k) =
        hardware_exerciser_lem d (window 0x40000000 led) bs 0 start (window 0x41240000 button) p3
          refl refl refl in
      (
        c',
        p',
        rw (◌>>=◌, ◌>>◌, initialize_led led p0 o ml, initialize_button button p1 o mb) q,
        k.opened ∙ omega arith,
        load32_same p'.memory p2.memory 0x40000004 (λ i l. k.outside i (inr l))
            ∙ load32-store32_apart (store32 p.memory 0x40000004 0) 0x41240004 _ 0x40000004
                (inl (omega arith))
            ∙ load32-store32 p.memory 0x40000004 0 (omega arith),
        load32_same p'.memory p2.memory 0x41240004 (λ i l. k.outside i (inr (omega arith)))
            ∙ load32-store32 (store32 p.memory 0x40000004 0) 0x41240004 (2 ^ 32 - 1) (omega arith),
        s ∙ ap (λ n. sub_ℕ (countdown n) 1) (omega arith),
      )
