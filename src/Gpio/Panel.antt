-- ===== src/Gpio/Panel.antt =====
-- The two GPIO peripherals and what reaches them: `Linux_GPIO_initialize`, `LEDs_driver` and
-- `buttons_get_state` (projects/gpio_led_test/gpio_led_test.c).
use rfsoc.Common.{
  ℕ, zero, suc, ◌+◌, ◌-◌, String, Bool, Option, none, some, List, [], ◌∷◌, bit_and, if◌then◌else◌,
}
use rfsoc.Common.Int.{ℤ, pos, negsuc, word32}
use rfsoc.Common.Bits.{not32}
use rfsoc.Common.Memory.{Memory, store32}
use rfsoc.Common.Program.{Outcome, done, exited, crashed, Arg, int, Line, pure, ◌>>◌}

-- A pointer into a mapping: its address, and the physical address behind it.
pub record Window : Type 0 where
  pub address : ℕ
  pub physical : ℕ

-- The globals of the file. `opened`: how often /dev/mem was opened; `memory` by physical address.
pub record Panel : Type 0 where
  pub opened : ℕ
  pub mapped_base : Option Window
  pub mapped_led_dev_base : Option Window
  pub mapped_button_dev_base : Option Window
  pub memory : Memory
  pub console : List Line

-- Whether /dev/mem opens, and where a page of the physical memory is mapped, if it is.
pub record Os : Type 0 where
  pub opens : Bool
  pub map_page : ℕ → Option ℕ

abbrev pub gpio_button_base_address : ℕ
gpio_button_base_address = 0x41240000

abbrev pub gpio_led_base_address : ℕ
gpio_led_base_address = 0x40000000

abbrev pub gpio_data_offset : ℕ
gpio_data_offset = 0x0000

abbrev pub gpio_direction_offset : ℕ
gpio_direction_offset = 0x0004

abbrev pub all_outputs : ℤ
all_outputs = pos 0

-- `0xffffffff` as an `int`.
abbrev pub all_inputs : ℤ
all_inputs = negsuc 0

-- `TRUE` and `FALSE`: the file defines both as 1.
abbrev pub c_true : ℕ
c_true = 1

abbrev pub c_false : ℕ
c_false = 1

abbrev pub map_mask : ℕ
map_mask = 4096 - 1

abbrev pub printf : String → List Arg → Panel → Outcome Panel (Unit {0})
printf format args p =
    done tt (record p { console = record { format = format; args = args } ∷ p.console })

-- `*((volatile unsigned long *) (base + offset)) = value`, of 32 bits.
unfoldable pub write_register : Window → ℕ → ℤ → Panel → Outcome Panel (Unit {0})
write_register w offset value p =
    done tt (record p { memory = store32 p.memory (w.physical + offset) (word32 value) })

abbrev pub count_open : Panel → Outcome Panel (Unit {0})
count_open p = done tt (record p { opened = suc p.opened })

abbrev pub set_mapped_base : Window → Panel → Outcome Panel (Unit {0})
set_mapped_base w p = done tt (record p { mapped_base = some w })

-- `printf(message); exit(0)`.
abbrev pub give_up {ℓ} : {A : Type ℓ} → String → Panel → Outcome Panel A
give_up message p =
    exited (pos 0) (record p { console = record { format = message; args = [] } ∷ p.console })

-- The `if (first_call)`.
unfoldable pub open_memory : Os → ℕ → Panel → Outcome Panel (Unit {0})
open_memory os zero = pure tt
open_memory os (suc first_call) =
    if os.opens
    then (do count_open; printf "/dev/mem opened.\n" [])
    else give_up "Can't open /dev/mem.\n"

-- The pointer to the peripheral is returned.
unfoldable pub linux_gpio_initialize : Os → ℕ → ℤ → ℕ → Panel → Outcome Panel Window
linux_gpio_initialize os gpio_base_address direction first_call = do
  open_memory os first_call
  let page = bit_and gpio_base_address (not32 map_mask) in
      elim (os.map_page page) [
        | none ↦ give_up "Can't map the memory to user space for LED GPIO.\n"
        | some at ↦
            let inside = bit_and gpio_base_address map_mask in
            let w : Window = record { address = at + inside; physical = page + inside } in
            (do
              set_mapped_base (record { address = at; physical = page })
              printf "LED GPIO memory mapped at address %p.\n" (int (pos at) ∷ [])
              write_register w gpio_direction_offset direction
              pure w)
      ]

unfoldable pub leds_driver : ℤ → Panel → Outcome Panel (Unit {0})
leds_driver led_image p = elim p.mapped_led_dev_base [
  | none ↦ crashed
  | some w ↦ write_register w gpio_data_offset led_image p
]

-- The function reads the buttons' register and has no `return`: `result` is what its caller finds.
unfoldable pub buttons_get_state : ℕ → Panel → Outcome Panel ℕ
buttons_get_state result p = elim p.mapped_button_dev_base [
  | none ↦ crashed
  | some w ↦ done result p
]
