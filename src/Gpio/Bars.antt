-- ===== src/Gpio/Bars.antt =====
-- `doBarGraph` (projects/gpio_led_test/gpio_led_test.c).
pub mod Laws
use rfsoc.Common.{ℕ, ◌≡◌, Bool, true, false, ◌==◌, if◌then◌else◌}
use rfsoc.Common.Int.{ℤ, pos, negsuc}
use rfsoc.Common.Program.{Outcome}
use rfsoc.Gpio.Panel.{Panel, leds_driver}

abbrev pub cylon : ℕ
cylon = 1

abbrev pub bar : ℕ
bar = 2

abbrev pub binary : ℕ
binary = 3

-- The two `switch (value)`, each with its default.
abbrev pub bar_image : ℤ → ℕ
bar_image (negsuc n) = 0x55
bar_image (pos n) =
    if n == 0
    then 0x00
    else if n == 1
    then 0x01
    else if n == 2
    then 0x03
    else if n == 3
    then 0x07
    else if n == 4
    then 0x0f
    else if n == 5
    then 0x1f
    else if n == 6
    then 0x3f
    else if n == 7
    then 0x7f
    else if n == 8
    then 0xff
    else 0x55

abbrev pub cylon_image : ℤ → ℕ
cylon_image (negsuc n) = 0x55
cylon_image (pos n) =
    if n == 0
    then 0x01
    else if n == 1
    then 0x02
    else if n == 2
    then 0x04
    else if n == 3
    then 0x08
    else if n == 4
    then 0x10
    else if n == 5
    then 0x20
    else if n == 6
    then 0x40
    else if n == 7
    then 0x80
    else 0x55

unfoldable pub do_bar_graph : ℤ → ℕ → Panel → Outcome Panel (Unit {0})
do_bar_graph value style =
    if style == bar
    then leds_driver (pos (bar_image value))
    else if style == cylon
    then leds_driver (pos (cylon_image value))
    else if style == binary
    then leds_driver value
    else leds_driver (pos 0x69)
