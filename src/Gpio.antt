-- ===== src/Gpio.antt =====
-- The LED and push button exerciser, projects/gpio_led_test/gpio_led_test.c.
pub mod Itoa
pub mod Strcat
pub mod Panel
pub mod Bars
pub mod Sine
pub mod Exerciser
