-- ===== src/Tests/Gpio.antt =====
-- The program of projects/gpio_led_test on a small panel, with integers in place of `double`.
use rfsoc.Common.{
  ◌↔◌, ◌⊎◌, ℕ, suc, ◌-◌, ◌*◌, ◌/◌, ◌^◌, ◌≡◌, ◌<◌, ◌⊎◌, refl, inr, true, some, none, [], ◌∷◌, arith,
  ltb, ◌==◌, if◌then◌else◌,
}
use rfsoc.Common.Int.{ℤ, pos, negsuc, sub_ℕ, add_ℤ, div_trunc, pos_part}
use rfsoc.Common.Memory.{Memory, IsBytes, load32}
use rfsoc.Common.Text.{Text}
use rfsoc.Common.Program.{done}
use rfsoc.Gpio.Strcat.{strcat}
use rfsoc.Gpio.Strcat.Laws.{HasText, strcat_lem}
use rfsoc.Gpio.Panel.{Panel, Os, Window, leds_driver}
use rfsoc.Gpio.Bars.{cylon, binary, do_bar_graph}
use rfsoc.Gpio.Bars.Laws.{expected_image, comment_row, do_bar_graph_lem}
use rfsoc.Gpio.Sine.{Doubles}
use rfsoc.Gpio.Exerciser.{Counter, main}
use rfsoc.Gpio.Exerciser.Laws.{countdown}
use rfsoc.Gpio.Exerciser.Main.{main_lem}

-- "ab" at 0 and "c" at 10.
abbrev two_texts : Memory
two_texts a = if a == 0 then 97 else if a == 1 then 98 else if a == 10 then 99 else 0

two_texts-IsBytes : IsBytes two_texts
two_texts-IsBytes a = ground arith

strcat_lem_example :
    (m' : Memory) × (strcat 9 two_texts 0 10 ≡ some m')
    × HasText m' 0 (97 ∷ 98 ∷ 99 ∷ [])
    × HasText m' 10 (99 ∷ [])
    × ((i : ℕ) → (i < 2) ⊎ (3 < i) → m' i ≡ two_texts i)
strcat_lem_example =
    strcat_lem 9 two_texts 0 10 (97 ∷ 98 ∷ []) (99 ∷ []) two_texts-IsBytes
      ((refl, omega arith), ((refl, omega arith), refl)) ((refl, omega arith), refl)
      (inr (omega arith)) (omega arith) (omega arith)

abbrev leds : Window
leds = record { address = 0x7000; physical = 0x40000000 }

abbrev buttons : Window
buttons = record { address = 0x8000; physical = 0x41240000 }

abbrev panel : Panel
panel = record {
  opened = 2;
  mapped_base = none;
  mapped_led_dev_base = some leds;
  mapped_button_dev_base = some buttons;
  memory = λ a. 0;
  console = [];
}

abbrev times : ℤ → ℤ → ℤ
times (pos a) (pos b) = pos (a * b)
times (pos a) (negsuc b) = sub_ℕ 0 (a * suc b)
times (negsuc a) (pos b) = sub_ℕ 0 (suc a * b)
times (negsuc a) (negsuc b) = pos (suc a * suc b)

abbrev whole : Doubles
whole = record {
  Double = ℤ;
  of_int = λ n. n;
  literal = λ n k. pos (n / 10 ^ k);
  float_literal = λ n k. pos (n / 10 ^ k);
  add = add_ℤ;
  sub = λ a b. add_ℤ a (times (negsuc 0) b);
  mul = times;
  div = div_trunc;
  above = λ a b. ltb (pos_part b) (pos_part a);
  to_int = λ a. a;
}

abbrev os : Os
os = record { opens = true; map_page = λ a. some 0x9000 }

main_lem_example :
    (c' : Counter) × (p' : Panel) × (main whole os (1 ∷ []) panel ≡ done c' p')
    × (p'.opened ≡ 4)
    × (load32 p'.memory 0x40000004 ≡ 0)
    × (load32 p'.memory 0x41240004 ≡ 2 ^ 32 - 1)
    × (c'.sample ≡ sub_ℕ (countdown 1) 1)
main_lem_example = main_lem os whole 0x9000 0x9000 (1 ∷ []) panel refl refl refl

do_bar_graph_lem_example :
    (do_bar_graph (pos 3) cylon panel ≡ leds_driver (expected_image (pos 3) cylon) panel)
    × ((expected_image (pos 5) cylon ≡ comment_row cylon) ↔ ((cylon ≡ cylon) ⊎ (cylon ≡ binary)))
do_bar_graph_lem_example = do_bar_graph_lem (pos 3) cylon panel
