-- ===== src/Gpio/Bars/Laws.antt =====
-- The images as powers of two.
use rfsoc.Common.{◌↔◌, ◌⊎◌, ℕ, zero, suc, ◌-◌, ◌^◌, ◌≡◌, refl, ◌==◌, leb, ltb, if◌then◌else◌, arith}
use rfsoc.Common.Int.{ℤ, pos, negsuc}
use rfsoc.Gpio.Panel.{Panel, leds_driver}
use rfsoc.Gpio.Bars.{cylon, bar, binary, bar_image, cylon_image, do_bar_graph}

-- The image of a value: for a solid bar, the LEDs below the value; for a single bar, the LED of the
-- value's number; for anything that does not fit, every second LED.
abbrev pub expected_bar : ℤ → ℕ
expected_bar (negsuc n) = 0x55
expected_bar (pos n) = if leb n 8 then 2 ^ n - 1 else 0x55

abbrev pub expected_cylon : ℤ → ℕ
expected_cylon (negsuc n) = 0x55
expected_cylon (pos n) = if ltb n 8 then 2 ^ n else 0x55

bar_image_lem : (value : ℤ) → bar_image value ≡ expected_bar value
bar_image_lem (negsuc n) = refl
bar_image_lem (pos zero) = refl
bar_image_lem (pos (suc zero)) = refl
bar_image_lem (pos (suc (suc zero))) = refl
bar_image_lem (pos (suc (suc (suc zero)))) = refl
bar_image_lem (pos (suc (suc (suc (suc zero))))) = refl
bar_image_lem (pos (suc (suc (suc (suc (suc zero)))))) = refl
bar_image_lem (pos (suc (suc (suc (suc (suc (suc zero))))))) = refl
bar_image_lem (pos (suc (suc (suc (suc (suc (suc (suc zero)))))))) = refl
bar_image_lem (pos (suc (suc (suc (suc (suc (suc (suc (suc zero))))))))) = refl
bar_image_lem (pos (suc (suc (suc (suc (suc (suc (suc (suc (suc n)))))))))) = ground arith

cylon_image_lem : (value : ℤ) → cylon_image value ≡ expected_cylon value
cylon_image_lem (negsuc n) = refl
cylon_image_lem (pos zero) = refl
cylon_image_lem (pos (suc zero)) = refl
cylon_image_lem (pos (suc (suc zero))) = refl
cylon_image_lem (pos (suc (suc (suc zero)))) = refl
cylon_image_lem (pos (suc (suc (suc (suc zero))))) = refl
cylon_image_lem (pos (suc (suc (suc (suc (suc zero)))))) = refl
cylon_image_lem (pos (suc (suc (suc (suc (suc (suc zero))))))) = refl
cylon_image_lem (pos (suc (suc (suc (suc (suc (suc (suc zero)))))))) = refl
cylon_image_lem (pos (suc (suc (suc (suc (suc (suc (suc (suc n))))))))) = ground arith

-- The image of a style: BAR, CYLON and BINARY, and 0x69 for any other.
abbrev pub expected_image : ℤ → ℕ → ℤ
expected_image value style =
    if style == bar
    then pos (expected_bar value)
    else if style == cylon
    then pos (expected_cylon value)
    else if style == binary
    then value
    else pos 0x69

-- The rows of the comment at the head of the function, which shows the value 5: the LEDs 0 to 5, the LED 5, the
-- number, and every second LED for any other style.
abbrev pub comment_row : ℕ → ℤ
comment_row style =
    if style == bar
    then pos 0x3f
    else if style == cylon
    then pos 0x20
    else if style == binary
    then pos 5
    else pos 0x55

-- For every value and every style `doBarGraph` drives the LEDs once: for BAR with 2 ^ value - 1 up to 8, for
-- CYLON with 2 ^ value up to 7, for both with 0x55 out of that range, for BINARY with the value, and for any
-- other style with 0x69. For the value 5 this is what the comment of the function shows for CYLON and for
-- BINARY, and for no other style.
pub do_bar_graph_lem :
    (value : ℤ) (style : ℕ) (p : Panel)
    → (do_bar_graph value style p ≡ leds_driver (expected_image value style) p)
      × ((expected_image (pos 5) style ≡ comment_row style) ↔ ((style ≡ cylon) ⊎ (style ≡ binary)))
unfolding do_bar_graph
do_bar_graph_lem value style p = (
  ground (arith, bar_image_lem value, cylon_image_lem value),
  (λ e. ground arith, λ e. ground arith),
)
