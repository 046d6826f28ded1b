-- ===== src/Gpio/Strcat.antt =====
-- `strcat` (projects/gpio_led_test/gpio_led_test.c), on the memory that holds both strings.
pub mod Laws
use rfsoc.Common.{
  ℕ, zero, suc, ◌+◌, ◌≡◌, Bool, true, false, Option, none, some, ◌==◌, if◌then◌else◌,
}
use rfsoc.Common.Memory.{Memory, store8}

-- `while (*d) ++d`: where the string ends. `none` means that the fuel ran out.
unfoldable pub end_of : ℕ → Memory → ℕ → Option ℕ
end_of zero m d = none
end_of (suc fuel) m d = let next = end_of fuel m (suc d) in if m d == 0 then some d else next

-- `while ((*d++ = *source++) != '\0')`.
unfoldable pub copy : ℕ → Memory → ℕ → ℕ → Option Memory
copy zero m d source = none
copy (suc fuel) m d source =
    let m' = store8 m d (m source) in
    let next = copy fuel m' (suc d) (suc source) in if m source == 0 then some m' else next

-- The memory afterwards.
unfoldable pub strcat : ℕ → Memory → ℕ → ℕ → Option Memory
strcat fuel m destination source = elim (end_of fuel m destination) [
  | some d ↦ copy fuel m d source
  | none ↦ none
]
