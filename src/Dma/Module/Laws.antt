-- ===== src/Dma/Module/Laws.antt =====
-- What the kernel module gives back of what it takes.
use rfsoc.Common.{◌&&◌, ℕ, ◌+◌, ◌-◌, ◌≡◌, ◌⊎◌, Bool, true, false, ◌||◌, Option, none, some}
use rfsoc.Common.Int.{ℤ, pos, negsuc, ltb_ℤ}
use rfsoc.Dma.Module.{tx, rx, Kernel, Held, dma_length, taken, fill, number, Channel}

-- The answers of the kernel, in the order of the module's calls, from the state at its start.
module _ (k : Kernel) where
  abbrev pub tx_channel : k.State → Bool
  tx_channel s = (k.request_channel s).0

  abbrev pub rx_channel : k.State → Bool
  rx_channel s = (k.request_channel (k.request_channel s).1).0

  abbrev pub with_both : k.State → k.State
  with_both s = (k.request_channel (k.request_channel s).1).1

  -- From the state with both channels.
  abbrev pub source : k.State → Option ℕ
  source s = (k.kmalloc dma_length s).0

  abbrev pub destination : k.State → Option ℕ
  destination s = (k.kzalloc dma_length (k.kmalloc dma_length s).1).0

  abbrev pub with_buffers : k.State → k.State
  with_buffers s = (k.kzalloc dma_length (k.kmalloc dma_length s).1).1

  -- The cookie of a channel: -16 without a descriptor, otherwise what `submit` gives.
  abbrev pub cookie : Channel → ℕ → k.State → ℤ × k.State
  cookie c handle s = elim ((k.prep_slave_single c handle dma_length s).0) [
    | none ↦ (negsuc 15, (k.prep_slave_single c handle dma_length s).1)
    | some desc ↦ k.submit desc (k.prep_slave_single c handle dma_length s).1
  ]

  -- Whether one of the two cookies is an error.
  abbrev pub refused : ℕ → ℕ → k.State → Bool
  refused src dest s =
      let (tx_handle, s1) = k.map_single tx src dma_length (fill k src dma_length 0 s) in
      let (rx_handle, s2) = k.map_single rx dest dma_length s1 in
      let (rx_cookie, s3) = cookie rx rx_handle s2 in
      ltb_ℤ rx_cookie (pos 0) || ltb_ℤ ((cookie tx tx_handle s3).0) (pos 0)

abbrev pub HeldAs : Held → ℕ → ℕ → ℕ → Type 0
HeldAs y c b m = (y.channels ≡ c) × (y.buffers ≡ b) × (y.mappings ≡ m)

-- What is held after the transfer, by what was held before it, from the state with both channels: the buffer that
-- could be had when one could not; both buffers and both mappings when a cookie is an error; otherwise no more.
abbrev pub Tested : (k : Kernel) → k.State → Held → Held → Type 0
Tested k s x y =
    (((source k s ≡ none) ⊎ (destination k s ≡ none))
      × HeldAs y x.channels (x.buffers + taken (source k s) + taken (destination k s)) x.mappings)
    ⊎ ((a b : ℕ) × (source k s ≡ some a)
        × (destination k s ≡ some b)
        × (((refused k a b (with_buffers k s) ≡ true)
              × HeldAs y x.channels (x.buffers + 2) (x.mappings + 2))
            ⊎ ((refused k a b (with_buffers k s) ≡ false)
                × HeldAs y x.channels x.buffers x.mappings)))

-- How the module ends.
abbrev pub Ending : (k : Kernel) → k.State → Held → Held → ℤ → Type 0
Ending k s x y n =
    (((tx_channel k s && rx_channel k s) ≡ false)
      × (n ≡ negsuc 0)
      × HeldAs y (x.channels + number (tx_channel k s) + number (rx_channel k s)) x.buffers
          x.mappings)
    ⊎ (((tx_channel k s && rx_channel k s) ≡ true) × (n ≡ pos 0) × Tested k (with_both k s) x y)

-- What the tests after the two submissions leave.
abbrev released : Held → Held
released x = record x { mappings = x.mappings - 1 - 1; buffers = x.buffers - 1 - 1 }
