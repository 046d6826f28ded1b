-- ===== src/Dma/Module.antt =====
-- The kernel module projects/dma_loopback/axidma.c. The kernel's functions are a parameter.
pub mod Holds
pub mod Laws
use rfsoc.Common.{
  ℕ, zero, suc, ◌+◌, ◌-◌, ◌*◌, ◌%◌, ◌≡◌, String, Bool, true, false, not, ◌||◌, Option, none, some,
  List, [], ◌∷◌, ◌==◌, if◌then◌else◌,
}
use rfsoc.Common.Int.{ℤ, pos, negsuc, ltb_ℤ}
use rfsoc.Common.Text.{codes}
use rfsoc.Common.Program.{Outcome, done, Arg, int, str, Line, pure, ◌>>=◌, ◌>>◌}

pub data Channel : Type 0 where
  tx rx : Channel

-- The kernel: the functions that the module calls, each with the state after it. A buffer is an address, a
-- mapping a handle, and `none` the null pointer.
pub record Kernel : Type 1 where
  pub State : Type 0
  pub request_channel : State → Bool × State
  pub release_channel : Channel → State → State
  pub kmalloc : ℕ → State → Option ℕ × State
  pub kzalloc : ℕ → State → Option ℕ × State
  pub kfree : ℕ → State → State
  pub map_single : Channel → ℕ → ℕ → State → ℕ × State
  pub unmap_single : Channel → ℕ → ℕ → State → State
  pub prep_slave_single : Channel → ℕ → ℕ → State → Option ℕ × State
  -- The callback of the descriptor completes the channel's completion.
  pub submit : ℕ → State → ℤ × State
  pub init_completion : Channel → State → State
  pub issue_pending : Channel → State → State
  pub msecs_to_jiffies : ℕ → ℕ
  pub wait_for_completion_timeout : Channel → ℕ → State → ℕ × State
  pub is_tx_complete : Channel → ℤ → State → ℕ × State
  pub dma_complete : ℕ
  pub dma_error : ℕ
  pub peek : State → ℕ → ℕ
  pub poke : ℕ → ℕ → State → State

-- What the module holds of the kernel.
pub record Held : Type 0 where
  pub channels : ℕ
  pub buffers : ℕ
  pub mappings : ℕ

pub record Session (S : Type 0) : Type 0 where
  pub kernel : S
  pub held : Held
  pub console : List Line

abbrev pub dma_length : ℕ
dma_length = 32 * 1024

-- A pointer that is not null adds one to what is held.
abbrev pub taken : Option ℕ → ℕ
taken none = 0
taken (some a) = 1

abbrev pub number : Bool → ℕ
number true = 1
number false = 0

abbrev pub printk : {S : Type 0} → String → List Arg → Session S → Outcome (Session S) (Unit {0})
printk format args h =
    done tt (record h { console = record { format = format; args = args } ∷ h.console })

module _ (k : Kernel) where
  abbrev pub Run : Type 0 → Type 0
  Run A = Session k.State → Outcome (Session k.State) A

  -- A call that takes and gives back nothing.
  abbrev pub call : {A : Type 0} → (k.State → A × k.State) → Run A
  call f h = let (a, s) = f h.kernel in done a (record h { kernel = s })

  abbrev pub act : (k.State → k.State) → Run (Unit {0})
  act f h = done tt (record h { kernel = f h.kernel })

  unfoldable pub allocate : (ℕ → k.State → Option ℕ × k.State) → Run (Option ℕ)
  allocate f h =
      let (a, s) = f dma_length h.kernel in
      done a (record h { kernel = s; held = record h.held { buffers = h.held.buffers + taken a } })

  unfoldable pub free : ℕ → Run (Unit {0})
  free a h = done tt (record h {
    kernel = k.kfree a h.kernel;
    held = record h.held { buffers = h.held.buffers - 1 };
  })

  unfoldable pub map : Channel → ℕ → Run ℕ
  map c a h =
      let (handle, s) = k.map_single c a dma_length h.kernel in
      done handle (record h { kernel = s; held = record h.held { mappings = suc h.held.mappings } })

  unfoldable pub unmap : Channel → ℕ → Run (Unit {0})
  unmap c handle h = done tt (record h {
    kernel = k.unmap_single c handle dma_length h.kernel;
    held = record h.held { mappings = h.held.mappings - 1 };
  })

  -- `-EBUSY` when there is no descriptor.
  unfoldable pub axidma_prep_buffer : Channel → ℕ → Run ℤ
  axidma_prep_buffer c buf = do
    chan_desc ← call (k.prep_slave_single c buf dma_length)
    elim chan_desc [
      | none ↦ (do printk "dmaengine_prep_slave_single error\n" []; pure (negsuc 15))
      | some desc ↦ call (k.submit desc)
    ]

  unfoldable pub axidma_start_transfer : Channel → ℤ → Bool → Run (Unit {0})
  axidma_start_transfer c cookie wait = do
    act (k.init_completion c)
    act (k.issue_pending c)
    if wait
        then (do
          printk "Waiting for DMA to complete...\n" []
          timeout ← call (k.wait_for_completion_timeout c (k.msecs_to_jiffies 3000))
          status ← call (k.is_tx_complete c cookie)
          if timeout == 0
              then printk "DMA timed out\n" []
              else if status == k.dma_complete
              then pure tt
              else printk "DMA returned completion callback status of: %s\n"
                  (str (if status == k.dma_error then codes "error" else codes "in progress") ∷ []))
        else pure tt

  -- `for (i = 0; i < dma_length; i++) src_dma_buffer[i] = i`, of a `char`.
  unfoldable pub fill : ℕ → ℕ → ℕ → k.State → k.State
  fill buffer zero i s = s
  fill buffer (suc n) i s = fill buffer n (suc i) (k.poke (buffer + i) (i % 256) s)

  -- The verification: whether the loop finds a byte that differs.
  unfoldable pub differs : ℕ → ℕ → ℕ → ℕ → k.State → Bool
  differs dest src zero i s = false
  differs dest src (suc n) i s =
      not (k.peek s (dest + i) == k.peek s (src + i)) || differs dest src n (suc i) s

  unfoldable pub request : Run Bool
  request h =
      let (got, s) = k.request_channel h.kernel in
      done got
        (record h { kernel = s; held = record h.held { channels = h.held.channels + number got } })

  unfoldable pub release : Channel → Run (Unit {0})
  release c h = done tt (record h {
    kernel = k.release_channel c h.kernel;
    held = record h.held { channels = h.held.channels - 1 };
  })

  -- `axidma_test_transfer` once both transfers are submitted.
  unfoldable pub run_transfer : ℕ → ℕ → ℕ → ℕ → ℤ → ℤ → Run (Unit {0})
  run_transfer src dest tx_handle rx_handle tx_cookie rx_cookie = do
    printk "Starting DMA transfers\n" []
    axidma_start_transfer rx rx_cookie false
    axidma_start_transfer tx tx_cookie true
    unmap rx rx_handle
    unmap tx tx_handle
    (λ h.
        (if differs dest src dma_length 0 h.kernel
            then printk "DMA transfer failure" []
            else pure tt)
          h)
    printk "DMA bytes sent: %d\n" (int (pos dma_length) ∷ [])
    free src
    free dest

  -- It from step 4 on.
  unfoldable pub use_buffers : ℕ → ℕ → Run (Unit {0})
  use_buffers src dest = do
    act (fill src dma_length 0)
    tx_handle ← map tx src
    rx_handle ← map rx dest
    rx_cookie ← axidma_prep_buffer rx rx_handle
    tx_cookie ← axidma_prep_buffer tx tx_handle
    if ltb_ℤ rx_cookie (pos 0) || ltb_ℤ tx_cookie (pos 0)
        then printk "xdma_prep_buffer error\n" []
        else run_transfer src dest tx_handle rx_handle tx_cookie rx_cookie

  -- The test of the two pointers, and what follows.
  unfoldable pub with_pointers : Option ℕ → Option ℕ → Run (Unit {0})
  with_pointers none dest_dma_buffer = printk "Allocating DMA memory failed\n" []
  with_pointers (some src) none = printk "Allocating DMA memory failed\n" []
  with_pointers (some src) (some dest) = use_buffers src dest

  unfoldable pub axidma_test_transfer : Run (Unit {0})
  axidma_test_transfer = do
    src_dma_buffer ← allocate k.kmalloc
    dest_dma_buffer ← allocate k.kzalloc
    with_pointers src_dma_buffer dest_dma_buffer

  -- The test of the two channels, and what follows.
  unfoldable pub with_channels : Bool → Bool → Run ℤ
  with_channels tx_chan rx_chan =
      if not rx_chan || not tx_chan
      then (do printk "DMA channel request error\n" []; pure (negsuc 0))
      else (do axidma_test_transfer; release tx; release rx; pure (pos 0))

  unfoldable pub axidma_init : Run ℤ
  axidma_init = do
    printk "AXI DMA module initialized\n" []
    tx_chan ← request
    rx_chan ← request
    with_channels tx_chan rx_chan
