-- ===== src/Dma/Buffers.antt =====
-- projects/dma_lauri/dma_test_h.c, which copies a buffer of 16 bytes through the engine and compares the two
-- ends. The file uses macros that it does not define: their values are parameters.
pub mod Laws
pub mod Start
use rfsoc.Common.{
  ℕ, zero, suc, ◌+◌, ◌*◌, ◌/◌, ◌≡◌, String, Bool, true, false, not, ◌&&◌, ◌||◌, Option, none, some,
  List, [], ◌∷◌, bit_and, bit_or, ltb, ◌==◌, if◌then◌else◌,
}
use rfsoc.Common.Int.{ℤ, pos}
use rfsoc.Common.Bits.{not32}
use rfsoc.Common.Memory.{Memory, load32, store32}
use rfsoc.Common.Program.{Outcome, done, exited, int, pure, ◌>>=◌, ◌>>◌}
use rfsoc.Dma.Device.{Host, printf}

-- The undefined macros, by their names without the prefix AXIDMA_.
pub record Macros : Type 0 where
  pub ddr_base_address : ℕ
  pub ddr_base_write_address : ℕ
  pub ddr_map_mask : ℕ
  pub cr_offset : ℕ
  pub sr_offset : ℕ
  pub srcaddr_offset : ℕ
  pub dstaddr_offset : ℕ
  pub btt_offset : ℕ
  pub cr_reset_mask : ℕ
  pub cr_sgmode_mask : ℕ
  pub sr_idle_mask : ℕ
  pub xr_irq_all_mask : ℕ
  pub xr_irq_ioc_mask : ℕ
  pub xr_irq_delay_mask : ℕ
  pub xr_irq_error_mask : ℕ

-- The hardware: the engine's registers by offset, where a read may change the state too, and the memory
-- by physical address, which the processor writes byte by byte.
pub record Machine : Type 1 where
  pub State : Type 0
  pub read : ℕ → State → ℕ × State
  pub write : ℕ → ℕ → State → State
  pub poke : ℕ → ℕ → State → State
  pub peek : State → Memory

-- Whether the first, second and third `open`, `mmap` and `munmap` succeed, and the addresses that the two
-- mappings of the memory get.
pub record Calls : Type 0 where
  pub opens : ℕ → Bool
  pub maps : ℕ → Bool
  pub unmaps : ℕ → Bool
  pub mapped_base_1 : ℕ
  pub mapped_base_2 : ℕ

abbrev pub buffer_bytesize : ℕ
buffer_bytesize = 16

-- The loop of step 1 on one array, from `index` on.
abbrev pub fill : ℕ → ℕ → ℕ → Memory → Memory
fill word zero index array = array
fill word (suc n) index array = fill word n (suc index) (store32 array (4 * index) word)

-- `SrcArray` and `DestArray` after step 1; `junk` is what they hold before it.
abbrev pub src_array : Memory → Memory
src_array junk = fill 0x5A5A5A5A (buffer_bytesize / 2) 0 junk

abbrev pub dest_array : Memory → Memory
dest_array junk = fill 0 (buffer_bytesize / 2) 0 junk

-- The physical address behind `mapped_base + (base & mask)`, with `base & ~mask` mapped.
abbrev pub behind : ℕ → ℕ → ℕ
behind base mask = bit_and base (not32 mask) + bit_and base mask

module _ (c : Machine) where
  abbrev pub Run : Type 0 → Type 0
  Run A = Host c.State → Outcome (Host c.State) A

  -- `if (it failed) { printf(message); exit(0); }`.
  unfoldable pub attempt : Bool → String → Run (Unit {0})
  attempt ok message = if ok then pure tt else (do printf message []; exited (pos 0))

  unfoldable pub get : ℕ → Run ℕ
  get offset h = let (value, s) = c.read offset h.engine in done value (record h { engine = s })

  unfoldable pub put : ℕ → ℕ → Run (Unit {0})
  put offset value h = done tt (record h { engine = c.write offset value h.engine })

  -- `memcpy(p, array, n)`, with `p` mapped at `base`, from byte `i` on.
  unfoldable pub copy_out : ℕ → Memory → ℕ → ℕ → c.State → c.State
  copy_out base array zero i s = s
  copy_out base array (suc n) i s = copy_out base array n (suc i) (c.poke (base + i) (array i) s)

  -- `memcpy(array, p, n)`.
  abbrev pub copy_in : ℕ → ℕ → c.State → Memory → Memory
  copy_in base n s array i = if ltb i n then c.peek s (base + i) else array i

module _ (x : Macros) (c : Machine) (k : Calls) where
  -- An `open` and the `mmap` after it.
  open_and_map : ℕ → Run c (Unit {0})
  open_and_map i = do
    attempt c (k.opens i) "Can't open /dev/mem.\n"
    printf "/dev/mem opened.\n" []
    attempt c (k.maps i) "Can't map the memory to user space.\n"

  -- Step 3, `memcpy(mapped_dev_base_1, SrcArray, BUFFER_BYTESIZE)`.
  store_source : Memory → Run c (Unit {0})
  store_source array h = done tt (record h {
    engine = copy_out c (behind x.ddr_base_address x.ddr_map_mask) array buffer_bytesize 0 h.engine;
  })

  -- Steps 2 to 4: the source goes into the memory.
  unfoldable pub send_source : Memory → Run c (Unit {0})
  unfolding open_and_map store_source
  send_source array = do
    open_and_map 0
    printf "Memory mapped at address %p.\n" (int (pos k.mapped_base_1) ∷ [])
    store_source array
    attempt c (k.unmaps 0) "Can't unmap memory from user space.\n"

  -- `do { ... } while (TimeOut)`. It goes on in the same way when the time is out.
  unfoldable pub reset_loop : ℕ → Run c (Unit {0})
  reset_loop zero = pure tt
  reset_loop (suc time_out) =
      let again = reset_loop time_out in
      do
        put c x.cr_offset x.cr_reset_mask
        mask ← get c x.cr_offset
        if bit_and mask x.cr_reset_mask == 0 then pure tt else again

  -- From the interrupts to the length; `false` when the bus is busy.
  unfoldable pub start : Run c Bool
  start = do
    control ← get c x.cr_offset
    put c x.cr_offset (bit_or control x.xr_irq_all_mask)
    status ← get c x.sr_offset
    if bit_and status x.sr_idle_mask == 0
        then (do printf "BUS IS BUSY Error Condition \n\r" []; pure false)
        else (do
          mode ← get c x.cr_offset
          if bit_and mode x.cr_sgmode_mask == 0 then pure tt else (do
            printf "Reading \n \r" []
            put c x.cr_offset (bit_and mode (not32 x.cr_sgmode_mask)))
          put c x.srcaddr_offset x.ddr_base_address
          put c x.dstaddr_offset x.ddr_base_write_address
          put c x.btt_offset buffer_bytesize
          pure true)

  -- Step 6: `do { ... } while (...)`. `none` means that the fuel ran out.
  unfoldable pub wait : ℕ → Run c (Option ℕ)
  wait zero = pure none
  wait (suc fuel) =
      let again = wait fuel in
      do
        status ← get c x.sr_offset
        if bit_and status x.xr_irq_all_mask == 0 then again else pure (some status)

  unfoldable pub say_if : ℕ → String → Run c (Unit {0})
  say_if bits message = if bits == 0 then pure tt else printf message []

  unfoldable pub report : ℕ → Run c (Unit {0})
  report status = do
    say_if (bit_and status x.xr_irq_ioc_mask) "Transfer Completed \n\r "
    say_if (bit_and status x.xr_irq_delay_mask) "IRQ Delay Interrupt\n\r "
    say_if (bit_and status x.xr_irq_error_mask) " Transfer Error Interrupt\n\r "

  -- The loop of step 11 from `index` on: whether the arrays agree.
  abbrev pub compare : ℕ → ℕ → Memory → Memory → Bool
  compare zero index source destination = true
  compare (suc n) index source destination =
      load32 source (4 * index) == load32 destination (4 * index)
      && compare n (suc index) source destination

  -- Step 9, `memcpy(DestArray, mapped_dev_base_2, BUFFER_BYTESIZE)`.
  unfoldable pub load_destination : Memory → Run c Memory
  load_destination array h =
      done
        (copy_in c (behind x.ddr_base_write_address x.ddr_map_mask) buffer_bytesize h.engine array)
        h

  -- Steps 7 to 11.
  unfoldable pub read_back : Memory → Memory → Run c ℤ
  unfolding open_and_map
  read_back source junk = do
    attempt c (k.unmaps 1) "Can't unmap memory from user space.\n"
    open_and_map 2
    printf "Memory mapped at address %p.\n" (int (pos k.mapped_base_2) ∷ [])
    destination ← load_destination junk
    attempt c (k.unmaps 2) "Can't unmap memory from user space.\n"
    if compare (buffer_bytesize / 4) 0 source destination
        then (do printf "DATA Transfer is Successfull \n\r" []; pure (pos 0))
        else (do printf "Error in the Data comparison \n \r" []; pure (pos 1))

  -- `main`; `junk` and `junk'` are what the arrays hold at first. `none` means that the fuel of the wait
  -- ran out.
  unfoldable pub main : Memory → Memory → ℕ → Run c (Option ℤ)
  unfolding open_and_map
  main junk junk' fuel = do
    send_source (src_array junk)
    open_and_map 1
    reset_loop 5
    idle ← start
    if idle
        then (do
          r ← wait fuel
          elim r [
            | none ↦ pure none
            | some status ↦ (do
              report status
              n ← read_back (src_array junk) (dest_array junk')
              pure (some n))
          ])
        else pure (some (pos 1))
