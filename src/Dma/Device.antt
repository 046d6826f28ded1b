-- ===== src/Dma/Device.antt =====
-- The DMA engine as the programs see it (`dma_set` and `dma_get` of projects/counter_dma/dma_test.c
-- and of the other three dma_test.c). The engine is hardware: a parameter.
use rfsoc.Common.{ℕ, ◌/◌, ◌^◌, String, List, ◌∷◌}
use rfsoc.Common.Program.{Outcome, done, Arg, Line}

-- The engine's registers by word index; a read may change the engine too. `ram` is the physical
-- memory at the moment, by address, as bytes.
pub record Engine : Type 1 where
  pub State : Type 0
  pub read : ℕ → State → ℕ × State
  pub write : ℕ → ℕ → State → State
  pub ram : State → ℕ → ℕ

-- A program's state: the engine, and what was printed, newest first.
pub record Host (S : Type 0) : Type 0 where
  pub engine : S
  pub console : List Line

abbrev pub mm2s_cr : ℕ
mm2s_cr = 0x00

abbrev pub mm2s_sr : ℕ
mm2s_sr = 0x04

abbrev pub mm2s_src_addr : ℕ
mm2s_src_addr = 0x18

abbrev pub mm2s_length : ℕ
mm2s_length = 0x28

abbrev pub s2mm_cr : ℕ
s2mm_cr = 0x30

abbrev pub s2mm_sr : ℕ
s2mm_sr = 0x34

abbrev pub s2mm_dst_addr : ℕ
s2mm_dst_addr = 0x48

abbrev pub s2mm_length : ℕ
s2mm_length = 0x58

abbrev pub printf : {S : Type 0} → String → List Arg → Host S → Outcome (Host S) (Unit {0})
printf format args h =
    done tt (record h { console = record { format = format; args = args } ∷ h.console })

module _ (e : Engine) where
  -- `dma_virtual_address[offset>>2] = value`.
  unfoldable pub dma_set : ℕ → ℕ → Host e.State → Outcome (Host e.State) (Unit {0})
  dma_set offset value h = done tt (record h { engine = e.write (offset / 2 ^ 2) value h.engine })

  -- `return dma_virtual_address[offset>>2]`.
  unfoldable pub dma_get : ℕ → Host e.State → Outcome (Host e.State) ℕ
  dma_get offset h =
      let (value, s) = e.read (offset / 2 ^ 2) h.engine in done value (record h { engine = s })
