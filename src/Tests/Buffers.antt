-- ===== src/Tests/Buffers.antt =====
-- The end and the start of projects/dma_lauri/dma_test_h.c on a machine that has copied the pattern.
use rfsoc.Common.{ℕ, ◌≡◌, ◌≤◌, ◌↔◌, refl, true, [], arith}
use rfsoc.Common.Int.{pos}
use rfsoc.Common.Memory.{Memory, IsBytes}
use rfsoc.Common.Program.{done}
use rfsoc.Dma.Device.{Host}
use rfsoc.Dma.Buffers.{Macros, Machine, Calls, src_array, read_back}
use rfsoc.Dma.Buffers.Laws.{HasPattern, destination_base, read_back_lem}

abbrev macros : Macros
macros = record {
  ddr_base_address = 0x20000000;
  ddr_base_write_address = 0x30000000;
  ddr_map_mask = 0xFFFF;
  cr_offset = 0;
  sr_offset = 4;
  srcaddr_offset = 0x18;
  dstaddr_offset = 0x20;
  btt_offset = 0x28;
  cr_reset_mask = 4;
  cr_sgmode_mask = 8;
  sr_idle_mask = 2;
  xr_irq_all_mask = 0x7000;
  xr_irq_ioc_mask = 0x1000;
  xr_irq_delay_mask = 0x2000;
  xr_irq_error_mask = 0x4000;
}

abbrev copying : Machine
copying = record {
  State = ℕ;
  read = λ offset s. (0x1002, s);
  write = λ offset value s. value;
  poke = λ a byte s. s;
  peek = λ s a. 0x5A;
}

abbrev calls : Calls
calls = record {
  opens = λ i. true;
  maps = λ i. true;
  unmaps = λ i. true;
  mapped_base_1 = 0x7000;
  mapped_base_2 = 0x9000;
}

abbrev garbage : Memory
garbage a = 0xEE

peek-IsBytes : IsBytes (copying.peek 0)
peek-IsBytes a = omega arith

abbrev host : Host ℕ
host = record { engine = 0; console = [] }

read_back_lem_example :
    (n : ℕ) × (t : Host ℕ) × (read_back macros copying calls (src_array garbage) garbage host
      ≡ done (pos n) t)
    × ((n ≡ 0) ↔ HasPattern (copying.peek 0) (destination_base macros copying calls))
    × (n ≤ 1)
read_back_lem_example =
    read_back_lem macros copying calls garbage garbage host refl refl refl refl peek-IsBytes
