-- ===== src/Tests/Module.antt =====
-- The kernel module of projects/dma_loopback on a kernel that gives every pointer and takes no transfer.
use rfsoc.Common.{ℕ, ◌/◌, ◌+◌, true, some, []}
use rfsoc.Common.Int.{negsuc}
use rfsoc.Dma.Module.{Kernel, Held, Session}

-- Its state counts the calls.
abbrev busy : Kernel
busy = record {
  State = ℕ;
  request_channel = λ s. (true, s + 1);
  release_channel = λ c s. s + 1;
  kmalloc = λ n s. (some 0x1000, s + 1);
  kzalloc = λ n s. (some 0x9000, s + 1);
  kfree = λ a s. s + 1;
  map_single = λ c a n s. (a, s + 1);
  unmap_single = λ c a n s. s + 1;
  prep_slave_single = λ c a n s. (some 5, s + 1);
  submit = λ d s. (negsuc 4, s + 1);
  init_completion = λ c s. s + 1;
  issue_pending = λ c s. s + 1;
  msecs_to_jiffies = λ n. n / 4;
  wait_for_completion_timeout = λ c n s. (0, s + 1);
  is_tx_complete = λ c cookie s. (0, s + 1);
  dma_complete = 0;
  dma_error = 3;
  peek = λ s a. 0;
  poke = λ a b s. s;
}

abbrev nothing : Held
nothing = record { channels = 0; buffers = 0; mappings = 0 }

abbrev loaded : Session ℕ
loaded = record { kernel = 0; held = nothing; console = [] }
