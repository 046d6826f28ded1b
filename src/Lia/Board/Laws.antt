-- ===== src/Lia/Board/Laws.antt =====
-- `dev_read` and `dev_write` through a pointer that is mapped.
use rfsoc.Common.{ℕ, ◌≡◌, true}
use rfsoc.Common.Memory.{load32}
use rfsoc.Common.Program.{done}
use rfsoc.Lia.Board.{Device, Board, in_reach, written, dev_read, dev_write}

pub dev_write_lem :
    (d : Device) (offset value : ℕ) (b : Board)
    → in_reach (b.ptr d) offset ≡ true
    → dev_write d offset value b ≡ done tt (written d offset value b)
unfolding dev_write
dev_write_lem d offset value b h = rw h

pub dev_read_lem :
    (d : Device) (offset : ℕ) (b : Board)
    → in_reach (b.ptr d) offset ≡ true
    → dev_read d offset b ≡ done (load32 (b.mem d) offset) b
unfolding dev_read
dev_read_lem d offset b h = rw h
