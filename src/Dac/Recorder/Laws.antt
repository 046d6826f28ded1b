-- ===== src/Dac/Recorder/Laws.antt =====
-- What the recorder leaves in the file and in its registers.
use rfsoc.Common.{List, [], ◌∷◌, ◌++◌}
use rfsoc.Common.Memory.{Memory}
use rfsoc.Common.Bytes.{bytes_at}
use rfsoc.Common.Text.{Text}
use rfsoc.Stream.Child.{half_bytes}

-- Both halves of each round, in their order.
pub recorded_halves : List (Memory × Memory) → Text
recorded_halves [] = []
recorded_halves (b ∷ bs) =
    (bytes_at b.0 0 half_bytes ++ bytes_at b.1 half_bytes half_bytes) ++ recorded_halves bs
