-- ===== src/Stream/Client/Run.antt =====
-- Whole runs of the loop of the client for Linux (projects/adc_test/client).
use rfsoc.Common.{ℕ, zero, suc, ◌-◌, ◌≡◌, Option, none, some, [], ◌∷◌, length}
use rfsoc.Common.Memory.{Memory}
use rfsoc.Common.Text.{Text}
use rfsoc.Common.Program.{str}
use rfsoc.Stream.Client.{Client, buffer_bytes, say, text_at}
use rfsoc.Stream.Client.Laws.{shown, until_zero}

-- The client after so many rounds, by what the reads give: after a block, its bytes up to the first 0, and without
-- one the block and the string that stands behind it, are printed; after a read that fails, the string that is there.
pub data Prints (reads : ℕ → Option Text) : ℕ → ℕ → Client → Client → Type 0 where
  stops : (r : ℕ) (c : Client) → Prints reads zero r c c
  prints_block :
      (n r : ℕ) (bytes old : Text) (c c' : Client)
      → reads r ≡ some bytes
      → text_at (buffer_bytes - length bytes) c.buffer (length bytes) ≡ some old
      → Prints reads n (suc r) (shown bytes (until_zero bytes old) c) c'
      → Prints reads (suc n) r c c'
  prints_again :
      (n r : ℕ) (t : Text) (c c' : Client)
      → reads r ≡ none
      → text_at buffer_bytes c.buffer 0 ≡ some t
      → Prints reads n (suc r) (say "%s\n" (str t ∷ []) c) c'
      → Prints reads (suc n) r c c'
