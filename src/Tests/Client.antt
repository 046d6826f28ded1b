-- ===== src/Tests/Client.antt =====
-- The clients of the server on small blocks (projects/adc_test/client).
use rfsoc.Common.{ℕ, Option, ◌≡◌, refl, inl, some, none, [], ◌∷◌, if◌then◌else◌, ◌==◌}
use rfsoc.Common.Int.{pos, negsuc}
use rfsoc.Common.Memory.{Memory}
use rfsoc.Common.Text.{Text, codes}
use rfsoc.Common.Program.{done}
use rfsoc.Stream.Client.{Client, Net, buffer_bytes, say, text_at, overlay, read_loop, main}
use rfsoc.Stream.Client.Laws.{repeated, read_loop_repeats}
use rfsoc.Stream.Client.Windows

abbrev with_buffer : Memory → Client
with_buffer m = record { buffer = m; console = [] }

abbrev empty : Client
empty = with_buffer (λ i. 0)

abbrev used : Client
used = with_buffer (λ i. if i == 0 then 80 else if i == 1 then 81 else 0)

-- A block with a 0 within, a shorter one behind which a byte of the first shows up, and a failed read.
abbrev two_blocks : ℕ → Option Text
two_blocks k =
    if k == 0 then some (72 ∷ 105 ∷ 0 ∷ 7 ∷ []) else if k == 1 then some (1 ∷ 2 ∷ 3 ∷ []) else none

used_text : text_at buffer_bytes used.buffer 0 ≡ some (80 ∷ 81 ∷ [])
unfolding text_at
used_text = refl

read_loop_repeats_example :
    read_loop (λ k. some []) 3 0 used
    ≡ done none (record used { console = repeated 3 (80 ∷ 81 ∷ []) [] })
read_loop_repeats_example =
    read_loop_repeats (λ k. some []) 3 0 (80 ∷ 81 ∷ []) used (λ k l. inl refl) used_text

abbrev refusing : Net
refusing = record {
  atoi = λ t. pos 1001;
  socket = pos 3;
  host = λ name. some (10 ∷ 0 ∷ 0 ∷ 1 ∷ []);
  connect = λ address port. negsuc 0;
  reads = λ k. none;
}

refused :
    main refusing 3 (codes "client") (codes "host") (codes "1001") 5 empty
    ≡ done (some (pos 1)) (say "connect" [] empty)
unfolding main
refused = refl

-- The client for Windows keeps the last block and prints nothing.
windows_drops :
    Windows.drop_loop (λ k. some (k ∷ [])) 3 0 empty
    ≡ done none
        (with_buffer (overlay (2 ∷ []) 0 (overlay (1 ∷ []) 0 (overlay (0 ∷ []) 0 (λ i. 0)))))
unfolding Windows.drop_loop
windows_drops = refl
