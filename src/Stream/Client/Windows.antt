-- ===== src/Stream/Client/Windows.antt =====
-- The client for Windows, projects/adc_test/client/adc-test-client_win.c.
use rfsoc.Common.{ℕ, zero, suc, Option, none, some, [], ltb, take, if◌then◌else◌}
use rfsoc.Common.Int.{ℤ, pos, ltb_ℤ}
use rfsoc.Common.Text.{Text, codes}
use rfsoc.Common.Program.{Outcome, done}
use rfsoc.Stream.Client.{Client, buffer_bytes, say, htons, overlay}

-- `socket` gives an unsigned number; `recv` gives what `read` does, in blocks of the whole buffer.
pub record Net : Type 0 where
  pub socket : ℕ
  pub connect : Text → ℕ → ℤ
  pub reads : ℕ → Option Text

-- `recv(sock, buffer, 256*4096, MSG_WAITALL)`, for ever.
unfoldable pub drop_loop : (ℕ → Option Text) → ℕ → ℕ → Client → Outcome Client (Option ℤ)
drop_loop reads zero r c = done none c
drop_loop reads (suc rounds) r c = drop_loop reads rounds (suc r) (record c {
  buffer = elim (reads r) [
    | some bytes ↦ overlay (take buffer_bytes bytes) 0 c.buffer
    | none ↦ c.buffer
  ];
})

unfoldable pub main : Net → ℕ → Client → Outcome Client (Option ℤ)
main n rounds c =
    if ltb n.socket 0
    then done (some (pos 1)) (say "socket" [] c)
    else if ltb_ℤ (n.connect (codes "192.168.137.111") (htons 1001)) (pos 0)
    then done (some (pos 1)) (say "connect" [] c)
    else drop_loop n.reads rounds 0 c
