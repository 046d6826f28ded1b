-- ===== src/Stream/Client.antt =====
-- The clients of the server, projects/adc_test/client: the one for Linux,
-- adc-test-client_lnx.c.
pub mod Laws
pub mod Run
pub mod Windows
use rfsoc.Common.{
  ℕ, zero, suc, ◌+◌, ◌*◌, ◌/◌, ◌%◌, ◌≡◌, String, Bool, true, false, Option, none, some, List, [],
  ◌∷◌, ltb, take, ◌==◌, if◌then◌else◌,
}
use mathlib.Core.Option
use rfsoc.Common.Int.{ℤ, pos, ltb_ℤ, word32}
use rfsoc.Common.Memory.{Memory}
use rfsoc.Common.Text.{Text, codes}
use rfsoc.Common.Program.{Outcome, done, exited, crashed, Arg, int, str, Line, pure, ◌>>=◌, ◌>>◌}

-- `buffer` and the bytes behind it on the stack, and what was printed, newest first.
pub record Client : Type 0 where
  pub buffer : Memory
  pub console : List Line

-- The calls before the loop, and what each `read` gives: `none` if it fails, otherwise the bytes, of which
-- there are none when the server has closed the connection.
pub record Net : Type 0 where
  pub atoi : Text → ℤ
  pub socket : ℤ
  pub host : Text → Option Text
  pub connect : Text → ℕ → ℤ
  pub reads : ℕ → Option Text

-- The length of `buffer`, and the most that a `read` puts there.
abbrev pub buffer_bytes : ℕ
buffer_bytes = 256 * 4096

abbrev pub read_bytes : ℕ
read_bytes = 255 * 4096

abbrev pub say : String → List Arg → Client → Client
say format args c = record c { console = record { format = format; args = args } ∷ c.console }

-- `error`: a message and the end of the process.
unfoldable pub error : String → Client → Outcome Client (Option ℤ)
error msg c = exited (pos 0) (say msg [] c)

-- `htons(x)` on a little-endian processor.
abbrev pub htons : ℕ → ℕ
htons x = x % 256 * 256 + x / 256 % 256

-- The memory after `bytes` are put at `a`.
unfoldable pub overlay : Text → ℕ → Memory → Memory
overlay [] a m i = m i
overlay (x ∷ bytes) a m i = if i == a then x else overlay bytes (suc a) m i

-- The C string at `a`, if it ends within `n` bytes.
unfoldable pub text_at : ℕ → Memory → ℕ → Option Text
text_at zero m a = none
text_at (suc n) m a =
    let rest : Option Text = text_at n m (suc a) in
    if m a == 0 then some [] else Option.map (◌∷◌ (m a)) rest

-- `n = read(sockfd, buffer, 255*4096)`, by what it gives.
unfoldable pub receive : Option Text → Memory → Memory
receive none m = m
receive (some bytes) m = overlay (take read_bytes bytes) 0 m

-- One round of `while(1)`: `n` is not tested. A buffer without an end of string is printed beyond its end, to
-- which C gives no meaning.
unfoldable pub round : Option Text → Client → Outcome Client (Unit {0})
round given c =
    let buffer = receive given c.buffer in
    elim (text_at buffer_bytes buffer 0) [
      | some t ↦ done tt (say "%s\n" (str t ∷ []) (record c { buffer = buffer }))
      | none ↦ crashed
    ]

-- `rounds` rounds from round `r` on: the loop has no end, so `none` stands for its going on.
unfoldable pub read_loop : (ℕ → Option Text) → ℕ → ℕ → Client → Outcome Client (Option ℤ)
read_loop reads zero r = pure none
read_loop reads (suc rounds) r = do round (reads r); read_loop reads rounds (suc r)

unfoldable pub main : Net → ℕ → Text → Text → Text → ℕ → Client → Outcome Client (Option ℤ)
main n argc argv0 argv1 argv2 rounds c =
    if ltb argc 3
    then exited (pos 0) (say "usage %s hostname port\n" (str argv0 ∷ []) c)
    else if ltb_ℤ n.socket (pos 0)
    then error "ERROR opening socket" c
    else elim (n.host argv1) [
      | none ↦ exited (pos 0) (say "ERROR, no such host\n" [] c)
      | some address ↦
          if ltb_ℤ (n.connect address (htons (word32 (n.atoi argv2)))) (pos 0)
          then done (some (pos 1)) (say "connect" [] c)
          else read_loop n.reads rounds 0 c
    ]
