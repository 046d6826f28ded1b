-- ===== src/Stream/Client/Laws.antt =====
-- What the client for Linux prints of the bytes that it reads.
use rfsoc.Common.{
  ℕ, zero, suc, ◌+◌, ◌<◌, ◌≤◌, ◌≡◌, ◌≢◌, ◌∙◌, refl, sym, ap, ◌⊎◌, inl, inr, true, false, Option,
  none, some, List, [], ◌∷◌, length, take_all, ◌==◌, arith,
}
use rfsoc.Common.Int.{ℤ, pos, ltb_ℤ, word32}
use rfsoc.Common.Memory.{Memory}
use rfsoc.Common.Text.{Text}
use rfsoc.Common.Program.{done, str, Line, >>=-eq-done, ◌>>=◌, ◌>>◌}
use rfsoc.Stream.Client.{
  Client, Net, htons, error, main, buffer_bytes, read_bytes, say, overlay, text_at, receive, round,
  read_loop,
}
use rfsoc.Stream.Client.Windows.{drop_loop}

text_at_same :
    (n : ℕ) (m m' : Memory) (a : ℕ)
    → ((i : ℕ) → a ≤ i → m i ≡ m' i)
    → text_at n m a ≡ text_at n m' a
unfolding text_at
text_at_same zero m m' a h = refl
text_at_same (suc n) m m' a h =
    rw (h a (omega arith), text_at_same n m m' (suc a) (λ i l. h i (omega arith))) refl

overlay_head : (x : ℕ) (bytes : Text) (a : ℕ) (m : Memory) → overlay (x ∷ bytes) a m a ≡ x
unfolding overlay
overlay_head x bytes a m = ground arith

overlay_tail :
    (n x : ℕ) (bytes : Text) (a : ℕ) (m : Memory)
    → text_at n (overlay (x ∷ bytes) a m) (suc a) ≡ text_at n (overlay bytes (suc a) m) (suc a)
unfolding overlay
overlay_tail n x bytes a m = text_at_same n _ _ (suc a) (λ i l. ground arith)

-- One byte that is not 0, and the string after it.
text_at_next :
    (n : ℕ) (m : Memory) (a : ℕ) (t : Text)
    → 0 < m a
    → text_at n m (suc a) ≡ some t
    → text_at (suc n) m a ≡ some (m a ∷ t)
unfolding text_at
text_at_next n m a t l h = let z : (m a == 0) ≡ false = ground arith in rw (z, h) refl

text_at_end : (n : ℕ) (m : Memory) (a : ℕ) → m a ≡ 0 → text_at (suc n) m a ≡ some []
unfolding text_at
text_at_end n m a e = rw e refl

-- The client after a round that puts `bytes` into the buffer and prints `t`.
abbrev pub shown : Text → Text → Client → Client
shown bytes t c = say "%s\n" (str t ∷ []) (record c { buffer = overlay bytes 0 c.buffer })

pub round_lem :
    (given : Option Text) (m : Memory) (t : Text) (c : Client)
    → receive given c.buffer ≡ m
    → text_at buffer_bytes m 0 ≡ some t
    → round given c ≡ done tt (say "%s\n" (str t ∷ []) (record c { buffer = m }))
unfolding round
round_lem given m t c e h = rw (round, e, h, e) refl

round_shows :
    (bytes t : Text) (c : Client)
    → length bytes ≤ read_bytes
    → text_at buffer_bytes (overlay bytes 0 c.buffer) 0 ≡ some t
    → round (some bytes) c ≡ done tt (shown bytes t c)
unfolding receive
round_shows bytes t c l h =
    round_lem (some bytes) _ t c (ap (λ x. overlay x 0 c.buffer) (take_all read_bytes bytes l)) h

-- What a round prints of a block, with the string that stands behind it in the buffer: the bytes up to the first
-- 0, or the block and the string.
abbrev pub until_zero : Text → Text → Text
until_zero [] old = old
until_zero (zero ∷ bytes) old = []
until_zero (suc x ∷ bytes) old = suc x ∷ until_zero bytes old

text_at_until :
    (bytes old : Text) (n k a b : ℕ) (m : Memory)
    → k ≡ length bytes + n
    → b ≡ length bytes + a
    → text_at n m b ≡ some old
    → text_at k (overlay bytes a m) a ≡ some (until_zero bytes old)
unfolding overlay
text_at_until [] old n k a b m e d h =
    let e' : k ≡ n = omega (arith, e) in let d' : a ≡ b = omega (arith, d) in rw (e', d') h
text_at_until (x ∷ bytes) old n zero a b m e d h = absurd (omega (arith, e))
text_at_until (zero ∷ bytes) old n (suc k) a b m e d h =
    text_at_end k _ a (overlay_head 0 bytes a m)
text_at_until (suc x ∷ bytes) old n (suc k) a b m e d h =
    let s = overlay_head (suc x) bytes a m in
    text_at_next k _ a (until_zero bytes old) (omega (arith, s)) (
      overlay_tail k (suc x) bytes a m
      ∙ text_at_until bytes old n k (suc a) b m (omega (arith, e)) (omega (arith, d)) h)
    ∙ ap (λ y. some (y ∷ until_zero bytes old)) s

-- If a `read` gives a block of at most 255 * 4096 bytes, and behind its length the buffer holds a string: the round
-- puts the block into the buffer and prints the bytes of the block before its first 0, or, if it has none,
-- the whole block and then the string that was left behind it.
pub round_prints :
    (bytes old : Text) (n : ℕ) (c : Client)
    → length bytes ≤ read_bytes
    → length bytes + n ≡ buffer_bytes
    → text_at n c.buffer (length bytes) ≡ some old
    → round (some bytes) c ≡ done tt (shown bytes (until_zero bytes old) c)
round_prints bytes old n c l e h =
    round_shows bytes (until_zero bytes old) c l
      (text_at_until bytes old n buffer_bytes 0 (length bytes) c.buffer (sym e) (omega arith) h)

-- `n` times the same line.
abbrev pub repeated : ℕ → Text → List Line → List Line
repeated zero t ls = ls
repeated (suc n) t ls = repeated n t (record { format = "%s\n"; args = str t ∷ [] } ∷ ls)

round_idle :
    (given : Option Text) (t : Text) (c : Client)
    → (given ≡ some []) ⊎ (given ≡ none)
    → text_at buffer_bytes c.buffer 0 ≡ some t
    → round given c ≡ done tt (say "%s\n" (str t ∷ []) c)
unfolding receive overlay
round_idle given t c (inl e) h = round_lem given c.buffer t c (rw e refl) h
round_idle given t c (inr e) h = round_lem given c.buffer t c (rw e refl) h

-- Once the server has closed the connection, or the reads fail, from round `r` on, the client does not stop:
-- each of the next `n` rounds prints the string in the buffer once more, and it goes on.
pub read_loop_repeats :
    (reads : ℕ → Option Text) (n r : ℕ) (t : Text) (c : Client)
    → ((k : ℕ) → r ≤ k → (reads k ≡ some []) ⊎ (reads k ≡ none))
    → text_at buffer_bytes c.buffer 0 ≡ some t
    → read_loop reads n r c ≡ done none (record c { console = repeated n t c.console })
unfolding read_loop
read_loop_repeats reads zero r t c closed h = refl
read_loop_repeats reads (suc n) r t c closed h =
    rw (◌>>◌, ◌>>=◌, round_idle (reads r) t c (closed r (omega arith)) h)
      (read_loop_repeats reads n (suc r) t _ (λ k l. closed k (omega arith)) h)

read_loop_goes_on :
    (reads : ℕ → Option Text) (n r : ℕ) (c c' : Client) (z : ℤ)
    → read_loop reads n r c ≢ done (some z) c'
unfolding read_loop
read_loop_goes_on reads zero r c c' z h = ground (arith, h)
read_loop_goes_on reads (suc n) r c c' z h =
    let (a, u, p, q) = >>=-eq-done (round (reads r)) (λ _. read_loop reads n (suc r)) c h in
    read_loop_goes_on reads n (suc r) u c' z q

-- `main` returns in one case only: there are two arguments, the socket and the host are found, and `connect`
-- fails. It then returns 1.
pub main_returns :
    (n : Net) (argc : ℕ) (argv0 argv1 argv2 : Text) (rounds : ℕ) (c c' : Client) (z : ℤ)
    → main n argc argv0 argv1 argv2 rounds c ≡ done (some z) c'
    → (z ≡ pos 1)
      × (3 ≤ argc)
      × (ltb_ℤ n.socket (pos 0) ≡ false)
      × (address : Text) × (n.host argv1 ≡ some address)
      × (ltb_ℤ (n.connect address (htons (word32 (n.atoi argv2)))) (pos 0) ≡ true)
unfolding main error
main_returns n argc argv0 argv1 argv2 rounds c c' z h =
    ground (arith, h, read_loop_goes_on n.reads rounds 0 c c' z)

-- After any number of rounds the client for Windows goes on, and has printed nothing of what it received.
pub drop_loop_silent :
    (reads : ℕ → Option Text) (n r : ℕ) (c : Client)
    → (c' : Client) × (drop_loop reads n r c ≡ done none c') × (c'.console ≡ c.console)
unfolding drop_loop
drop_loop_silent reads zero r c = (c, refl, refl)
drop_loop_silent reads (suc n) r c = drop_loop_silent reads n (suc r) _
