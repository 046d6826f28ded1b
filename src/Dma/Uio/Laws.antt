-- ===== src/Dma/Uio/Laws.antt =====
-- What otro_dma.c writes to the engine and what it prints at the end.
use rfsoc.Common.{
  ℕ, zero, suc, ◌+◌, ◌/◌, ◌<◌, ◌≡◌, ◌∙◌, refl, String, true, false, some, List, [], ◌∷◌, ◌++◌, ltb,
  ◌==◌, arith,
}
use rfsoc.Common.Int.{pos, ltb_ℤ, signed32}
use rfsoc.Common.Program.{done, int, Line, ◌>>=◌, ◌>>◌}
use rfsoc.Dma.Device.{Engine, Host}
use rfsoc.Dma.Programs.Laws.{recorded}
use rfsoc.Dma.Writes.{Writes, Writes->>}
use rfsoc.Dma.Uio.{
  Calls, Process, move_size, set_register, print_status, start_channel, start_s2mm, start_mm2s,
  fill, wait_interrupt, compare, move, run_transfer, main,
}

-- The process beside an engine that has a log.
abbrev pub beside_log : {S : Type 0} → Process S → Process (S × List (ℕ × ℕ))
beside_log p = record {
  load = λ a s. p.load a s.0;
  store = λ a b s. (p.store a b s.0, s.1);
  wait = λ s. (p.wait s.0, s.1);
  acknowledge = λ s. (p.acknowledge s.0, s.1);
}

-- The lines for `n` pairs of bytes from `i` on, the newest first, before what was printed already.
abbrev pub byte_lines : (ℕ → ℕ) → ℕ → ℕ → ℕ → ℕ → List Line → List Line
byte_lines m out_buff in_buff zero i ls = ls
byte_lines m out_buff in_buff (suc n) i ls = byte_lines m out_buff in_buff n (suc i) (
    record {
      format = "expected: %d, received: %d\n";
      args = int (pos (m (out_buff + i))) ∷ int (pos (m (in_buff + i))) ∷ [];
    }
    ∷ ls)

-- The writes that start a channel, the last one first.
abbrev pub channel_writes : ℕ → ℕ → ℕ → ℕ → ℕ → List (ℕ × ℕ)
channel_writes cr address msb length buffer =
    (cr / 4, 0x1001)
    ∷ (length / 4, 10)
    ∷ (msb / 4, 0)
    ∷ (address / 4, buffer)
    ∷ (cr / 4, 0x1000)
    ∷ (cr / 4, 0x4)
    ∷ []

-- The state when the size and the address of the mapping are printed.
abbrev pub announced : {S : Type 0} → Calls → Host S → Host S
announced c h = record h {
  console =
      record { format = "baseAddress: %d\n"; args = int (signed32 (c.mmap c.uio_size)) ∷ [] }
      ∷ record { format = "uioSize: %d\n"; args = int (signed32 c.uio_size) ∷ [] }
      ∷ h.console;
}

module _ (e : Engine) where
  Writes-set_register :
      (offset value : ℕ)
      → Writes e (set_register (recorded e) offset value) ((offset / 4, value) ∷ [])
  unfolding set_register
  Writes-set_register offset value = record { run = λ h. (tt, _, refl, refl) }

  Writes-print_status :
      (format : String) (offset : ℕ) → Writes e (print_status (recorded e) format offset) []
  unfolding print_status
  Writes-print_status format offset = record { run = λ h. (tt, _, refl, refl) }

  Writes-start_channel :
      (format : String) (cr sr address msb length buffer : ℕ)
      → Writes e
          (start_channel (recorded e) format cr sr address msb length buffer)
          (channel_writes cr address msb length buffer)
  unfolding start_channel
  Writes-start_channel format cr sr address msb length buffer =
      let set : (o v : ℕ) → Writes e (set_register (recorded e) o v) ((o / 4, v) ∷ []) =
        Writes-set_register in
      let stat = Writes-print_status format sr in
      Writes->> e (set cr 0x4) (
        Writes->> e stat (
          Writes->> e (set cr 0x1000) (
            Writes->> e stat (
              Writes->> e (set address buffer) (
                Writes->> e (set msb 0)
                  (Writes->> e (set length move_size) (Writes->> e (set cr 0x1001) stat)))))))

  module _ (p : Process e.State) where
    Writes-wait_interrupt : Writes e (wait_interrupt (recorded e) (beside_log p)) []
    unfolding wait_interrupt
    Writes-wait_interrupt =
        let both : Writes e _ [] =
          Writes->> e (Writes-print_status "S2MM: %d\n" 0x34)
            (Writes-print_status "MM2S: %d\n" 0x4) in
        record { run = λ h. both.run _ }

    pub Writes-move :
        (out_buff in_buff : ℕ)
        → Writes e (move (recorded e) (beside_log p) out_buff in_buff) (
            channel_writes 0x0 0x18 0x1C 0x28 out_buff
            ++ channel_writes 0x30 0x48 0x4C 0x58 in_buff)
    unfolding move start_s2mm start_mm2s
    Writes-move out_buff in_buff =
        Writes->> e (Writes-start_channel "S2MM: %d\n" 0x30 0x34 0x48 0x4C 0x58 in_buff) (
          Writes->> e (Writes-start_channel "MM2S: %d\n" 0x0 0x4 0x18 0x1C 0x28 out_buff)
            Writes-wait_interrupt)

    pub Writes-fill :
        (out_buff n i : ℕ) → Writes e (fill (recorded e) (beside_log p) out_buff n i) []
    unfolding fill
    Writes-fill out_buff zero i = record { run = λ h. (tt, h, refl, refl) }
    Writes-fill out_buff (suc n) i = record { run = λ h. (Writes-fill out_buff n (suc i)).run _ }

    compare_lem :
        (out_buff in_buff n i : ℕ) (h : Host (recorded e).State)
        → compare (recorded e) (beside_log p) out_buff in_buff n i h
          ≡ done tt (record h {
            console = byte_lines (λ a. p.load a h.engine.0) out_buff in_buff n i h.console;
          })
    unfolding compare
    compare_lem out_buff in_buff zero i h = refl
    compare_lem out_buff in_buff (suc n) i h = compare_lem out_buff in_buff n (suc i) _

    -- If the device opens, `fopen` returns a pointer that is not null, neither `malloc` gives a null pointer and
    -- the registers are mapped, then, whatever the engine answers, `main` returns `errno`. It has written the
    -- engine's registers twelve times, first those of the channel that receives and then those of the channel
    -- that sends: the channel is reset (4), gets 0x1000, the address of its buffer in the process, 0 for the
    -- upper half and the length 10, and only then is it started (0x1001), whereas the other programs write the
    -- length last. The last ten lines that are printed pair the bytes of the two buffers as the memory is then.
    pub main_moves :
        (c : Calls) (size_fd : ℕ) (h : Host (recorded e).State)
        → ltb_ℤ c.uio_fd (pos 0) ≡ false
        → c.fopen ≡ some size_fd
        → 0 < size_fd
        → 0 < c.out_buff
        → 0 < c.in_buff
        → c.maps ≡ true
        → (h' : Host (recorded e).State) × (ls : List Line) × (main (recorded e) (beside_log p) c h
            ≡ done c.errno h')
          × (h'.engine.1
              ≡ channel_writes 0x0 0x18 0x1C 0x28 c.out_buff
                ++ channel_writes 0x30 0x48 0x4C 0x58 c.in_buff
                ++ h.engine.1)
          × (h'.console ≡ byte_lines (λ a. p.load a h'.engine.0) c.out_buff c.in_buff 10 0 ls)
    unfolding main run_transfer
    main_moves c size_fd h opens found file out inn maps =
        let h1 = announced c h in
        let (a, h2, r, w) = (Writes-fill c.out_buff move_size 0).run h1 in
        let (b, h3, s, v) = (Writes-move c.out_buff c.in_buff).run h2 in
        let z : ltb size_fd 0 ≡ false = ground arith in
        let f : (size_fd == 0) ≡ false = ground arith in
        let o : (c.out_buff == 0) ≡ false = ground arith in
        let i : (c.in_buff == 0) ≡ false = ground arith in
        let h4 : Host (recorded e).State = record h3 {
          console = byte_lines (λ a. p.load a h3.engine.0) c.out_buff c.in_buff 10 0 h3.console;
        } in
        (
          h4,
          h3.console,
          rw
              (
                opens,
                found,
                z,
                f,
                o,
                ◌>>◌,
                ◌>>=◌,
                r,
                maps,
                s,
                i,
                compare_lem c.out_buff c.in_buff 10 0 h3,
              )
              refl,
          v ∙ rw w refl,
          refl,
        )
