-- ===== src/Dma/Buffers/Start.antt =====
-- What a busy bus prevents.
use rfsoc.Common.{
  ℕ, ◌≡◌, refl, inl, inr, Bool, true, false, List, [], ◌∷◌, ◌==◌, bit_and, bit_or, if◌then◌else◌,
  Bool-cases,
}
use rfsoc.Common.Bits.{not32}
use rfsoc.Common.Program.{done, ◌>>=◌, ◌>>◌}
use rfsoc.Dma.Device.{Host}
use rfsoc.Dma.Buffers.{Macros, Machine, Calls, get, put, start}

-- A machine with a log of the writes to its registers, newest first.
abbrev pub noted : Machine → Machine
noted c = record {
  State = c.State × List (ℕ × ℕ);
  read = λ offset s. let (value, t) = c.read offset s.0 in (value, (t, s.1));
  write = λ offset value s. (c.write offset value s.0, (offset, value) ∷ s.1);
  poke = λ a byte s. (c.poke a byte s.0, s.1);
  peek = λ s. c.peek s.0;
}

module _ (x : Macros) (c : Machine) (k : Calls) where
  -- On any hardware: a busy bus is answered by `false`, and then only the control register has been written,
  -- once; otherwise the last three writes are the source, the destination and the length, in this order.
  pub start_lem :
      (h : Host (c.State × List (ℕ × ℕ)))
      → (idle : Bool) × (t : Host (c.State × List (ℕ × ℕ))) × (control : ℕ) × (ws : List (ℕ × ℕ))
        × (start x (noted c) k h ≡ done idle t)
        × (t.engine.1 ≡ (
            if◌then◌else◌ idle
              ((x.btt_offset, 16)
                ∷ (x.dstaddr_offset, x.ddr_base_write_address)
                ∷ (x.srcaddr_offset, x.ddr_base_address)
                ∷ ws)
              ((x.cr_offset, control) ∷ h.engine.1)))
  unfolding start get put
  start_lem h =
      let m = noted c in
      let control = (m.read x.cr_offset h.engine).0 in
      let a2 : m.State =
        m.write x.cr_offset (bit_or control x.xr_irq_all_mask) (m.read x.cr_offset h.engine).1 in
      let status = (m.read x.sr_offset a2).0 in
      let a3 : m.State = (m.read x.sr_offset a2).1 in
      let mode = (m.read x.cr_offset a3).0 in
      let a4 : m.State = (m.read x.cr_offset a3).1 in
      let a5 : m.State = m.write x.cr_offset (bit_and mode (not32 x.cr_sgmode_mask)) a4 in
      let launch : m.State → m.State = λ a. m.write x.btt_offset 16 (
        m.write x.dstaddr_offset x.ddr_base_write_address
          (m.write x.srcaddr_offset x.ddr_base_address a)) in
      elim (Bool-cases (bit_and status x.sr_idle_mask == 0)) [
        | inl y ↦ (
          false,
          record h {
            engine = a3;
            console = record { format = "BUS IS BUSY Error Condition \n\r"; args = [] } ∷ h.console;
          },
          bit_or control x.xr_irq_all_mask,
          [],
          rw (y, ◌>>=◌, ◌>>◌) refl,
          refl,
        )
        | inr n ↦ elim (Bool-cases (bit_and mode x.cr_sgmode_mask == 0)) [
          | inl y ↦
              (true, record h { engine = launch a4 }, 0, a4.1, rw (n, ◌>>=◌, ◌>>◌, y) refl, refl)
          | inr z ↦ (
            true,
            record h {
              engine = launch a5;
              console = record { format = "Reading \n \r"; args = [] } ∷ h.console;
            },
            0,
            a5.1,
            rw (n, ◌>>=◌, ◌>>◌, z) refl,
            refl,
          )
        ]
      ]
