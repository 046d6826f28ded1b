-- ===== src/Dma/Uio.antt =====
-- projects/dma_lauri/otro_dma.c, which reaches the engine through /dev/uio0 and moves ten bytes through
-- both of its channels.
pub mod Laws
pub mod Crash
use rfsoc.Common.{
  ℕ, zero, suc, ◌+◌, ◌/◌, ◌≡◌, String, Bool, true, false, Option, none, some, [], ◌∷◌, ltb, ◌==◌,
  if◌then◌else◌,
}
use rfsoc.Common.Int.{ℤ, pos, ltb_ℤ, signed32}
use rfsoc.Common.Program.{Outcome, done, crashed, int, pure, ◌>>=◌, ◌>>◌}
use rfsoc.Dma.Device.{Engine, Host, printf}

-- What the calls of `main` give. `fopen` gets a null pointer for the mode (`O_RDONLY` is 0): `none` means that
-- it crashes on that, `some p` that it returns the pointer `p`. `uio_size` is what `uioSize` holds after
-- `fscanf`, and `errno` the number that `main` returns.
pub record Calls : Type 0 where
  pub uio_fd : ℤ
  pub fopen : Option ℕ
  pub uio_size : ℕ
  pub mmap : ℕ → ℕ
  pub maps : Bool
  pub out_buff : ℕ
  pub in_buff : ℕ
  pub errno : ℤ

-- The process's bytes by address, and the read and the write of /dev/uio0: the first returns when the engine
-- has interrupted.
pub record Process (S : Type 0) : Type 0 where
  pub load : ℕ → S → ℕ
  pub store : ℕ → ℕ → S → S
  pub wait : S → S
  pub acknowledge : S → S

abbrev pub mm2s_dmacr : ℕ
mm2s_dmacr = 0x0

abbrev pub mm2s_dmasr : ℕ
mm2s_dmasr = 0x4

abbrev pub mm2s_sa : ℕ
mm2s_sa = 0x18

abbrev pub mm2s_sa_msb : ℕ
mm2s_sa_msb = 0x1C

abbrev pub mm2s_length : ℕ
mm2s_length = 0x28

abbrev pub s2mm_dmacr : ℕ
s2mm_dmacr = 0x30

abbrev pub s2mm_dmasr : ℕ
s2mm_dmasr = 0x34

abbrev pub s2mm_da : ℕ
s2mm_da = 0x48

abbrev pub s2mm_da_msb : ℕ
s2mm_da_msb = 0x4C

abbrev pub s2mm_length : ℕ
s2mm_length = 0x58

abbrev pub move_size : ℕ
move_size = 10

module _ (e : Engine) where
  -- `*((volatile unsigned long *) (baseAddress + offset)) = value`.
  unfoldable pub set_register : ℕ → ℕ → Host e.State → Outcome (Host e.State) (Unit {0})
  set_register offset value h = done tt (record h { engine = e.write (offset / 4) value h.engine })

  -- A status register, read into an `int` and printed.
  unfoldable pub print_status : String → ℕ → Host e.State → Outcome (Host e.State) (Unit {0})
  print_status format offset h =
      let (value, s) = e.read (offset / 4) h.engine in
      printf format (int (signed32 value) ∷ []) (record h { engine = s })

  -- The start of the channel whose registers stand from `cr` on, which moves `length` bytes at `buffer`.
  unfoldable pub start_channel :
      String → ℕ → ℕ → ℕ → ℕ → ℕ → ℕ → Host e.State → Outcome (Host e.State) (Unit {0})
  start_channel format cr sr address msb length buffer = do
    set_register cr 0x4
    print_status format sr
    set_register cr 0x1000
    print_status format sr
    set_register address buffer
    set_register msb 0
    set_register length move_size
    set_register cr 0x1001
    print_status format sr

  unfoldable pub start_s2mm : ℕ → Host e.State → Outcome (Host e.State) (Unit {0})
  start_s2mm = start_channel "S2MM: %d\n" s2mm_dmacr s2mm_dmasr s2mm_da s2mm_da_msb s2mm_length

  unfoldable pub start_mm2s : ℕ → Host e.State → Outcome (Host e.State) (Unit {0})
  start_mm2s = start_channel "MM2S: %d\n" mm2s_dmacr mm2s_dmasr mm2s_sa mm2s_sa_msb mm2s_length

  module _ (p : Process e.State) where
    -- `outBuff[i] = i`, for `n` bytes from `i` on.
    unfoldable pub fill : ℕ → ℕ → ℕ → Host e.State → Outcome (Host e.State) (Unit {0})
    fill out_buff zero i h = done tt h
    fill out_buff (suc n) i h =
        fill out_buff n (suc i) (record h { engine = p.store (out_buff + i) i h.engine })

    -- `read(uioFd, ...)` and `write(uioFd, ...)`, and the statuses after them.
    unfoldable pub wait_interrupt : Host e.State → Outcome (Host e.State) (Unit {0})
    wait_interrupt h =
        (do print_status "S2MM: %d\n" s2mm_dmasr; print_status "MM2S: %d\n" mm2s_dmasr)
          (record h { engine = p.acknowledge (p.wait h.engine) })

    -- The pairs of bytes that are printed at the end, `n` of them from `i` on.
    unfoldable pub compare : ℕ → ℕ → ℕ → ℕ → Host e.State → Outcome (Host e.State) (Unit {0})
    compare out_buff in_buff zero i = pure tt
    compare out_buff in_buff (suc n) i = do
      (λ h.
          printf "expected: %d, received: %d\n"
            (int (pos (p.load (out_buff + i) h.engine))
              ∷ int (pos (p.load (in_buff + i) h.engine))
              ∷ [])
            h)
      compare out_buff in_buff n (suc i)

    -- From the first access of a register to the statuses after the interrupt.
    unfoldable pub move : ℕ → ℕ → Host e.State → Outcome (Host e.State) (Unit {0})
    move out_buff in_buff = do start_s2mm in_buff; start_mm2s out_buff; wait_interrupt

    -- From the `fscanf` of the file at `size_fd` on. An access through a null pointer crashes, and so does the
    -- first one of a register if the mapping has failed.
    unfoldable pub run_transfer : Calls → ℕ → Host e.State → Outcome (Host e.State) ℤ
    run_transfer c size_fd = if size_fd == 0 then (λ h. crashed) else (do
      printf "uioSize: %d\n" (int (signed32 c.uio_size) ∷ [])
      printf "baseAddress: %d\n" (int (signed32 (c.mmap c.uio_size)) ∷ [])
      if c.out_buff == 0 then (λ h. crashed) else fill c.out_buff move_size 0
      if c.maps then move c.out_buff c.in_buff else (λ h. crashed)
      if c.in_buff == 0 then (λ h. crashed) else compare c.out_buff c.in_buff move_size 0
      pure c.errno)

    unfoldable pub main : Calls → Host e.State → Outcome (Host e.State) ℤ
    main c =
        if ltb_ℤ c.uio_fd (pos 0) then (do printf "uio open:" []; pure c.errno) else elim c.fopen [
          | none ↦ λ h. crashed
          | some size_fd ↦
              if ltb size_fd 0
              then (do printf "uio size access" []; pure c.errno)
              else run_transfer c size_fd
        ]
