-- ===== src/Dma/Status/Laws.antt =====
-- The waiting loops: with what status they end, and for which engines they never do.
use rfsoc.Common.{
  ℕ, zero, suc, ◌/◌, ◌<◌, ◌≡◌, ◌∙◌, refl, sym, ◌⊎◌, inl, inr, true, false, not, ◌||◌, some, none,
  List, [], ◌∷◌, String, arith, Bool-cases,
}
use mathlib.Core.Path.{subst}
use rfsoc.Common.Int.{pos}
use rfsoc.Common.Program.{int, done, >>=-done, >>=-eq-done, ◌>>=◌, ◌>>◌}
use rfsoc.Dma.Device.{printf, Engine, Host, dma_get, mm2s_sr, s2mm_sr}
use rfsoc.Dma.Status.{
  has, status_words, print_words, print_status, dma_s2mm_status, dma_mm2s_status, sync, sync_round,
  sync_loop, dma_mm2s_sync, dma_s2mm_sync,
}

-- Idle, and with the interrupt of a complete transfer: what both loops wait for.
abbrev pub IsComplete : ℕ → Type 0
IsComplete status = (has status 0x1000 ≡ true) × (has status 0x2 ≡ true)

abbrev pub IsBusy : ℕ → Type 0
IsBusy status = (not (has status 0x1000) || not (has status 0x2)) ≡ true

-- The loop's condition is the negation of it.
pub IsComplete-or_IsBusy : (status : ℕ) → IsComplete status ⊎ IsBusy status
IsComplete-or_IsBusy status = elim (Bool-cases (has status 0x1000)) [
  | inl y ↦ elim (Bool-cases (has status 0x2)) [ inl z ↦ inl (y, z) | inr z ↦ inr (rw (y, z)) ]
  | inr y ↦ inr (rw y)
]

module _ (e : Engine) where
  print_words_done :
      (ws : List String) (h : Host e.State)
      → (h' : Host e.State) × (print_words e ws h ≡ done tt h') × (h'.engine ≡ h.engine)
  unfolding print_words
  print_words_done [] h = (h, refl, refl)
  print_words_done (w ∷ ws) h =
      let (h', p, q) =
        print_words_done ws (record h { console = record { format = w; args = [] } ∷ h.console }) in
      (h', p, q)

  -- A complete status leaves the loop at once.
  pub sync_loop_complete :
      (fuel register status : ℕ) (h : Host e.State)
      → IsComplete status
      → sync_loop e (suc fuel) register status h ≡ done (some status) h
  unfolding sync_loop
  sync_loop_complete fuel register status h c = rw (c.0, c.1)

  -- Any other status goes round.
  pub sync_loop_busy :
      (fuel register status : ℕ) (h : Host e.State)
      → IsBusy status
      → sync_loop e (suc fuel) register status h
        ≡ (sync_round e register >>= sync_loop e fuel register) h
  unfolding sync_loop
  sync_loop_busy fuel register status h b = rw b

  -- The waiting loop is left with a complete status only.
  sync_loop_returns :
      (fuel register status : ℕ) (h h' : Host e.State) (status' : ℕ)
      → sync_loop e fuel register status h ≡ done (some status') h'
      → IsComplete status'
  unfolding sync_loop
  sync_loop_returns zero register status h h' status' r = absurd (ground arith)
  sync_loop_returns (suc fuel) register status h h' status' r = elim (IsComplete-or_IsBusy status) [
    | inl c ↦
        let q = sym (sync_loop_complete fuel register status h c) ∙ r in
        let eq : status ≡ status' = cc q in subst IsComplete eq c
    | inr b ↦
        let (m, t, p, q) =
          >>=-eq-done (sync_round e register) (sync_loop e fuel register) h
            (sym (sync_loop_busy fuel register status h b) ∙ r) in
        sync_loop_returns fuel register m t h' status' q
  ]

  -- One round reads both statuses to print them and then the channel's own; what is printed leaves
  -- the engine alone.
  abbrev pub polled : ℕ → e.State → ℕ × e.State
  polled register s = e.read (register / 4) (e.read (mm2s_sr / 4) (e.read (s2mm_sr / 4) s).1).1

  pub print_status_lem :
      (heading : String) (register : ℕ) (h : Host e.State)
      → (h' : Host e.State) × (print_status e heading register h ≡ done tt h')
        × (h'.engine ≡ (e.read (register / 4) h.engine).1)
  unfolding print_status dma_get
  print_status_lem heading register h =
      let (value, t) = e.read (register / 4) h.engine in
      let first = record h {
        engine = t;
        console =
            record { format = heading; args = int (pos value) ∷ int (pos register) ∷ [] }
            ∷ h.console;
      } in
      let (h', p, q) = print_words_done (status_words value) first in
      (
        record h' { console = record { format = "\n"; args = [] } ∷ h'.console },
        >>=-done (print_words e (status_words value)) (λ _. printf "\n" []) p,
        q,
      )

  pub sync_round_lem :
      (register : ℕ) (h : Host e.State)
      → (h' : Host e.State) × (sync_round e register h ≡ done (polled register h.engine).0 h')
        × (h'.engine ≡ (polled register h.engine).1)
  unfolding dma_get sync_round dma_s2mm_status dma_mm2s_status
  sync_round_lem register h =
      let (h1, p, q) =
        print_status_lem "Stream to memory-mapped status (0x%08x@0x%02x):" s2mm_sr h in
      let (h2, r, s) =
        print_status_lem "Memory-mapped to stream status (0x%08x@0x%02x):" mm2s_sr h1 in
      let same : h2.engine ≡ (e.read (mm2s_sr / 4) (e.read (s2mm_sr / 4) h.engine).1).1 =
        rw (s, q) in
      (
        record h2 { engine = (e.read (register / 4) h2.engine).1 },
        >>=-done (dma_s2mm_status e) (λ _. dma_mm2s_status e >> dma_get e register) p
            ∙ >>=-done (dma_mm2s_status e) (λ _. dma_get e register) r
            ∙ rw same,
        rw same,
      )

  -- The engine settles in so many rounds: a read of the register shows a complete status; or the engine that is
  -- left by this read and by the two reads of the channels' statuses settles in one round less.
  pub data Settles (register : ℕ) : ℕ → e.State → Type 0 where
    now : (s : e.State) → IsComplete ((e.read (register / 4) s).0) → Settles register zero s
    later :
        (n : ℕ) (s : e.State)
        → Settles register n
            (e.read (mm2s_sr / 4) (e.read (s2mm_sr / 4) (e.read (register / 4) s).1).1).1
        → Settles register (suc n) s

  sync_loop-Settles :
      (fuel register n : ℕ) (s : e.State) (h : Host e.State)
      → h.engine ≡ (e.read (register / 4) s).1
      → Settles register n s
      → n < fuel
      → (status : ℕ) × (h' : Host e.State) × (sync_loop e fuel register
            (e.read (register / 4) s).0
            h
          ≡ done (some status) h')
        × IsComplete status
  sync_loop-Settles zero register n s h e' x lt = absurd (omega arith)
  sync_loop-Settles (suc fuel) register _ s h e' (now _ c) lt =
      ((e.read (register / 4) s).0, h, sync_loop_complete fuel register _ h c, c)
  sync_loop-Settles (suc fuel) register _ s h e' (later n _ x) lt =
      elim (IsComplete-or_IsBusy ((e.read (register / 4) s).0)) [
        | inl c ↦ ((e.read (register / 4) s).0, h, sync_loop_complete fuel register _ h c, c)
        | inr b ↦
            let (h1, p, q) = sync_round_lem register h in
            let next =
              (e.read (mm2s_sr / 4) (e.read (s2mm_sr / 4) (e.read (register / 4) s).1).1).1 in
            let shows : (polled register h.engine).0 ≡ (e.read (register / 4) next).0 =
              rw e' refl in
            let left : h1.engine ≡ (e.read (register / 4) next).1 = q ∙ rw e' refl in
            let (status, h2, r, c) =
              sync_loop-Settles fuel register n next h1 left x (omega arith) in
            (
              status,
              h2,
              sync_loop_busy fuel register _ h b
                  ∙ >>=-done (sync_round e register) (sync_loop e fuel register) p
                  ∙ rw shows r,
              c,
            )
      ]

  -- An engine that can no longer complete a transfer: in the states `Halted` every status read of
  -- the channel lacks the interrupt of a complete transfer, and no read leaves those states.
  pub record IsHalted (register : ℕ) (Halted : e.State → Type 0) : Type 0 where
    pub stays : (offset : ℕ) (s : e.State) → Halted s → Halted ((e.read offset s).1)
    pub lacks : (s : e.State) → Halted s → has ((e.read (register / 4) s).0) 0x1000 ≡ false

  sync_loop_halted :
      (fuel register status : ℕ) (h : Host e.State) {Halted : e.State → Type 0}
      → IsHalted register Halted
      → Halted h.engine
      → has status 0x1000 ≡ false
      → (h' : Host e.State) × (sync_loop e fuel register status h ≡ done none h')
  unfolding sync_loop
  sync_loop_halted zero register status h halted x lacks = (h, refl)
  sync_loop_halted (suc fuel) register status h {Halted} halted x lacks =
      let (h1, p, q) = sync_round_lem register h in
      let before = halted.stays (mm2s_sr / 4) _ (halted.stays (s2mm_sr / 4) h.engine x) in
      let (h2, r) =
        sync_loop_halted fuel register (polled register h.engine).0 h1 halted
          (subst Halted (sym q) (halted.stays (register / 4) _ before)) (halted.lacks _ before) in
      (
        h2,
        sync_loop_busy fuel register status h (rw lacks)
            ∙ >>=-done (sync_round e register) (sync_loop e fuel register) p
            ∙ r,
      )

  -- If the engine settles in fewer rounds than the fuel, where a round is the reads of the two channels' statuses
  -- and then of the register waited for: the wait for the channel to the memory returns, with a status that
  -- has both bits, 12 and 1.
  pub dma_s2mm_sync-Settles :
      (fuel n : ℕ) (h : Host e.State)
      → Settles s2mm_sr n h.engine
      → n < fuel
      → (status : ℕ) × (h' : Host e.State) × (dma_s2mm_sync e fuel h ≡ done (some status) h')
        × IsComplete status
  unfolding dma_s2mm_sync sync dma_get
  dma_s2mm_sync-Settles fuel n h s lt = sync_loop-Settles fuel s2mm_sr n h.engine _ refl s lt

  -- Whenever one of the two waits returns, whatever the engine did meanwhile, the last status that
  -- it read has both bits, 12 and 1.
  pub dma_sync_returns :
      (fuel : ℕ) (h h' : Host e.State) (status : ℕ)
      → (dma_s2mm_sync e fuel h ≡ done (some status) h')
        ⊎ (dma_mm2s_sync e fuel h ≡ done (some status) h')
      → IsComplete status
  unfolding dma_s2mm_sync dma_mm2s_sync sync dma_get
  dma_sync_returns fuel h h' status (inl r) = sync_loop_returns fuel s2mm_sr _ _ h' status r
  dma_sync_returns fuel h h' status (inr r) = sync_loop_returns fuel mm2s_sr _ _ h' status r

  -- Once the engine is in a state from which no status of the channel to the memory shows the
  -- interrupt of a complete transfer, the wait for it never ends: no amount of fuel is enough.
  pub dma_s2mm_sync_halted :
      (fuel : ℕ) (h : Host e.State) (Halted : e.State → Type 0)
      → IsHalted s2mm_sr Halted
      → Halted h.engine
      → (h' : Host e.State) × (dma_s2mm_sync e fuel h ≡ done none h')
  unfolding dma_s2mm_sync sync dma_get
  dma_s2mm_sync_halted fuel h Halted halted x =
      sync_loop_halted fuel s2mm_sr _ _ halted (halted.stays (s2mm_sr / 4) h.engine x)
        (halted.lacks h.engine x)
