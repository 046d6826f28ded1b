-- ===== src/Dma/Module/Holds.antt =====
-- The parts of the kernel module by what they change of what it holds.
use rfsoc.Common.{
  ℕ, ◌-◌, ◌≡◌, ◌∙◌, refl, ap, Bool, true, false, List, [], ◌∷◌, ◌==◌, if◌then◌else◌, String,
}
use rfsoc.Common.Int.{ℤ, pos}
use rfsoc.Common.Text.{codes}
use rfsoc.Common.Program.{Outcome, done, Arg, str, int, >>=-done, ◌>>=◌, ◌>>◌, pure}
use rfsoc.Dma.Module.{
  Channel, tx, rx, Kernel, Held, Session, dma_length, printk, call, act, free, unmap,
  axidma_start_transfer, differs, run_transfer,
}

module _ (k : Kernel) where
  -- A part of the module that returns, and changes what is held by `f`.
  pub record Holds {ℓ} {A : Type ℓ} (m : Session k.State → Outcome (Session k.State) A)
      (f : Held → Held) : Type ℓ where
    pub run :
        (h : Session k.State)
        → (a : A) × (h' : Session k.State) × (m h ≡ done a h') × (h'.held ≡ f h.held)

  Holds->>= {ℓ κ} :
      {A : Type ℓ} {B : Type κ} {m : Session k.State → Outcome (Session k.State) A}
      {g : A → Session k.State → Outcome (Session k.State) B} {f f' : Held → Held}
      → Holds m f
      → ((a : A) → Holds (g a) f')
      → Holds (m >>= g) (λ x. f' (f x))
  Holds->>= {m = m} {g = g} {f' = f'} w v = record {
    run = λ h.
        let (a, h1, p, q) = w.run h in
        let (b, h2, r, s) = (v a).run h1 in (b, h2, >>=-done m g p ∙ r, s ∙ ap f' q);
  }

  Holds->> {ℓ κ} :
      {A : Type ℓ} {B : Type κ} {m : Session k.State → Outcome (Session k.State) A}
      {n : Session k.State → Outcome (Session k.State) B} {f f' : Held → Held}
      → Holds m f
      → Holds n f'
      → Holds (m >> n) (λ x. f' (f x))
  Holds->> w v = Holds->>= w (λ a. v)

  pub Holds-printk : (format : String) (args : List Arg) → Holds (printk format args) (λ x. x)
  Holds-printk format args = record { run = λ h. (tt, _, refl, refl) }

  Holds-call : {A : Type 0} (f : k.State → A × k.State) → Holds (call k f) (λ x. x)
  Holds-call f = record { run = λ h. (_, _, refl, refl) }

  Holds-act : (f : k.State → k.State) → Holds (act k f) (λ x. x)
  Holds-act f = record { run = λ h. (tt, _, refl, refl) }

  Holds-pure {ℓ} : {A : Type ℓ} (a : A) → Holds (pure a) (λ x. x)
  Holds-pure a = record { run = λ h. (a, h, refl, refl) }

  Holds-if {ℓ} :
      {A : Type ℓ} (b : Bool) {m n : Session k.State → Outcome (Session k.State) A}
      {f : Held → Held}
      → Holds m f
      → Holds n f
      → Holds (if b then m else n) f
  Holds-if true v w = v
  Holds-if false v w = w

  Holds-axidma_start_transfer :
      (c : Channel) (cookie : ℤ) (wait : Bool)
      → Holds (axidma_start_transfer k c cookie wait) (λ x. x)
  unfolding axidma_start_transfer
  Holds-axidma_start_transfer c cookie wait = Holds->> (Holds-act (k.init_completion c)) (
      Holds->> (Holds-act (k.issue_pending c)) (
        Holds-if wait
          (Holds->> (Holds-printk "Waiting for DMA to complete...\n" []) (
            Holds->>= (Holds-call (k.wait_for_completion_timeout c (k.msecs_to_jiffies 3000)))
              (λ timeout. Holds->>= (Holds-call (k.is_tx_complete c cookie)) (λ status.
                Holds-if (timeout == 0) (Holds-printk "DMA timed out\n" []) (
                  Holds-if (status == k.dma_complete) (Holds-pure tt) (
                    Holds-printk "DMA returned completion callback status of: %s\n" (
                      str (if status == k.dma_error then codes "error" else codes "in progress")
                      ∷ [])))))))
          (Holds-pure tt)))

  abbrev unmapped : Held → Held
  unmapped x = record x { mappings = x.mappings - 1 }

  abbrev freed : Held → Held
  freed x = record x { buffers = x.buffers - 1 }

  Holds-unmap : (c : Channel) (handle : ℕ) → Holds (unmap k c handle) unmapped
  unfolding unmap
  Holds-unmap c handle = record { run = λ h. (tt, _, refl, refl) }

  Holds-free : (a : ℕ) → Holds (free k a) freed
  unfolding free
  Holds-free a = record { run = λ h. (tt, _, refl, refl) }

  Holds-verify :
      (dest src : ℕ)
      → Holds
          (λ h.
            (if differs k dest src dma_length 0 h.kernel
                then printk "DMA transfer failure" []
                else pure tt)
              h)
          (λ x. x)
  Holds-verify dest src = record {
    run = λ h.
        (Holds-if (differs k dest src dma_length 0 h.kernel)
            (Holds-printk "DMA transfer failure" []) (Holds-pure tt)).run
          h;
  }

  pub Holds-run_transfer :
      (src dest tx_handle rx_handle : ℕ) (tx_cookie rx_cookie : ℤ)
      → Holds
          (run_transfer k src dest tx_handle rx_handle tx_cookie rx_cookie)
          (λ x. record x { mappings = x.mappings - 1 - 1; buffers = x.buffers - 1 - 1 })
  unfolding run_transfer
  Holds-run_transfer src dest tx_handle rx_handle tx_cookie rx_cookie =
      Holds->> (Holds-printk "Starting DMA transfers\n" []) (
        Holds->> (Holds-axidma_start_transfer rx rx_cookie false) (
          Holds->> (Holds-axidma_start_transfer tx tx_cookie true) (
            Holds->> (Holds-unmap rx rx_handle) (
              Holds->> (Holds-unmap tx tx_handle) (
                Holds->> (Holds-verify dest src) (
                  Holds->> (Holds-printk "DMA bytes sent: %d\n" (int (pos dma_length) ∷ []))
                    (Holds->> (Holds-free src) (Holds-free dest))))))))
