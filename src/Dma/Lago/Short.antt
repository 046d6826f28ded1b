-- ===== src/Dma/Lago/Short.antt =====
-- What the dump of projects/dma_test/dma_test.c shows.
use rfsoc.Common.{
  ℕ, zero, suc, ◌+◌, ◌*◌, ◌<◌, ◌≤◌, ◌≡◌, refl, ap, ◌∙◌, true, some, List, [], ◌∷◌, arith,
}
use rfsoc.Common.Memory.{load16}
use rfsoc.Common.Program.{done, Line}
use rfsoc.Dma.Device.{Engine, Host}
use rfsoc.Dma.Programs.{receive}
use rfsoc.Dma.Lago.{Platform, main_test}
use rfsoc.Dma.Lago.Laws.{pair_lines, released, dumped, run_lem}

load16_same :
    (m m' : ℕ → ℕ) (a top : ℕ)
    → ((i : ℕ) → i < top → m i ≡ m' i)
    → a + 2 ≤ top
    → load16 m a ≡ load16 m' a
unfolding load16
load16_same m m' a top same h = omega (arith, same a (omega arith), same (a + 1) (omega arith))

pair_lines_same :
    (m m' : ℕ → ℕ) (base n i top : ℕ) (ls : List Line)
    → ((a : ℕ) → a < top → m a ≡ m' a)
    → base + 4 * (i + n) ≤ top
    → pair_lines m base n i ls ≡ pair_lines m' base n i ls
pair_lines_same m m' base zero i top ls same h = refl
pair_lines_same m m' base (suc n) i top ls same h =
    let e : load16 m (base + 4 * i + 0) ≡ load16 m' (base + 4 * i + 0) =
      load16_same m m' (base + 4 * i + 0) top same (omega arith) in
    let f : load16 m (base + 4 * i + 2) ≡ load16 m' (base + 4 * i + 2) =
      load16_same m m' (base + 4 * i + 2) top same (omega arith) in
    rw (e, f) (pair_lines_same m m' base n (suc i) top _ same (omega arith))

-- Two runs of dma_test whose waits end with the same output and with memories that agree below 0x0f000000, where
-- the engine is told to write, go on to print the same lines, if the registers and the destination map.
pub main_test_same :
    (e : Engine) (p : Platform) (fuel fuel' status status' : ℕ) (h h' h1 h1' : Host e.State)
    → p.maps 0x40400000 ≡ true
    → p.maps 0x0f00000 ≡ true
    → receive e fuel 4096 h ≡ done (some status) h1
    → receive e fuel' 4096 h' ≡ done (some status') h1'
    → h1.console ≡ h1'.console
    → ((a : ℕ) → a < 0x0f000000 → e.ram h1.engine a ≡ e.ram h1'.engine a)
    → (t t' : Host e.State) × (main_test e p fuel h ≡ released e 0x0f00000 p t)
      × (main_test e p fuel' h' ≡ released e 0x0f00000 p t')
      × (t.console ≡ t'.console)
unfolding main_test
main_test_same e p fuel fuel' status status' h h' h1 h1' m d r r' c same =
    let heading : Line = record { format = "Destination memory block: "; args = [] } in
    (
      dumped e 0x0f00000 h1,
      dumped e 0x0f00000 h1',
      run_lem e 0x0f00000 p fuel status h h1 m d r,
      run_lem e 0x0f00000 p fuel' status' h' h1' m d r',
      pair_lines_same (e.ram h1.engine) (e.ram h1'.engine) 0x0f00000 4096 0 0x0f000000
            (heading ∷ h1.console) same (omega arith)
          ∙ ap (λ ls. pair_lines (e.ram h1'.engine) 0x0f00000 4096 0 (heading ∷ ls)) c,
    )
