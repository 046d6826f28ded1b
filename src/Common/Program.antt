-- ===== src/Common/Program.antt =====
-- Programs over a state: they return, end the process, or crash (a read through a pointer that is
-- not mapped, a division by zero). The state at the end of the process is kept.
use Prim.Native.Nat.{ℕ}
use Prim.Native.String.{String}
use mathlib.Core.Path.{◌≡◌}
use mathlib.Core.Logic.{◌⊎◌}
use mathlib.Core.List.{List}
use native.Mathlib.Omega.{arith}
use rfsoc.Common.Int.{ℤ}
use rfsoc.Common.Text.{Text}

pub data Outcome {ℓ κ} (S : Type ℓ) (A : Type κ) : Type (ℓ ⊔ κ) where
  done : A → S → Outcome S A
  exited : ℤ → S → Outcome S A
  crashed : Outcome S A

infixl 5 ◌>>=◌ ◌>>◌
abbrev pub ◌>>=◌ {ℓ κ μ} :
    {S : Type ℓ} {A : Type κ} {B : Type μ}
    → (S → Outcome S A)
    → (A → S → Outcome S B)
    → S
    → Outcome S B
◌>>=◌ m f s = elim (m s) [ done a t ↦ f a t | exited n t ↦ exited n t | crashed ↦ crashed ]

abbrev pub ◌>>◌ {ℓ κ μ} :
    {S : Type ℓ} {A : Type κ} {B : Type μ} → (S → Outcome S A) → (S → Outcome S B) → S → Outcome S B
m >> k = m >>= λ _. k

abbrev pub pure {ℓ κ} : {S : Type ℓ} {A : Type κ} → A → S → Outcome S A
pure a s = done a s

-- An argument of `printf`. Quotients and roots stay as the expressions that are printed.
pub data Arg : Type 0 where
  int : ℤ → Arg
  str : Text → Arg
  -- `x / pow(2, k)`, with `x` and `k`.
  scaled : ℤ → ℕ → Arg
  -- `sqrt(pow(x / pow(2, k), 2) + pow(y / pow(2, k), 2))`.
  modulus : ℤ → ℤ → ℕ → Arg
  -- `(180 / M_PI) * atan(x)`.
  degrees : ℤ → Arg

-- One call of `printf`.
pub record Line : Type 0 where
  pub format : String
  pub args : List Arg

-- The second part goes on from where the first one returned.
pub >>=-done {ℓ κ μ} :
    {S : Type ℓ} {A : Type κ} {B : Type μ} (m : S → Outcome S A) (f : A → S → Outcome S B) {s : S}
    {a : A} {t : S}
    → m s ≡ done a t
    → (m >>= f) s ≡ f a t
>>=-done m f h = rw (◌>>=◌, h)

-- A program in two parts that returns has returned from both.
pub >>=-eq-done {ℓ κ μ} :
    {S : Type ℓ} {A : Type κ} {B : Type μ} (m : S → Outcome S A) (f : A → S → Outcome S B) (s : S)
    {b : B} {t : S}
    → (m >>= f) s ≡ done b t
    → (a : A) × (u : S) × (m s ≡ done a u) × (f a u ≡ done b t)
>>=-eq-done m f s h = ground arith

-- One that ends the process ends it in its first part or in its second.
pub >>=-eq-exited {ℓ κ μ} :
    {S : Type ℓ} {A : Type κ} {B : Type μ} (m : S → Outcome S A) (f : A → S → Outcome S B) (s : S)
    {n : ℤ} {t : S}
    → (m >>= f) s ≡ exited n t
    → (m s ≡ exited n t) ⊎ ((a : A) × (u : S) × (m s ≡ done a u) × (f a u ≡ exited n t))
>>=-eq-exited m f s h = ground arith
