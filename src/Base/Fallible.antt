-- ===== src/Base/Fallible.antt =====
-- `Result<A, E>`, with `?` as the bind of a `do` block.
use mathlib.Core.Path.{◌≡◌, refl}
use mathlib.Core.Logic.{◌⊎◌, inl, inr}
use mathlib.Core.Option.{Option, none, some}
use native.Mathlib.Omega.{arith}

pub data Result {ℓ κ} (E : Type ℓ) (A : Type κ) : Type (ℓ ⊔ κ) where
  ok : A → Result E A
  err : E → Result E A

module _ {ℓ κ} {E : Type ℓ} {A : Type κ} where
  infixl 5 ◌>>=◌ ◌>>◌
  abbrev pub ◌>>=◌ {μ} : {B : Type μ} → Result E A → (A → Result E B) → Result E B
  ok a >>= f = f a
  err e >>= f = err e

  abbrev pub ◌>>◌ {μ} : {B : Type μ} → Result E A → Result E B → Result E B
  m >> k = m >>= λ _. k

  abbrev pub map_err {μ} : {F : Type μ} → Result E A → (E → F) → Result F A
  map_err (ok a) f = ok a
  map_err (err e) f = err (f e)

  -- `ok_or_else`
  abbrev pub ok_or : Option A → E → Result E A
  ok_or none e = err e
  ok_or (some a) e = ok a

  pub Result-cases : (r : Result E A) → ((a : A) × (r ≡ ok a)) ⊎ ((e : E) × (r ≡ err e))
  Result-cases (ok a) = inl (a, refl)
  Result-cases (err e) = inr (e, refl)

  -- What an answer tells of the steps behind it.
  pub bind_ok {μ} :
      {B : Type μ} (m : Result E A) (f : A → Result E B) (b : B)
      → m >>= f ≡ ok b
      → (a : A) × (m ≡ ok a) × (f a ≡ ok b)
  bind_ok (ok a) f b h = (a, refl, h)
  bind_ok (err e) f b h = absurd (ground arith)

  pub map_err_ok {μ} :
      {F : Type μ} (r : Result E A) (f : E → F) (a : A) → map_err r f ≡ ok a → r ≡ ok a
  map_err_ok (ok b) f a h = grind arith
  map_err_ok (err e) f a h = absurd (ground arith)

  pub ok_or-some : (o : Option A) (e : E) (a : A) → ok_or o e ≡ ok a → o ≡ some a
  ok_or-some none e a h = absurd (ground arith)
  ok_or-some (some b) e a h = grind arith
