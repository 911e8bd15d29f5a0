-- ===== src/Base/Fault.antt =====
-- State passing with undefined behaviour: `none` is a fault, such as a read through a null or a
-- dangling pointer or past the end of an array.
use mathlib.Core.Bool.{Bool, true, false}
use mathlib.Core.Option.{Option, none, some}
use Prim.Native.Nat.{ℕ}
use clientprefs_redis.Base.Tests.{◌==◌, if◌then◌else◌}

abbrev pub M {ℓ} : Type ℓ → Type ℓ → Type ℓ
M S A = S → Option (A × S)

module _ {ℓ} {S A B : Type ℓ} where
  infixl 5 ◌>>=◌ ◌>>◌
  abbrev pub ◌>>=◌ : M S A → (A → M S B) → M S B
  ◌>>=◌ m f s = elim (m s) [ none ↦ none | some (a, s') ↦ f a s' ]

  abbrev pub ◌>>◌ : M S A → M S B → M S B
  m >> k = m >>= λ _. k

module _ {ℓ} {S A : Type ℓ} where
  abbrev pub pure : A → M S A
  pure a s = some (a, s)

  abbrev pub fault : M S A
  fault s = none

  abbrev pub gets : (S → A) → M S A
  gets f s = some (f s, s)

  -- A null or dangling pointer is a fault.
  abbrev pub deref : Option A → M S A
  deref none s = none
  deref (some a) s = some (a, s)

abbrev pub modify : {S : Type 0} → (S → S) → M S Unit
modify f s = some (tt, f s)

abbrev pub check : {S : Type 0} → Bool → M S Unit
check true s = some (tt, s)
check false s = none

-- A write to one place of a heap or an array.
abbrev pub update {ℓ} : {A : Type ℓ} → (ℕ → A) → ℕ → A → ℕ → A
update f p v q = if p == q then v else f q
