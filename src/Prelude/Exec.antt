-- ===== src/Prelude/Exec.antt =====
-- Code with effects: an action takes a state and returns a value with the new state. A Go error is
-- a value of `Result`, which the code tests where it tests `err`.
use mathlib.Core.Path.{◌≡◌, refl}
use mathlib.Core.Logic.{◌⊎◌, inl, inr}

pub data Result {ℓ κ} (E : Type ℓ) (A : Type κ) : Type (ℓ ⊔ κ) where
  ok : A → Result E A
  err : E → Result E A

pub Result-cases {ℓ κ} :
    {E : Type ℓ} {A : Type κ} (r : Result E A) → ((a : A) × (r ≡ ok a)) ⊎ ((e : E) × (r ≡ err e))
Result-cases (ok a) = inl (a, refl)
Result-cases (err e) = inr (e, refl)

abbrev pub Exec : Type 0 → Type 0 → Type 0
Exec S A = S → A × S

abbrev pub pure : {S A : Type 0} → A → Exec S A
pure a s = (a, s)

infixl 5 ◌>>=◌ ◌>>◌
abbrev pub ◌>>=◌ : {S A B : Type 0} → Exec S A → (A → Exec S B) → Exec S B
◌>>=◌ m f s = f (m s).0 (m s).1

abbrev pub ◌>>◌ : {S A B : Type 0} → Exec S A → Exec S B → Exec S B
◌>>◌ m k s = k (m s).1

-- The action keeps the property of the state, whatever it returns.
abbrev pub Keeps : {S A : Type 0} → (S → Type 0) → Exec S A → Type 0
Keeps {S} P m = (s : S) → P s → P (m s).1

-- What the action returns does not depend on the state.
abbrev pub Steady : {S A : Type 0} → Exec S A → Type 0
Steady {S} m = (s s' : S) → (m s).0 ≡ (m s').0
