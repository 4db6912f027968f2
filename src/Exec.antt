-- ===== src/Exec.antt =====
-- Stateful code that may end the process. A step keeps what it did to the state also when it
-- ends in std::terminate or in an uncaught exception.

pub mod Keeps

pub data Exit {ℓ} (A : Type ℓ) : Type ℓ where
  returned : A → Exit A
  terminated : Exit A

abbrev pub Exec {ℓ κ} : Type ℓ → Type κ → Type (ℓ ⊔ κ)
Exec S A = S → Exit A × S

module _ {ℓ κ} {S : Type ℓ} {A : Type κ} where
  abbrev pub pure : A → Exec S A
  pure a s = (returned a, s)

  -- std::terminate(), and an exception that nothing catches.
  abbrev pub terminate : Exec S A
  terminate s = (terminated, s)

module _ {ℓ κ μ} {S : Type ℓ} {A : Type κ} {B : Type μ} where
  abbrev pub continue : Exit A → (A → Exec S B) → Exec S B
  continue (returned a) f s = f a s
  continue terminated f s = (terminated, s)

  infixl 5 ◌>>=◌ ◌>>◌
  abbrev pub ◌>>=◌ : Exec S A → (A → Exec S B) → Exec S B
  ◌>>=◌ m f s = let (r, s') = m s in continue r f s'

  abbrev pub ◌>>◌ : Exec S A → Exec S B → Exec S B
  m >> n = m >>= λ _. n

module _ {ℓ} {S : Type ℓ} where
  abbrev pub gets {κ} : {A : Type κ} → (S → A) → Exec S A
  gets f s = (returned (f s), s)

  abbrev pub modify : (S → S) → Exec S (Unit {0})
  modify f s = (returned tt, f s)
