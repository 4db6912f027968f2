-- ===== src/Exec/Keeps.antt =====
-- Invariants of stateful code, with one rule for each way to build it.
use wow_so_distributed.Base.{Bool, true, false, if◌then◌else◌}
use wow_so_distributed.Exec.{
  Exec, Exit, returned, terminated, pure, terminate, gets, continue, ◌>>=◌,
}

-- `m` keeps `P`, whether it returns or ends the process.
pub record Keeps {ℓ κ μ} {S : Type ℓ} {A : Type κ} (P : S → Type μ) (m : Exec S A)
    : Type (ℓ ⊔ μ) where
  pub at : (s : S) → P s → P (m s).1

module _ {ℓ κ μ} {S : Type ℓ} {A : Type κ} {P : S → Type μ} where
  pub Keeps-pure : (a : A) → Keeps {S = S} P (pure a)
  Keeps-pure a = record { at = λ s h. h }

  pub Keeps-terminate : Keeps P (terminate {S = S} {A = A})
  Keeps-terminate = record { at = λ s h. h }

  pub Keeps-gets : (f : S → A) → Keeps P (gets f)
  Keeps-gets f = record { at = λ s h. h }

  pub Keeps-if : (b : Bool) (m n : Exec S A) → Keeps P m → Keeps P n → Keeps P (if b then m else n)
  Keeps-if true m n km kn = km
  Keeps-if false m n km kn = kn

module _ {ℓ κ μ ν} {S : Type ℓ} {A : Type κ} {B : Type ν} {P : S → Type μ} where
  pub Keeps-bind :
      (m : Exec S A) (f : A → Exec S B) → Keeps P m → ((a : A) → Keeps P (f a)) → Keeps P (m >>= f)
  Keeps-bind m f km kf = record { at = λ s h. go s (m s).0 (km.at s h) }
    where
      go : (s : S) (r : Exit A) → P (m s).1 → P (continue r f (m s).1).1
      go s (returned a) h = (kf a).at (m s).1 h
      go s terminated h = h

pub ruleset keeps_rules = (Keeps-pure, Keeps-terminate, Keeps-gets, Keeps-if, Keeps-bind)
