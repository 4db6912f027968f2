-- ===== src/Base/Eq.antt =====
-- Equality tests as an interface, for the keys of dictionaries.
use mathlib.Core.Path.{◌≡◌}
use mathlib.Core.Logic.{◌↔◌}
use mathlib.Core.Bool.{Bool, true}
use wow_so_distributed.Base.Int.{ℤ, eq_ℤ, eq_ℤ_iff}
use wow_so_distributed.Base.Text.{Bytes, eq_bytes, eq_bytes_iff}

pub record IsEq {ℓ} (A : Type ℓ) : Type ℓ where
  pub same : A → A → Bool
  pub same_iff : (a b : A) → (same a b ≡ true) ↔ (a ≡ b)

abbrev pub beq {ℓ} : {A : Type ℓ} ⦃e : IsEq A⦄ → A → A → Bool
beq ⦃e⦄ = e.same

instance abbrev pub int_eq : IsEq ℤ
int_eq = record { same = eq_ℤ; same_iff = eq_ℤ_iff }

instance abbrev pub bytes_eq : IsEq Bytes
bytes_eq = record { same = eq_bytes; same_iff = eq_bytes_iff }
