-- ===== src/Workloads/Throughout.antt =====
-- Predicates on all moments of a run, as the programs of workloads/durability_tests need them that may
-- be stopped at any of them.
use wow_so_distributed.Base.{◌∷◌}
use wow_so_distributed.Host.{Event, History}

-- A moment after `h`, such that `P` holds at each moment from `h` on to it.
pub data Throughout (P : History → Type 0) (h : History) : History → Type 0 where
  now : P h → Throughout P h h
  later : {h' : History} (e : Event) → Throughout P h h' → P (e ∷ h') → Throughout P h (e ∷ h')

module _ {P : History → Type 0} where
  pub Throughout-last : {h h' : History} → Throughout P h h' → P h'
  Throughout-last (now p) = p
  Throughout-last (later e t p) = p

  pub Throughout-join :
      {h0 h1 h2 : History} → Throughout P h0 h1 → Throughout P h1 h2 → Throughout P h0 h2
  Throughout-join t (now p) = t
  Throughout-join t (later e t' p) = later e (Throughout-join t t') p

pub Throughout-map :
    {P Q : History → Type 0} {h h' : History}
    → ((h : History) → P h → Q h)
    → Throughout P h h'
    → Throughout Q h h'
Throughout-map f (now p) = now (f _ p)
Throughout-map f (later e t p) = later e (Throughout-map f t) (f _ p)
