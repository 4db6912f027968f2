-- ===== src/LocalReorder/Permutes.antt =====
-- The shuffle of wowFS/unreliablefs/WowLocalWriteReorder.H only reorders.
use wow_so_distributed.Base.{
  ℕ, zero, suc, ◌-◌, some, List, [], ◌∷◌, length, get_elem?, set, ◌≡◌, refl, inl, inr, Option-cases,
}
use mathlib.Core.List.{Perm, perm-cons}
use mathlib.Core.List.Perm
use wow_so_distributed.LocalReorder.{swap, shuffle_from, fisher_yates_shuffle}

module _ {ℓ} {A : Type ℓ} where
  -- Taking the head for the item at `i`, and the item for the head.
  perm_exchange :
      (xs : List A) (i : ℕ) (x y : A) → get_elem? xs i ≡ some y → Perm (y ∷ set xs i x) (x ∷ xs)
  perm_exchange [] i x y h = cc
  perm_exchange (z ∷ xs) zero x y h = let e : z ≡ y = cc in rw e (Perm.swap x y xs)
  perm_exchange (z ∷ xs) (suc i) x y h =
      Perm.trans (Perm.swap z y (set xs i x))
        (Perm.trans (Perm.cons z (perm_exchange xs i x y h)) (Perm.swap x z xs))

  -- After item `j` is written over item `i`, it still stands at `j`.
  get_elem?-set_item :
      (xs : List A) (i j : ℕ) (y : A) → get_elem? xs j ≡ some y → get_elem? (set xs i y) j ≡ some y
  get_elem?-set_item [] i j y h = h
  get_elem?-set_item (x ∷ xs) zero zero y h = refl
  get_elem?-set_item (x ∷ xs) zero (suc j) y h = h
  get_elem?-set_item (x ∷ xs) (suc i) zero y h = h
  get_elem?-set_item (x ∷ xs) (suc i) (suc j) y h = get_elem?-set_item xs i j y h

  swap-perm : (i j : ℕ) (vec : List A) → Perm (swap i j vec) vec
  unfolding swap
  swap-perm i j vec = elim (Option-cases (get_elem? vec i)) [
    | inl out ↦ rw (out, swap) (Perm.refl vec)
    | inr (x, at_i) ↦ elim (Option-cases (get_elem? vec j)) [
      | inl out ↦ rw (at_i, out, swap) (Perm.refl vec)
      | inr (y, at_j) ↦
          rw (at_i, at_j, swap)
            ((perm-cons y).0 (
              Perm.trans (perm_exchange (set vec i y) j x y (get_elem?-set_item vec i j y at_j))
                (perm_exchange vec i y x at_i)))
    ]
  ]

  shuffle_from-perm : (draw : ℕ → ℕ) (i : ℕ) (vec : List A) → Perm (shuffle_from draw i vec) vec
  unfolding shuffle_from
  shuffle_from-perm draw zero vec = Perm.refl vec
  shuffle_from-perm draw (suc i) vec =
      Perm.trans (shuffle_from-perm draw i (swap (suc i) (draw (suc i)) vec))
        (swap-perm (suc i) (draw (suc i)) vec)

  -- Whatever the random draws are, the shuffled queue holds the same items as often.
  pub fisher_yates_shuffle-perm :
      (draw : ℕ → ℕ) (vec : List A) → Perm (fisher_yates_shuffle draw vec) vec
  unfolding fisher_yates_shuffle
  fisher_yates_shuffle-perm draw vec = shuffle_from-perm draw (length vec - 1) vec
