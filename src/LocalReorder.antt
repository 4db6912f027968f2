-- ===== src/LocalReorder.antt =====
-- wowFS/unreliablefs/WowLocalWriteReorder.H: the queue of recorded writes and its shuffle.
pub mod Permutes
pub mod Disjoint
use wow_so_distributed.Base.{
  ℕ, zero, suc, ◌%◌, ◌+◌, ◌-◌, ℤ, Option, none, some, List, [], ◌∷◌, ◌++◌, Bytes, codes, length,
  get_elem?, set, ◌==◌, if◌then◌else◌,
}

-- struct fuse_file_info, as far as the program reads it.
pub record FuseFileInfo : Type 0 where
  pub fh : ℕ
  pub flags : ℤ

pub record WriteOp : Type 0 where
  pub path : Bytes
  pub buf : Bytes
  pub size : ℕ
  pub offset : ℤ
  pub fi : FuseFileInfo

abbrev pub wow_kill_phrase : Bytes
wow_kill_phrase = codes "__WOW_KILL__"

-- std::string( p ) of a C string: the bytes in front of the first NUL.
unfoldable pub c_string : Bytes → Bytes
c_string [] = []
c_string (b ∷ s) = let rest = c_string s in if b == 0 then [] else b ∷ rest

unfoldable pub record_write : Bytes → Bytes → ℕ → ℤ → FuseFileInfo → List WriteOp → List WriteOp
unfolding c_string
record_write path buf size offset fi queue =
    queue ++ record { path = path; buf = c_string buf; size = size; offset = offset; fi = fi } ∷ []

module _ {ℓ} {A : Type ℓ} where
  unfoldable pub swap : ℕ → ℕ → List A → List A
  swap i j vec = elim (get_elem? vec i) [
    | none ↦ vec
    | some x ↦ elim (get_elem? vec j) [ none ↦ vec | some y ↦ set (set vec i y) j x ]
  ]

  -- The rounds i, i - 1, ..., 1. `draw i` is what uniform_int_distribution( 0, i ) gives.
  unfoldable pub shuffle_from : (ℕ → ℕ) → ℕ → List A → List A
  shuffle_from draw zero vec = vec
  shuffle_from draw (suc i) vec = shuffle_from draw i (swap (suc i) (draw (suc i)) vec)

  unfoldable pub fisher_yates_shuffle : (ℕ → ℕ) → List A → List A
  unfolding shuffle_from swap
  fisher_yates_shuffle draw vec = shuffle_from draw (length vec - 1) vec
