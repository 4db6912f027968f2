-- ===== src/Writeback/Lines.antt =====
-- Lists of delayed writebacks (wowFS/unreliablefs/WowWritebackReorderManager.H) split by file.
use wow_so_distributed.Base.{
  Bool, true, false, not, List, [], ◌∷◌, ◌++◌, Bytes, eq_bytes, eq_bytes_iff, keep, append-nil, ◌≡◌,
  refl, ap, arith, Bool-cases, inl, inr,
}
use wow_so_distributed.Machine.{WritebackOp}
use wow_so_distributed.Writeback.{is_for}

pub keep-append :
    (p : WritebackOp → Bool) (xs ys : List WritebackOp) → keep p (xs ++ ys) ≡ keep p xs ++ keep p ys
keep-append p [] ys = refl
keep-append p (x ∷ xs) ys = ground (arith, keep-append p xs ys)

pub keep-true : (xs : List WritebackOp) → keep (λ _. true) xs ≡ xs
keep-true [] = refl
keep-true (x ∷ xs) = ap (◌∷◌ x) (keep-true xs)

-- The operations on one path among those on another, and among the rest.
module _ (path other : Bytes) where
  keep_other :
      eq_bytes other path ≡ false
      → (xs : List WritebackOp) → keep (is_for path) (keep (is_for other) xs) ≡ []
  keep_other ne [] = refl
  keep_other ne (x ∷ xs) = ground (
    arith,
    keep_other ne xs,
    eq_bytes_iff x.file_path path,
    eq_bytes_iff x.file_path other,
    eq_bytes_iff other path,
  )

  keep_rest :
      eq_bytes other path ≡ false
      → (xs : List WritebackOp)
      → keep (is_for path) (keep (λ op. not (is_for other op)) xs) ≡ keep (is_for path) xs
  keep_rest ne [] = refl
  keep_rest ne (x ∷ xs) = ground (
    arith,
    keep_rest ne xs,
    eq_bytes_iff x.file_path path,
    eq_bytes_iff x.file_path other,
    eq_bytes_iff other path,
  )

pub keep_same :
    (path : Bytes) (xs : List WritebackOp)
    → keep (is_for path) (keep (is_for path) xs) ≡ keep (is_for path) xs
keep_same path [] = refl
keep_same path (x ∷ xs) = ground (arith, keep_same path xs)

pub keep_none :
    (path : Bytes) (xs : List WritebackOp)
    → keep (is_for path) (keep (λ op. not (is_for path op)) xs) ≡ []
keep_none path [] = refl
keep_none path (x ∷ xs) = ground (arith, keep_none path xs)

pub keep_split :
    (path other : Bytes) (xs : List WritebackOp)
    → keep (is_for path) (keep (is_for other) xs)
        ++ keep (is_for path) (keep (λ op. not (is_for other op)) xs)
      ≡ keep (is_for path) xs
keep_split path other xs = elim (Bool-cases (eq_bytes other path)) [
  | inl same ↦
      let e : other ≡ path = (eq_bytes_iff other path).0 same in
      rw (e, keep_same, keep_none, append-nil)
  | inr differ ↦ rw (keep_other path other differ, keep_rest path other differ)
]
