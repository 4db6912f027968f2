-- ===== src/Manager/Paths.antt =====
-- removeMountPrefix of wowFS/unreliablefs/unreliablefs.h.
use wow_so_distributed.Base.{
  ℕ, true, [], ◌∷◌, ◌++◌, Bytes, contains, starts_with, drop, length, ◌≡◌, refl, arith,
}
use wow_so_distributed.Manager.{mount_prefix, cut_prefix, remove_mount_prefix}

starts_with-append : (p s : Bytes) → starts_with p (p ++ s) ≡ true
unfolding starts_with
starts_with-append [] s = refl
starts_with-append (a ∷ p) s = ground (arith, starts_with-append p s)

contains-append : (p s : Bytes) → contains p (p ++ s) ≡ true
unfolding contains starts_with
contains-append [] [] = refl
contains-append [] (b ∷ s) = refl
contains-append (a ∷ p) s = ground (arith, starts_with-append p s)

drop-append : (p s : Bytes) → drop (length p) (p ++ s) ≡ s
drop-append [] s = refl
drop-append (a ∷ p) s = drop-append p s

cut_prefix-append : (prefix p : Bytes) → cut_prefix prefix (prefix ++ p) ≡ p
unfolding cut_prefix
cut_prefix-append prefix p = rw (contains-append prefix p) (drop-append prefix p)

drop_front : (front rest : Bytes) (n : ℕ) → length front ≡ n → drop n (front ++ rest) ≡ rest
drop_front front rest n e = rw (← e) (drop-append front rest)

cut_prefix_inside :
    (prefix front other rest : Bytes)
    → length front ≡ length prefix
    → length other ≡ length prefix
    → contains prefix (front ++ rest) ≡ true
    → contains prefix (other ++ rest) ≡ true
    → cut_prefix prefix (front ++ rest) ≡ cut_prefix prefix (other ++ rest)
unfolding cut_prefix
cut_prefix_inside prefix front other rest m n a b =
    rw (a, b, drop_front front rest _ m, drop_front other rest _ n)

-- A path below the mount point is mapped to the rest of the path.
pub remove_mount_prefix-append : (p : Bytes) → remove_mount_prefix (mount_prefix ++ p) ≡ p
unfolding remove_mount_prefix
remove_mount_prefix-append = cut_prefix-append mount_prefix

-- Where the prefix occurs at any place in both, two paths that differ only in their first 17 bytes
-- are mapped to one name, whatever these bytes are.
pub remove_mount_prefix_inside :
    (front other rest : Bytes)
    → length front ≡ 17
    → length other ≡ 17
    → contains mount_prefix (front ++ rest) ≡ true
    → contains mount_prefix (other ++ rest) ≡ true
    → remove_mount_prefix (front ++ rest) ≡ remove_mount_prefix (other ++ rest)
unfolding remove_mount_prefix
remove_mount_prefix_inside = cut_prefix_inside mount_prefix
