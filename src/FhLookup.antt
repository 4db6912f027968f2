-- ===== src/FhLookup.antt =====
-- wowUtils/FHLookup.H: FHManager, which maps file handles to paths in a vector of pairs.
pub mod Refines
use wow_so_distributed.Base.{
  ℤ, pos, negsuc, eq_ℤ, Option, none, some, List, [], ◌∷◌, ◌++◌, Bytes, if◌then◌else◌,
}

abbrev pub FhMapping : Type 0
FhMapping = List (ℤ × Bytes)

-- _lookupMapping: the first pair with the handle.
unfoldable pub lookup_mapping : ℤ → FhMapping → Option Bytes
lookup_mapping fh [] = none
lookup_mapping fh ((first, second) ∷ rest) =
    let later = lookup_mapping fh rest in if eq_ℤ first fh then some second else later

-- fh_mapping.erase( it ) at the first pair with the handle.
unfoldable pub erase_first : ℤ → FhMapping → FhMapping
erase_first fh [] = []
erase_first fh ((first, second) ∷ rest) =
    let later = erase_first fh rest in if eq_ℤ first fh then rest else (first, second) ∷ later

-- it->second = path
unfoldable pub assign_first : ℤ → Bytes → FhMapping → FhMapping
assign_first fh path [] = []
assign_first fh path ((first, second) ∷ rest) =
    let later = assign_first fh path rest in
    if eq_ℤ first fh then (first, path) ∷ rest else (first, second) ∷ later

unfoldable pub insert_fh_mapping : ℤ → Bytes → FhMapping → ℤ × FhMapping
insert_fh_mapping fh path m = elim (lookup_mapping fh m) [
  | none ↦ (pos 0, m ++ (fh, path) ∷ [])
  | some _ ↦ (negsuc 0, m)
]

unfoldable pub remove_fh_mapping : ℤ → FhMapping → ℤ × FhMapping
unfolding erase_first
remove_fh_mapping fh m = elim (lookup_mapping fh m) [
  | none ↦ (negsuc 0, m)
  | some _ ↦ (pos 0, erase_first fh m)
]

unfoldable pub update_fh_mapping : ℤ → Bytes → FhMapping → ℤ × FhMapping
unfolding assign_first
update_fh_mapping fh path m = elim (lookup_mapping fh m) [
  | none ↦ (negsuc 0, m)
  | some _ ↦ (pos 0, assign_first fh path m)
]

-- `none` where the source would read behind the vector's end.
unfoldable pub lookup_path : ℤ → FhMapping → Option Bytes
unfolding lookup_mapping
lookup_path fh m = lookup_mapping fh m
