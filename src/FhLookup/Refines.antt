-- ===== src/FhLookup/Refines.antt =====
-- FHManager of wowUtils/FHLookup.H implements a map from handles to paths.
use wow_so_distributed.Base.{
  ℤ, pos, negsuc, eq_ℤ, eq_ℤ_iff, Option, none, some, [], ◌∷◌, ◌++◌, Bytes, if◌then◌else◌, ◌≡◌,
  refl, arith, Option-cases, inl, inr,
}
use wow_so_distributed.FhLookup.{
  FhMapping, lookup_mapping, erase_first, assign_first, insert_fh_mapping, remove_fh_mapping,
  update_fh_mapping, lookup_path,
}

pub data Operation : Type 0 where
  insert update : ℤ → Bytes → Operation
  remove : ℤ → Operation

unfoldable pub perform : Operation → FhMapping → ℤ × FhMapping
unfolding insert_fh_mapping update_fh_mapping remove_fh_mapping
perform (insert fh path) m = insert_fh_mapping fh path m
perform (update fh path) m = update_fh_mapping fh path m
perform (remove fh) m = remove_fh_mapping fh m

-- A map from handles to paths.
abbrev pub View : Type 0
View = ℤ → Option Bytes

abbrev pub at : ℤ → Option Bytes → View → View
at fh value view j = if eq_ℤ fh j then value else view j

abbrev pub if_known : Option Bytes → View → View → ℤ × View
if_known none known view = (negsuc 0, view)
if_known (some _) known view = (pos 0, known)

abbrev pub if_new : Option Bytes → View → View → ℤ × View
if_new none added view = (pos 0, added)
if_new (some _) added view = (negsuc 0, view)

-- What is promised: insert fails on a known handle, update and remove on an unknown one, and a
-- failure changes nothing.
abbrev pub promised : Operation → View → ℤ × View
promised (insert fh path) view = if_new (view fh) (at fh (some path) view) view
promised (update fh path) view = if_known (view fh) (at fh (some path) view) view
promised (remove fh) view = if_known (view fh) (at fh none view) view

-- No handle has two pairs.
abbrev pub Unique : FhMapping → Type 0
Unique [] = Unit {0}
Unique ((first, second) ∷ rest) = (lookup_mapping first rest ≡ none) × Unique rest

lookup-append :
    (fh j : ℤ) (path : Bytes) (m : FhMapping)
    → lookup_mapping fh m ≡ none
    → lookup_mapping j (m ++ (fh, path) ∷ [])
      ≡ (if eq_ℤ fh j then some path else lookup_mapping j m)
unfolding lookup_mapping
lookup-append fh j path [] h = refl
lookup-append fh j path ((first, second) ∷ rest) h =
    ground (arith, eq_ℤ_iff first fh, eq_ℤ_iff first j, eq_ℤ_iff fh j, lookup-append fh j path rest)

lookup-assign_first :
    (fh j : ℤ) (path old : Bytes) (m : FhMapping)
    → lookup_mapping fh m ≡ some old
    → lookup_mapping j (assign_first fh path m)
      ≡ (if eq_ℤ fh j then some path else lookup_mapping j m)
unfolding lookup_mapping assign_first
lookup-assign_first fh j path old [] h = cc
lookup-assign_first fh j path old ((first, second) ∷ rest) h = ground (
  arith,
  eq_ℤ_iff first fh,
  eq_ℤ_iff first j,
  eq_ℤ_iff fh j,
  lookup-assign_first fh j path old rest,
)

lookup-erase_first :
    (fh j : ℤ) (m : FhMapping)
    → Unique m
    → lookup_mapping j (erase_first fh m) ≡ (if eq_ℤ fh j then none else lookup_mapping j m)
unfolding lookup_mapping erase_first
lookup-erase_first fh j [] u = ground arith
lookup-erase_first fh j ((first, second) ∷ rest) u =
    ground
      (arith, eq_ℤ_iff first fh, eq_ℤ_iff first j, eq_ℤ_iff fh j, lookup-erase_first fh j rest u.1)

Unique-append :
    (fh : ℤ) (path : Bytes) (m : FhMapping)
    → lookup_mapping fh m ≡ none
    → Unique m
    → Unique (m ++ (fh, path) ∷ [])
unfolding lookup_mapping
Unique-append fh path [] h u = (refl, tt)
Unique-append fh path ((first, second) ∷ rest) h u = ground (
  arith,
  eq_ℤ_iff first fh,
  eq_ℤ_iff fh first,
  Unique-append fh path rest,
  lookup-append fh first path rest,
)

assign_first-absent :
    (fh j : ℤ) (path : Bytes) (m : FhMapping)
    → lookup_mapping j m ≡ none
    → lookup_mapping j (assign_first fh path m) ≡ none
unfolding assign_first lookup_mapping
assign_first-absent fh j path [] h = refl
assign_first-absent fh j path ((first, second) ∷ rest) h =
    ground (arith, assign_first-absent fh j path rest)

Unique-assign_first :
    (fh : ℤ) (path : Bytes) (m : FhMapping) → Unique m → Unique (assign_first fh path m)
unfolding assign_first lookup_mapping
Unique-assign_first fh path [] u = tt
Unique-assign_first fh path ((first, second) ∷ rest) u =
    ground (arith, Unique-assign_first fh path rest u.1, assign_first-absent fh first path rest u.0)

Unique-erase_first : (fh : ℤ) (m : FhMapping) → Unique m → Unique (erase_first fh m)
unfolding erase_first
Unique-erase_first fh [] u = tt
Unique-erase_first fh ((first, second) ∷ rest) u =
    ground (
      arith,
      Unique-erase_first fh rest u.1,
      lookup-erase_first fh first rest u.1,
      eq_ℤ_iff fh first,
    )

abbrev pub view_of : FhMapping → View
view_of m j = lookup_path j m

-- What one operation does, against the promise.
pub record IsKept (got : ℤ × FhMapping) (wanted : ℤ × View) : Type 0 where
  pub result : got.0 ≡ wanted.0
  pub view : (j : ℤ) → view_of got.1 j ≡ wanted.1 j
  pub unique : Unique got.1

-- On a vector in which no handle has two pairs, each operation returns what the map from handles
-- to paths promises, leaves that map's content for every handle, and no handle has two pairs
-- afterwards.
pub perform-IsKept :
    (op : Operation) (m : FhMapping) → Unique m → IsKept (perform op m) (promised op (view_of m))
unfolding perform lookup_path
perform-IsKept (insert fh path) m u = elim (Option-cases (lookup_mapping fh m)) [
  | inl absent ↦
      rw (absent, insert_fh_mapping)
        (record {
          result = refl;
          view = λ j. lookup-append fh j path m absent;
          unique = Unique-append fh path m absent u;
        })
  | inr (old, found) ↦
      rw (found, insert_fh_mapping) (record { result = refl; view = λ j. refl; unique = u })
]
perform-IsKept (update fh path) m u = elim (Option-cases (lookup_mapping fh m)) [
  | inl absent ↦
      rw (absent, update_fh_mapping) (record { result = refl; view = λ j. refl; unique = u })
  | inr (old, found) ↦
      rw (found, update_fh_mapping)
        (record {
          result = refl;
          view = λ j. lookup-assign_first fh j path old m found;
          unique = Unique-assign_first fh path m u;
        })
]
perform-IsKept (remove fh) m u = elim (Option-cases (lookup_mapping fh m)) [
  | inl absent ↦
      rw (absent, remove_fh_mapping) (record { result = refl; view = λ j. refl; unique = u })
  | inr (old, found) ↦
      rw (found, remove_fh_mapping)
        (record {
          result = refl;
          view = λ j. lookup-erase_first fh j m u;
          unique = Unique-erase_first fh m u;
        })
]
