-- ===== src/Cache/Consistent.antt =====
-- The two maps of WowCacheManager (wowUtils/WowCache.H) agree: filepathToFreq_ counts, for each
-- path, the descriptors of fdToMeta_ that were opened under it.
use wow_so_distributed.Base.{
  ℕ, suc, ◌+◌, ℤ, pos, ◌+ℤ◌, int_eq, bytes_eq, eq_ℤ_iff, eq_bytes, eq_bytes_iff, true, false,
  Option, none, some, [], ◌∷◌, Bytes, ◌==◌, if◌then◌else◌, ◌≡◌, inl, inr, refl, arith, Option-cases,
}
use wow_so_distributed.Base.Dict
use wow_so_distributed.Base.Dict.{Dict}
use wow_so_distributed.Cache.{
  FileMeta, WowCacheManager, empty, freq, drop_freq, register_file_open, register_file_close,
  register_file_dirty,
}

-- How many descriptors are open under `path`.
abbrev pub open_count : Bytes → Dict ℤ FileMeta → ℕ
open_count path [] = 0
open_count path ((fd, meta) ∷ m) = (if eq_bytes meta.path path then 1 else 0) + open_count path m

-- No descriptor has two entries.
abbrev pub Distinct : Dict ℤ FileMeta → Type 0
Distinct [] = Unit {0}
Distinct ((fd, meta) ∷ m) = (Dict.get fd m ≡ none) × Distinct m

abbrev pub freq_of : ℕ → Option ℤ
freq_of n = if n == 0 then none else some (pos n)

pub record IsConsistent (c : WowCacheManager) : Type 0 where
  pub distinct : Distinct c.fd_to_meta
  pub counted :
      (path : Bytes) → Dict.get path c.filepath_to_freq ≡ freq_of (open_count path c.fd_to_meta)

open_count-put_new :
    (path : Bytes) (fd : ℤ) (meta : FileMeta) (m : Dict ℤ FileMeta)
    → Dict.get fd m ≡ none
    → open_count path (Dict.put fd meta m)
      ≡ (if eq_bytes meta.path path then 1 else 0) + open_count path m
unfolding Dict.get Dict.put
open_count-put_new path fd meta [] h = refl
open_count-put_new path fd meta ((j, w) ∷ m) h =
    ground (arith, eq_ℤ_iff j fd, open_count-put_new path fd meta m)

open_count-put_same :
    (path : Bytes) (fd : ℤ) (meta old : FileMeta) (m : Dict ℤ FileMeta)
    → Dict.get fd m ≡ some old
    → meta.path ≡ old.path
    → open_count path (Dict.put fd meta m) ≡ open_count path m
unfolding Dict.get Dict.put
open_count-put_same path fd meta old [] h e = cc
open_count-put_same path fd meta old ((j, w) ∷ m) h e =
    ground (arith, open_count-put_same path fd meta old m)

remove_absent : (fd : ℤ) (m : Dict ℤ FileMeta) → Dict.get fd m ≡ none → Dict.remove fd m ≡ m
unfolding Dict.get Dict.remove
remove_absent fd [] h = refl
remove_absent fd ((j, w) ∷ m) h = ground (arith, remove_absent fd m)

open_count-remove :
    (path : Bytes) (fd : ℤ) (old : FileMeta) (m : Dict ℤ FileMeta)
    → Distinct m
    → Dict.get fd m ≡ some old
    → (if eq_bytes old.path path then 1 else 0) + open_count path (Dict.remove fd m)
      ≡ open_count path m
unfolding Dict.get Dict.remove
open_count-remove path fd old [] d h = cc
open_count-remove path fd old ((j, w) ∷ m) d h =
    ground (arith, eq_ℤ_iff j fd, remove_absent fd m, open_count-remove path fd old m)

Distinct-put :
    (fd : ℤ) (meta : FileMeta) (m : Dict ℤ FileMeta) → Distinct m → Distinct (Dict.put fd meta m)
unfolding Dict.put
Distinct-put fd meta [] d = (unfold Dict.get in refl, tt)
Distinct-put fd meta ((j, w) ∷ m) d =
    ground
      (arith, eq_ℤ_iff j fd, eq_ℤ_iff fd j, Distinct-put fd meta m d.1, Dict.get-put fd j meta m)

Distinct-remove : (fd : ℤ) (m : Dict ℤ FileMeta) → Distinct m → Distinct (Dict.remove fd m)
unfolding Dict.remove
Distinct-remove fd [] d = tt
Distinct-remove fd ((j, w) ∷ m) d =
    ground (arith, eq_ℤ_iff j fd, eq_ℤ_iff fd j, Distinct-remove fd m d.1, Dict.get-remove fd j m)

-- One more or one less in a count that is kept as `freq_of`.
freq_of-suc :
    (path : Bytes) (n : ℕ) (m : Dict Bytes ℤ)
    → Dict.get path m ≡ freq_of n
    → freq path m +ℤ pos 1 ≡ pos (n + 1)
freq_of-suc path n m h = ground arith

get-drop_freq :
    (path j : Bytes) (n : ℕ) (m : Dict Bytes ℤ)
    → Dict.get path m ≡ freq_of (suc n)
    → Dict.get j (drop_freq path m) ≡ (if eq_bytes path j then freq_of n else Dict.get j m)
unfolding drop_freq
get-drop_freq path j n m h = ground (arith, Dict.get-put path j (pos n) m, Dict.get-remove path j m)

pub IsConsistent-empty : IsConsistent empty
unfolding Dict.get
IsConsistent-empty = record { distinct = tt; counted = λ path. refl }

-- An open on a descriptor that is not in the table keeps the maps consistent.
pub register_file_open-IsConsistent :
    (fd : ℤ) (path : Bytes) (c : WowCacheManager)
    → Dict.get fd c.fd_to_meta ≡ none
    → IsConsistent c
    → IsConsistent (register_file_open fd path c)
unfolding register_file_open
register_file_open-IsConsistent fd path c fresh v =
    let meta : FileMeta = record { path = path; is_dirty = false } in
    let n = open_count path c.fd_to_meta in
    record {
      distinct = Distinct-put fd meta c.fd_to_meta v.distinct;
      counted = λ j. ground (
        arith,
        v.counted j,
        freq_of-suc path n c.filepath_to_freq (v.counted path),
        open_count-put_new j fd meta c.fd_to_meta fresh,
        Dict.get-put path j (pos (n + 1)) c.filepath_to_freq,
        eq_bytes_iff path j,
      );
    }

-- A write to a file keeps the maps consistent.
pub register_file_dirty-IsConsistent :
    (fd : ℤ) (c : WowCacheManager) → IsConsistent c → IsConsistent (register_file_dirty fd c)
unfolding register_file_dirty
register_file_dirty-IsConsistent fd c v = elim (Option-cases (Dict.get fd c.fd_to_meta)) [
  | inl missing ↦ rw (missing, register_file_dirty) v
  | inr (meta, found) ↦
      rw (found, register_file_dirty)
        (record {
          distinct = Distinct-put fd (record meta { is_dirty = true }) c.fd_to_meta v.distinct;
          counted = λ j.
              rw
                (open_count-put_same j fd (record meta { is_dirty = true }) meta c.fd_to_meta found
                  refl)
                (v.counted j);
        })
]

module _ (fd : ℤ) (c : WowCacheManager) (meta : FileMeta)
    (found : Dict.get fd c.fd_to_meta ≡ some meta) (v : IsConsistent c) where
  counted_after :
      (j : Bytes)
      → Dict.get j (drop_freq meta.path c.filepath_to_freq)
        ≡ freq_of (open_count j (Dict.remove fd c.fd_to_meta))
  counted_after j =
      let rest = Dict.remove fd c.fd_to_meta in
      let removed = open_count-remove meta.path fd meta c.fd_to_meta v.distinct found in
      ground (
        arith,
        eq_bytes_iff meta.path j,
        eq_bytes_iff meta.path meta.path,
        v.counted j,
        v.counted meta.path,
        removed,
        open_count-remove j fd meta c.fd_to_meta v.distinct found,
        get-drop_freq meta.path j (open_count meta.path rest) c.filepath_to_freq,
      )

-- A close keeps the maps consistent, also of a descriptor that is not known.
pub register_file_close-IsConsistent :
    (fd : ℤ) (c : WowCacheManager) → IsConsistent c → IsConsistent (register_file_close fd c)
unfolding register_file_close
register_file_close-IsConsistent fd c v = elim (Option-cases (Dict.get fd c.fd_to_meta)) [
  | inl missing ↦ rw (missing, register_file_close) v
  | inr (meta, found) ↦
      rw (found, register_file_close)
        (record {
          distinct = Distinct-remove fd c.fd_to_meta v.distinct;
          counted = counted_after fd c meta found v;
        })
]
