-- ===== src/Cache.antt =====
-- WowCacheManager of wowUtils/WowCache.H: the table of open files.
pub mod Consistent
pub mod Files
use wow_so_distributed.Base.{
  ℤ, pos, negsuc, ◌+ℤ◌, is_zero, int_eq, bytes_eq, Bool, true, false, Option, none, some, [], Bytes,
  if◌then◌else◌,
}
use wow_so_distributed.Base.Dict
use wow_so_distributed.Base.Dict.{Dict}

-- WowCacheManager::FileMeta
pub record FileMeta : Type 0 where
  pub path : Bytes
  pub is_dirty : Bool

-- The members fdToMeta_ and filepathToFreq_.
pub record WowCacheManager : Type 0 where
  pub fd_to_meta : Dict ℤ FileMeta
  pub filepath_to_freq : Dict Bytes ℤ

abbrev pub empty : WowCacheManager
empty = record { fd_to_meta = []; filepath_to_freq = [] }

unfoldable pub validate : Bytes → ℤ → Bool
validate path fh = true

unfoldable pub register_file_dirty : ℤ → WowCacheManager → WowCacheManager
register_file_dirty fd c = elim (Dict.get fd c.fd_to_meta) [
  | none ↦ c
  | some meta ↦ record c { fd_to_meta = Dict.put fd (record meta { is_dirty = true }) c.fd_to_meta }
]

-- operator[] of the map of counts: a missing path counts 0.
abbrev pub freq : Bytes → Dict Bytes ℤ → ℤ
freq path m = elim (Dict.get path m) [ none ↦ pos 0 | some n ↦ n ]

-- `--filepathToFreq_[ path ]`, and the erase of an entry that has come down to 0.
unfoldable pub drop_freq : Bytes → Dict Bytes ℤ → Dict Bytes ℤ
drop_freq path m =
    let new_freq = freq path m +ℤ negsuc 0 in
    if is_zero new_freq then Dict.remove path m else Dict.put path new_freq m

unfoldable pub register_file_close : ℤ → WowCacheManager → WowCacheManager
unfolding drop_freq
register_file_close fd c = elim (Dict.get fd c.fd_to_meta) [
  | none ↦ c
  | some meta ↦ record {
    fd_to_meta = Dict.remove fd c.fd_to_meta;
    filepath_to_freq = drop_freq meta.path c.filepath_to_freq;
  }
]

unfoldable pub register_file_open : ℤ → Bytes → WowCacheManager → WowCacheManager
register_file_open fd filepath c = record {
  fd_to_meta = Dict.put fd (record { path = filepath; is_dirty = false }) c.fd_to_meta;
  filepath_to_freq =
      Dict.put filepath (freq filepath c.filepath_to_freq +ℤ pos 1) c.filepath_to_freq;
}

unfoldable pub is_file_open : Bytes → WowCacheManager → Bool
is_file_open filepath c = elim (Dict.get filepath c.filepath_to_freq) [
  | none ↦ false
  | some n ↦ true
]

unfoldable pub get_file_meta_from_fd : ℤ → WowCacheManager → Option FileMeta
get_file_meta_from_fd fd c = Dict.get fd c.fd_to_meta

unfoldable pub get_file_path_from_fd : ℤ → WowCacheManager → Bytes
unfolding get_file_meta_from_fd
get_file_path_from_fd fd c = elim (get_file_meta_from_fd fd c) [ none ↦ [] | some meta ↦ meta.path ]

unfoldable pub is_file_dirty : ℤ → WowCacheManager → Bool
unfolding get_file_meta_from_fd
is_file_dirty fd c = elim (get_file_meta_from_fd fd c) [ none ↦ false | some meta ↦ meta.is_dirty ]
