-- ===== src/Server/Startup.antt =====
-- wowRPC/server.cpp: CleanTmpFiles, which the server runs over its directory when it starts. What
-- the directory holds is a tree; a readdir loop gives the entries that stood there when it began.
pub mod Exact
use wow_so_distributed.Base.{
  ℕ, ◌+◌, ◌-◌, Bool, true, false, ◌&&◌, ◌||◌, not, leb, List, [], ◌∷◌, ◌++◌, Bytes, codes, eq_bytes,
  length, drop, if◌then◌else◌,
}
use wow_so_distributed.Server.{WowFsServiceImpl, new_service}

-- What readdir gives, one after another: directories (d_type is DT_DIR), each with whether opendir
-- opens it and what it holds, and entries of any other type.
pub data Listing : Type 0 where
  end : Listing
  directory : Bytes → Bool → Listing → Listing → Listing
  other : Bytes → Listing → Listing

-- std::string(path) + "/" + name
abbrev pub join : Bytes → Bytes → Bytes
join path name = path ++ b'/' ∷ name

-- filename.size() >= strlen(extension) && filename.substr(...) == extension
unfoldable pub ends_with : Bytes → Bytes → Bool
unfolding eq_bytes
ends_with extension name =
    leb (length extension) (length name)
    && eq_bytes (drop (length name - length extension) name) extension

unfoldable pub is_dots : Bytes → Bool
unfolding eq_bytes
is_dots name = eq_bytes name (codes ".") || eq_bytes name (codes "..")

-- What is left, and the paths for which std::remove was called.
abbrev pub Cleaning : Type 0
Cleaning = Listing × List Bytes

abbrev pub when_opened : Bool → Listing → Cleaning → Cleaning
when_opened readable inner below = if readable then below else (inner, [])

module _ (removes : Bytes → Bool) (extension : Bytes) where
  -- The readdir loop. `removes path` tells whether std::remove succeeds.
  unfoldable pub clean_entries : Bytes → Listing → Cleaning
  unfolding ends_with is_dots
  clean_entries path end = (end, [])
  clean_entries path (directory name readable inner rest) =
      let (rest', after) = clean_entries path rest in
      let below = clean_entries (join path name) inner in
      let (inner', before) =
        if is_dots name then (inner, []) else when_opened readable inner below in
      (directory name readable inner' rest', before ++ after)
  clean_entries path (other name rest) =
      let (rest', after) = clean_entries path rest in
      let full_path = join path name in
      if ends_with extension name
      then (if removes full_path then rest' else other name rest', full_path ∷ after)
      else (other name rest', after)

  unfoldable pub clean_tmp_files : Bytes → Bool → Listing → Cleaning
  unfolding clean_entries
  clean_tmp_files path readable listing = when_opened readable listing (clean_entries path listing)

abbrev pub server_root : Bytes
server_root = codes "/tmp/wowfs_remote"

-- main, up to the service that it registers.
unfoldable pub start : (Bytes → Bool) → Bool → Bool → Listing → Cleaning × WowFsServiceImpl
unfolding clean_tmp_files new_service
start removes with_crash_on_write readable listing = (
  clean_tmp_files removes (codes ".wow") server_root readable listing,
  new_service server_root with_crash_on_write,
)
