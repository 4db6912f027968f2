-- ===== src/Cache/Files.antt =====
-- WowCacheManager of wowUtils/WowCache.H: the methods that work on the cached files.
use wow_so_distributed.Base.{
  ℕ, zero, suc, ◌-◌, ◌==◌, ℤ, pos, negsuc, is_negative, int32, Bool, true, false, none, [], ◌∷◌,
  ◌++◌, Bytes, is_empty, is_positive, length, take, replicate, if◌then◌else◌,
}
use wow_so_distributed.Host.{Call, Env}
use wow_so_distributed.Exec.{pure, terminate, gets, ◌>>=◌, ◌>>◌}
use wow_so_distributed.Machine.{M, call}
use wow_so_distributed.Cache.{get_file_path_from_fd}

-- The loop of constructDirPath: `best` is path.substr( 0, i ) for the last '/' seen, and `seen`
-- the bytes read.
unfoldable pub dir_tree_from : Bytes → Bytes → Bytes → Bytes
dir_tree_from best seen [] = best
dir_tree_from best seen (c ∷ rest) =
    dir_tree_from (if c == b'/' then seen else best) (seen ++ c ∷ []) rest

unfoldable pub is_absolute : Bytes → Bool
is_absolute [] = false
is_absolute (c ∷ rest) = c == b'/'

-- What buf holds after buf.resize( size ) and a pread of `data` into it.
abbrev pub filled : ℕ → Bytes → Bytes
filled size text = take size (text ++ replicate (size - length text) 0)

module _ (env : Env) where
  -- create_directories throws where `ok` is false.
  unfoldable pub construct_dir_path : Bytes → M Bool
  unfolding call dir_tree_from is_absolute
  construct_dir_path path =
      if is_absolute path
      then (do
        r ← call env (Call.create_directories (dir_tree_from [] [] path))
        if r.ok then pure true else terminate)
      else pure false

  unfoldable pub save_to_cache : Bytes → Bytes → M Bool
  unfolding call construct_dir_path
  save_to_cache path buf = do
    constructed ← construct_dir_path path
    if constructed
        then (do
          fp ← call env (Call.fopen path)
          if fp.ok
              then (do call env (Call.fwrite buf); call env Call.fclose; pure true)
              else pure false)
        else pure false

  -- From lseek64's `size` on. A size that is negative and not -1 makes buf.resize throw.
  unfoldable pub read_sized : ℤ → ℤ → M (Bool × Bytes)
  unfolding call
  read_sized read_fd (pos size) = do
    call env (Call.lseek read_fd (pos 0) 0)
    res ← call env (Call.pread read_fd size (pos 0))
    call env (Call.close read_fd)
    pure (if is_negative (int32 res.ret) then (false, []) else (true, filled size res.bytes))
  read_sized read_fd (negsuc zero) = pure (false, [])
  read_sized read_fd (negsuc (suc n)) = terminate

  -- The returned flag and `buf`. O_RDONLY is 0, SEEK_SET 0 and SEEK_END 2.
  unfoldable pub read_file : ℤ → M (Bool × Bytes)
  unfolding call read_sized
  read_file fd = do
    call env (Call.fsync fd)
    path ← gets (λ s. get_file_path_from_fd fd s.cmgr)
    if is_empty path then pure (false, []) else (do
      opened ← call env (Call.open_file path (pos 0) none)
      if is_positive opened.ret
          then (do
            call env (Call.lseek opened.ret (pos 0) 0)
            size ← call env (Call.lseek opened.ret (pos 0) 2)
            read_sized opened.ret size.ret)
          else pure (false, []))

  -- std::filesystem::remove returns normally for a missing file, and throws on another error.
  unfoldable pub delete_from_cache : Bytes → M (Unit {0})
  unfolding call
  delete_from_cache path = do
    r ← call env (Call.fs_remove path)
    if r.ok then pure tt else terminate

  -- std::filesystem::rename throws on any error, a missing file included.
  unfoldable pub rename : Bytes → Bytes → M (Unit {0})
  unfolding call
  rename old_path new_path = do
    r ← call env (Call.fs_rename old_path new_path)
    if r.ok then pure tt else terminate
