-- ===== src/Manager/Keeps.antt =====
-- The methods of WowManager (wowFS/unreliablefs/unreliablefs.h) and the file methods of
-- WowCacheManager (wowUtils/WowCache.H) touch the history only.
use wow_so_distributed.Base.{zero, suc, ℤ, pos, negsuc, Bytes}
use wow_so_distributed.Host.{Env}
use wow_so_distributed.Exec.Keeps.{Keeps}
use wow_so_distributed.Machine.{Process}
use wow_so_distributed.Machine.Ambient.{IsAmbient, ambient_rules}
use wow_so_distributed.Cache.Files
use wow_so_distributed.Client.Keeps.{client_rules}
use wow_so_distributed.Manager.{should_fetch, writeback_to_server}

module _ (env : Env) {P : Process → Type 0} (amb : IsAmbient P) where
  pub Keeps-construct_dir_path : (path : Bytes) → Keeps P (Files.construct_dir_path env path)
  unfolding Files.construct_dir_path
  Keeps-construct_dir_path path = search ambient_rules

  pub Keeps-save_to_cache : (path buf : Bytes) → Keeps P (Files.save_to_cache env path buf)
  unfolding Files.save_to_cache
  Keeps-save_to_cache path buf = search (ambient_rules, Keeps-construct_dir_path) depth 12

  Keeps-read_sized : (fd size : ℤ) → Keeps P (Files.read_sized env fd size)
  unfolding Files.read_sized
  Keeps-read_sized fd (pos size) = search ambient_rules depth 10
  Keeps-read_sized fd (negsuc zero) = search ambient_rules
  Keeps-read_sized fd (negsuc (suc n)) = search ambient_rules

  pub Keeps-read_file : (fd : ℤ) → Keeps P (Files.read_file env fd)
  unfolding Files.read_file
  Keeps-read_file fd = search (ambient_rules, Keeps-read_sized) depth 14

  pub Keeps-delete_from_cache : (path : Bytes) → Keeps P (Files.delete_from_cache env path)
  unfolding Files.delete_from_cache
  Keeps-delete_from_cache path = search ambient_rules

  pub Keeps-rename_cached : (old new : Bytes) → Keeps P (Files.rename env old new)
  unfolding Files.rename
  Keeps-rename_cached old new = search ambient_rules

  pub Keeps-should_fetch : (path : Bytes) → Keeps P (should_fetch env path)
  unfolding should_fetch
  Keeps-should_fetch path = search (ambient_rules, client_rules)

  pub Keeps-writeback_to_server :
      (path : Bytes) (fd : ℤ) → Keeps P (writeback_to_server env path fd)
  unfolding writeback_to_server
  Keeps-writeback_to_server path fd = search (ambient_rules, client_rules, Keeps-read_file) depth 12

pub ruleset manager_rules = (
  Keeps-construct_dir_path, Keeps-save_to_cache, Keeps-read_file, Keeps-delete_from_cache,
  Keeps-rename_cached, Keeps-should_fetch, Keeps-writeback_to_server,
)
