-- ===== src/Ops/KeepsNames.antt =====
-- As Ops/Keeps.antt, for the handlers on names, attributes and single local calls.
use wow_so_distributed.Base.{ℕ, zero, suc, ℤ, Bool, Option, none, some, [], ◌∷◌, Bytes}
use wow_so_distributed.Host.{Call, Stat, Env}
use wow_so_distributed.Exec.Keeps.{Keeps}
use wow_so_distributed.Machine.{Process}
use wow_so_distributed.Machine.Stable.{IsStable}
use wow_so_distributed.LocalReorder.{FuseFileInfo}
use wow_so_distributed.Manager.{StatSelect, remote}
use wow_so_distributed.Inject.FuseOps.{FuseOp}
use wow_so_distributed.Ops.Prologue.{one_call}
use wow_so_distributed.Ops.Directory
use wow_so_distributed.Ops.Local
use wow_so_distributed.Ops.Attributes
use wow_so_distributed.Ops.Keeps.{stable_rules, Keeps-guarded}

ruleset body_rules = (stable_rules, Keeps-guarded)

module _ (env : Env) {P : Process → Type 0} (st : IsStable P) where
  pub Keeps-mkdir_handler :
      (path : Bytes) (mode : ℤ) → Keeps P (Directory.unreliable_mkdir env path mode)
  unfolding Directory.unreliable_mkdir
  Keeps-mkdir_handler path mode = search body_rules depth 9

  pub Keeps-unlink_handler : (path : Bytes) → Keeps P (Directory.unreliable_unlink env path)
  unfolding Directory.unreliable_unlink
  Keeps-unlink_handler path = search body_rules depth 9

  pub Keeps-rmdir_handler : (path : Bytes) → Keeps P (Directory.unreliable_rmdir env path)
  unfolding Directory.unreliable_rmdir
  Keeps-rmdir_handler path = search body_rules depth 9

  pub Keeps-symlink_handler :
      (target path : Bytes) → Keeps P (Directory.unreliable_symlink env target path)
  unfolding Directory.unreliable_symlink
  Keeps-symlink_handler target path = search body_rules depth 9

  pub Keeps-rename_handler : (old new : Bytes) → Keeps P (Directory.unreliable_rename env old new)
  unfolding Directory.unreliable_rename
  Keeps-rename_handler old new = search body_rules depth 9

  pub Keeps-link_handler : (old new : Bytes) → Keeps P (Directory.unreliable_link env old new)
  unfolding Directory.unreliable_link
  Keeps-link_handler old new = search body_rules depth 9

  pub Keeps-access_handler :
      (path : Bytes) (mode : ℤ) → Keeps P (Directory.unreliable_access env path mode)
  unfolding Directory.unreliable_access
  Keeps-access_handler path mode = search body_rules depth 9

  pub Keeps-one_call : (path : Bytes) (op : FuseOp) (c : Call) → Keeps P (one_call env path op c)
  unfolding one_call
  Keeps-one_call path op c = search body_rules depth 9

  pub Keeps-readlink : (path : Bytes) (size : ℕ) → Keeps P (Local.unreliable_readlink env path size)
  unfolding Local.unreliable_readlink
  Keeps-readlink path size = search body_rules depth 9

  pub Keeps-chmod : (path : Bytes) (mode : ℤ) → Keeps P (Local.unreliable_chmod env path mode)
  unfolding Local.unreliable_chmod
  Keeps-chmod path mode = search body_rules depth 9

  pub Keeps-listxattr :
      (path : Bytes) (size : ℕ) → Keeps P (Local.unreliable_listxattr env path size)
  unfolding Local.unreliable_listxattr
  Keeps-listxattr path size = search body_rules depth 9

  pub Keeps-fsyncdir :
      (path : Bytes) (datasync : Bool) → Keeps P (Local.unreliable_fsyncdir env path datasync)
  unfolding Local.unreliable_fsyncdir
  Keeps-fsyncdir path datasync = search body_rules depth 12

  pub Keeps-ftruncate :
      (path : Bytes) (length : ℤ) (fi : FuseFileInfo)
      → Keeps P (Local.unreliable_ftruncate env path length fi)
  unfolding Local.unreliable_ftruncate
  Keeps-ftruncate path length fi = search body_rules depth 12

  pub Keeps-fgetattr :
      (path : Bytes) (buf : Stat) (fi : FuseFileInfo)
      → Keeps P (Local.unreliable_fgetattr env path buf fi)
  unfolding Local.unreliable_fgetattr
  Keeps-fgetattr path buf fi = search body_rules depth 9

  pub Keeps-ioctl :
      (path : Bytes) (cmd : ℤ) (fi : FuseFileInfo)
      → Keeps P (Local.unreliable_ioctl env path cmd fi)
  unfolding Local.unreliable_ioctl
  Keeps-ioctl path cmd fi = search body_rules depth 9

  Keeps-allocate :
      (fi : Option FuseFileInfo) (mode offset len : ℤ)
      → Keeps P (Local.allocate env fi mode offset len)
  unfolding Local.allocate
  Keeps-allocate none mode offset len = search body_rules
  Keeps-allocate (some fi) mode offset len = search body_rules depth 9

  Keeps-open_or_allocate :
      (path : Bytes) (mode offset len : ℤ) (fi : Option FuseFileInfo)
      → Keeps P (Local.open_or_allocate env path mode offset len fi)
  unfolding Local.open_or_allocate
  Keeps-open_or_allocate path mode offset len none = search body_rules depth 9
  Keeps-open_or_allocate path mode offset len (some fi) =
      search (body_rules, Keeps-allocate) depth 9

  pub Keeps-fallocate :
      (path : Bytes) (mode offset len : ℤ) (fi : Option FuseFileInfo)
      → Keeps P (Local.unreliable_fallocate env path mode offset len fi)
  unfolding Local.unreliable_fallocate
  Keeps-fallocate path mode offset len fi = search (body_rules, Keeps-open_or_allocate) depth 9

  pub Keeps-lstat : (path : Bytes) (buf : Stat) → Keeps P (Attributes.unreliable_lstat env path buf)
  unfolding Attributes.unreliable_lstat
  Keeps-lstat path buf = search body_rules depth 9

  pub Keeps-getattr :
      (path : Bytes) (buf : Stat) → Keeps P (Attributes.unreliable_getattr env path buf)
  unfolding Attributes.unreliable_getattr
  Keeps-getattr path buf = search body_rules depth 9

  Keeps-fetch_xattr :
      (source : StatSelect) (path name value : Bytes) (size : ℕ)
      → Keeps P (Attributes.fetch_xattr env source path name value size)
  unfolding Attributes.fetch_xattr
  Keeps-fetch_xattr remote path name value size = search body_rules
  Keeps-fetch_xattr _ path name value size = search body_rules

  pub Keeps-getxattr :
      (path name value : Bytes) (size : ℕ)
      → Keeps P (Attributes.unreliable_getxattr env path name value size)
  unfolding Attributes.unreliable_getxattr
  Keeps-getxattr path name value size = search (body_rules, Keeps-fetch_xattr) depth 9

  Keeps-fill_entries :
      (fuel : ℕ) (dir_buf : Bytes) → Keeps P (Attributes.fill_entries env fuel dir_buf)
  unfolding Attributes.fill_entries
  Keeps-fill_entries zero dir_buf = search body_rules
  Keeps-fill_entries (suc fuel) [] = search body_rules
  Keeps-fill_entries (suc fuel) (b ∷ s) = search (body_rules, Keeps-fill_entries fuel) depth 8

  pub Keeps-readdir : (path : Bytes) → Keeps P (Attributes.unreliable_readdir env path)
  unfolding Attributes.unreliable_readdir
  Keeps-readdir path = search (body_rules, Keeps-fill_entries) depth 12
