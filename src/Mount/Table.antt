-- ===== src/Mount/Table.antt =====
-- The table of handlers that wowFS/unreliablefs/unreliablefs.c gives to FUSE, and the one WowManager
-- of wowFS/unreliablefs/unreliablefs.h that its `init` makes. All features of the build are on.
use wow_so_distributed.Base.{ℕ, ℤ, Bool, Option, none, some, Bytes, codes, ◌≡◌, refl}
use wow_so_distributed.Host.{Stat, Env}
use wow_so_distributed.Exec.{pure}
use wow_so_distributed.Machine.{M}
use wow_so_distributed.LocalReorder.{FuseFileInfo}
use wow_so_distributed.Ops.Directory
use wow_so_distributed.Ops.Local
use wow_so_distributed.Ops.Attributes
use wow_so_distributed.Ops.Io
use wow_so_distributed.Ops.Close
use wow_so_distributed.Ops.Open

-- The address that the static WowManager was made with, once there is one.
abbrev pub Manager : Type 0
Manager = Option Bytes

-- InstanceImpl: the first call makes the manager, and each later one finds it.
unfoldable instance_impl : Bytes → Manager → Manager
instance_impl server_address none = some server_address
instance_impl server_address (some address) = some address

abbrev sentinel : Bytes
sentinel = codes "NA"

unfoldable manager_instance : Manager → Manager
unfolding instance_impl
manager_instance = instance_impl sentinel

unfoldable init : Bytes → Manager → Manager
unfolding instance_impl
init = instance_impl

-- struct fuse_operations, with the fields that are set: what a handler takes and gives.
pub record FuseOperations : Type 0 where
  pub getattr : Bytes → Stat → M (ℤ × Stat)
  pub readlink : Bytes → ℕ → M (ℤ × Bytes)
  pub mknod : Bytes → ℤ → ℤ → M ℤ
  pub mkdir : Bytes → ℤ → M ℤ
  pub unlink : Bytes → M ℤ
  pub rmdir : Bytes → M ℤ
  pub symlink : Bytes → Bytes → M ℤ
  pub rename : Bytes → Bytes → M ℤ
  pub link : Bytes → Bytes → M ℤ
  pub chmod : Bytes → ℤ → M ℤ
  pub chown : Bytes → ℤ → ℤ → M ℤ
  pub truncate : Bytes → ℤ → M ℤ
  pub open_file : Bytes → FuseFileInfo → M (ℤ × FuseFileInfo)
  pub read : Bytes → ℕ → ℤ → Option FuseFileInfo → M (ℤ × Bytes)
  pub write : Bytes → Bytes → ℕ → ℤ → Option FuseFileInfo → M ℤ
  pub statfs : Bytes → M ℤ
  pub flush : Bytes → FuseFileInfo → M ℤ
  pub release : Bytes → FuseFileInfo → M ℤ
  pub fsync : Bytes → Bool → FuseFileInfo → M ℤ
  pub setxattr : Bytes → Bytes → Bytes → ℕ → ℤ → M ℤ
  pub getxattr : Bytes → Bytes → Bytes → ℕ → M (ℤ × Bytes)
  pub listxattr : Bytes → ℕ → M (ℤ × Bytes)
  pub removexattr : Bytes → Bytes → M ℤ
  pub opendir : Bytes → FuseFileInfo → M ℤ
  pub readdir : Bytes → M ℤ
  pub releasedir : Bytes → FuseFileInfo → M ℤ
  pub fsyncdir : Bytes → Bool → M ℤ
  pub init_manager : Bytes → Manager → Manager
  pub destroy : Unit {0} → M (Unit {0})
  pub access : Bytes → ℤ → M ℤ
  pub create : Bytes → ℤ → FuseFileInfo → M (ℤ × FuseFileInfo)
  pub ftruncate : Bytes → ℤ → FuseFileInfo → M ℤ
  pub fgetattr : Bytes → Stat → FuseFileInfo → M (ℤ × Stat)
  pub lock : Bytes → FuseFileInfo → ℤ → M ℤ
  pub ioctl : Bytes → ℤ → FuseFileInfo → M ℤ
  pub flock : Bytes → FuseFileInfo → ℤ → M ℤ
  pub fallocate : Bytes → ℤ → ℤ → ℤ → Option FuseFileInfo → M ℤ
  pub utimens : Bytes → M ℤ

-- unreliable_init, whose result is NULL, and unreliable_destroy.
unfoldable unreliable_init : Bytes → Manager → Manager
unfolding init
unreliable_init server_address = init server_address

unfoldable unreliable_destroy : Unit {0} → M (Unit {0})
unreliable_destroy private_data = pure tt

module _ (env : Env) where
  -- unreliable_lstat, unreliable_write_buf and unreliable_read_buf are not entered.
  unfoldable pub setup_unreliable_ops : FuseOperations
  unfolding unreliable_init unreliable_destroy
  setup_unreliable_ops = record {
    getattr = Attributes.unreliable_getattr env;
    readlink = Local.unreliable_readlink env;
    mknod = Local.unreliable_mknod env;
    mkdir = Directory.unreliable_mkdir env;
    unlink = Directory.unreliable_unlink env;
    rmdir = Directory.unreliable_rmdir env;
    symlink = Directory.unreliable_symlink env;
    rename = Directory.unreliable_rename env;
    link = Directory.unreliable_link env;
    chmod = Local.unreliable_chmod env;
    chown = Local.unreliable_chown env;
    truncate = Local.unreliable_truncate env;
    open_file = Open.unreliable_open env;
    read = Io.unreliable_read env;
    write = Io.unreliable_write env;
    statfs = Local.unreliable_statfs env;
    flush = Close.unreliable_flush env;
    release = Close.unreliable_release env;
    fsync = Local.unreliable_fsync env;
    setxattr = Local.unreliable_setxattr env;
    getxattr = Attributes.unreliable_getxattr env;
    listxattr = Local.unreliable_listxattr env;
    removexattr = Local.unreliable_removexattr env;
    opendir = Attributes.unreliable_opendir env;
    readdir = Attributes.unreliable_readdir env;
    releasedir = Attributes.unreliable_releasedir env;
    fsyncdir = Local.unreliable_fsyncdir env;
    init_manager = unreliable_init;
    destroy = unreliable_destroy;
    access = Directory.unreliable_access env;
    create = Open.unreliable_create env;
    ftruncate = Local.unreliable_ftruncate env;
    fgetattr = Local.unreliable_fgetattr env;
    lock = Local.unreliable_lock env;
    ioctl = Local.unreliable_ioctl env;
    flock = Local.unreliable_flock env;
    fallocate = Local.unreliable_fallocate env;
    utimens = Local.unreliable_utimens env;
  }

  -- After the table's `init`, WowManager::Instance finds the manager of the given address, also
  -- behind another Init and Instance.
  manager_instance-unreliable_init :
      (server_address other : Bytes)
      → let m = setup_unreliable_ops.init_manager server_address none in
        (manager_instance m ≡ some server_address)
        × (init other (manager_instance m) ≡ some server_address)
  unfolding setup_unreliable_ops manager_instance instance_impl init
  manager_instance-unreliable_init server_address other = (refl, refl)
