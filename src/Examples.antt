-- ===== src/Examples.antt =====
-- Concrete processes and environments, and in the children the theorems applied to them.
pub mod Handlers
pub mod Parts
pub mod Injections
pub mod Transfers
pub mod Datagrams
pub mod Performances
pub mod Startups
pub mod Disk
pub mod Handovers
pub mod Programs
pub mod Checkpoints
pub mod Accesses
use wow_so_distributed.Base.{ℕ, ℤ, pos, negsuc, Bool, true, false, none, [], Bytes, codes}
use wow_so_distributed.Host.{Call, Reply, Env}
use wow_so_distributed.Cache.{empty, register_file_open, register_file_dirty}
use wow_so_distributed.Machine.{Process, UnreliablefsConfig}
use wow_so_distributed.LocalReorder.{FuseFileInfo}
use wow_so_distributed.Manager.{zero_stat}
use wow_so_distributed.Ops.Session as Session

-- A reply of `ret` with the error number `errno`.
abbrev pub reply : ℤ → ℕ → Bool → Reply
reply ret errno ok = record {
  ret = ret;
  errno = errno;
  server_errno = pos errno;
  ok = ok;
  bytes = [];
  stat = zero_stat;
  messages = [];
  entries = [];
}

-- pwrite writes all, rand and open give 5; other calls give 0.
abbrev pub usual : Call → Reply
usual (Call.pwrite fd text size offset) = reply (pos size) 0 true
usual (Call.open_file path flags mode) = reply (pos 5) 0 true
usual Call.rand = reply (pos 5) 0 true
usual Call.stray_read = reply (pos 77) 0 true
usual _ = reply (pos 0) 0 true

abbrev pub env_of : (Call → Reply) → Env
env_of answer = record {
  answer = λ h c. answer c;
  draw = λ h n. 0;
  of_ℤ = λ z. 0;
  mul = λ a b. a;
  add = λ a b. a;
  ge = λ a b. true;
  sizeof_dirent = 280;
  d_ino = λ b. 1;
  d_type = λ b. 8;
  d_name = λ b. b;
}

abbrev pub quiet : Env
quiet = env_of usual

-- The server answers each request with ENOENT.
abbrev pub refuse : Call → Reply
refuse (Call.rpc r) = reply (negsuc 0) 2 true
refuse c = usual c

-- No request reaches the server.
abbrev pub cut_off : Call → Reply
cut_off (Call.rpc r) = reply (pos 0) 0 false
cut_off c = usual c

abbrev pub plain_conf : UnreliablefsConfig
plain_conf = record { errors = none; config_path = codes "/c" }

abbrev pub plain : Process
plain = Session.started plain_conf

abbrev pub a_file : Bytes
a_file = codes "/a"

abbrev pub fi : FuseFileInfo
fi = record { fh = 5; flags = pos 2 }

-- A process that has written to its open file, on a kernel where each file says hello.
abbrev pub hello : Bytes
hello = codes "hello"

abbrev pub wrote : Process
wrote = record plain {
  cmgr = register_file_dirty (pos 5) (register_file_open (pos 5) a_file empty);
}

abbrev pub says_hello : Call → Reply
says_hello (Call.lseek fd offset whence) = reply (pos 5) 0 true
says_hello (Call.pread fd size offset) = record (reply (pos 5) 0 true) { bytes = hello }
says_hello c = usual c
