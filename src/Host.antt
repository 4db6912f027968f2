-- ===== src/Host.antt =====
-- What the program calls and does not implement: the C library, the kernel, std::filesystem,
-- FUSE, the ini parser and the gRPC stub. `Call` has one constructor for each such call, with the
-- arguments of the source, and `Env` answers a call from everything that was called before, so
-- that it stands for any behaviour of the outside world, other processes included.
use wow_so_distributed.Base.{ℕ, ℤ, Bool, Option, List, Bytes}

-- struct stat, as far as the program reads it.
pub record Stat : Type 0 where
  pub mtime_sec : ℤ
  pub mtime_nsec : ℤ
  pub size : ℤ
  pub is_dir : Bool

-- The unary requests of wowRPC/fs.proto.
pub data Request : Type 0 where
  download_stat : Bytes → Request
  get_xattr : Bytes → Bytes → ℕ → Request
  access : Bytes → ℤ → Request
  mkdir : Bytes → ℤ → Request
  rmdir : Bytes → Request
  open_file : Bytes → ℤ → Request
  create : Bytes → ℤ → ℤ → Request
  unlink : Bytes → Request
  rename : Bytes → Bytes → Request
  link : Bytes → Bytes → Request
  symlink : Bytes → Bytes → Request
  -- the `ret` of their replies is ok() of the Ack
  test_call : ℤ → Request
  speed_test : ℤ → Bytes → Request

-- StreamWriteRequest of wowRPC/fs.proto.
pub record WriteRequest : Type 0 where
  pub path : Bytes
  pub buf : Bytes
  pub size : ℕ
  pub offset : ℕ

-- StreamReadResponse of wowRPC/fs.proto.
pub record ReadResponse : Type 0 where
  pub ret : ℤ
  pub server_errno : ℤ
  pub buf : Bytes

pub data Call : Type 0 where
  lstat stat statvfs rmdir unlink opendir : Bytes → Call
  mkdir chmod : Bytes → ℤ → Call
  access : Bytes → ℤ → Call
  mknod : Bytes → ℤ → ℤ → Call
  chown : Bytes → ℤ → ℤ → Call
  symlink link rename : Bytes → Bytes → Call
  readlink listxattr : Bytes → ℕ → Call
  truncate : Bytes → ℤ → Call
  utimensat : Bytes → Call
  setxattr : Bytes → Bytes → Bytes → ℕ → ℤ → Call
  getxattr : Bytes → Bytes → ℕ → Call
  removexattr : Bytes → Bytes → Call
  -- open(path, flags) and open(path, flags, mode)
  open_file : Bytes → ℤ → Option ℕ → Call
  pread : ℤ → ℕ → ℤ → Call
  pwrite : ℤ → Bytes → ℕ → ℤ → Call
  write : ℤ → Bytes → Call
  close dup fsync fdatasync fstat closedir : ℤ → Call
  lseek : ℤ → ℤ → ℕ → Call
  fcntl ioctl flock ftruncate : ℤ → ℤ → Call
  fallocate : ℤ → ℤ → ℤ → ℤ → Call
  -- fopen(path, "wb"), fwrite and fclose on that stream
  fopen : Bytes → Call
  fwrite : Bytes → Call
  fclose : Call
  -- std::filesystem: `ok` is false if the call throws
  fs_remove create_directories fs_exists : Bytes → Call
  -- std::ifstream and std::getline up to the end: `bytes` is what is read
  ifstream : Bytes → Call
  fs_rename : Bytes → Bytes → Call
  readdir : Call
  rand fuse_get_context : Call
  kill : ℤ → Call
  nanosleep : ℕ → Call
  regcomp : Bytes → Call
  regexec : Bytes → Bytes → Call
  ini_parse : Bytes → Call
  -- fuse_fill_dir_t: name, st_ino, st_mode
  filler : Bytes → ℕ → ℕ → Call
  -- the stub's unary calls; `ok` is status.ok()
  rpc : Request → Call
  -- the client stream of Writeback: writer->Write, then WritesDone and Finish
  rpc_write : WriteRequest → Call
  rpc_write_finish : Call
  -- the server streams of ReadFile and ReadDir: the stub's call, whose `messages` are those that
  -- reader->Read gives until it returns false, and reader->Finish
  rpc_read_file : Bytes → ℤ → Call
  rpc_read_dir : Bytes → Call
  rpc_read_finish : Call
  -- the start of the client: realpath gives NULL where `ok` is false, as malloc does
  realpath : Bytes → Call
  malloc : ℕ → Call
  pthread_mutex_init : Call
  fuse_main : List Bytes → Call
  -- a read behind the end of an array: `ret` is what stands there
  stray_read : Call
  -- `errno` where no call of the handler has just set it
  read_errno : Call

pub record Reply : Type 0 where
  -- the return value; for a stub call, response.ret()
  pub ret : ℤ
  pub errno : ℕ
  pub server_errno : ℤ
  pub ok : Bool
  -- what the call put into its buffer; for a stub call, the message's data
  pub bytes : Bytes
  pub stat : Stat
  pub messages : List ReadResponse
  -- the handler calls of ini_parse: section, key, value
  pub entries : List (Bytes × Bytes × Bytes)

abbrev pub Event : Type 0
Event = Call × Reply

-- The calls made so far with their replies, newest first.
abbrev pub History : Type 0
History = List Event

-- `Double` is a double by its bit pattern.
abbrev pub Double : Type 0
Double = ℕ

pub record Env : Type 0 where
  pub answer : History → Call → Reply
  -- uniform_int_distribution( 0, i ) of a freshly seeded generator
  pub draw : History → ℕ → ℕ
  -- IEEE 754 arithmetic: conversion of an integer, `*`, `+` and `>=`
  pub of_ℤ : ℤ → Double
  pub mul : Double → Double → Double
  pub add : Double → Double → Double
  pub ge : Double → Double → Bool
  -- sizeof(struct dirent), and the fields d_ino, d_type and d_name of one in a buffer
  pub sizeof_dirent : ℕ
  pub d_ino : Bytes → ℕ
  pub d_type : Bytes → ℕ
  pub d_name : Bytes → Bytes
