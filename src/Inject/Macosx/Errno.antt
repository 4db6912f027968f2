-- ===== src/Inject/Macosx/Errno.antt =====
-- <errno.h> of macOS: the error numbers that differ within the BSD family.
use wow_so_distributed.Base.{ℕ}

abbrev pub enoattr : ℕ
enoattr = 93

abbrev pub enotsup : ℕ
enotsup = 45

abbrev pub eopnotsupp : ℕ
eopnotsupp = 102

abbrev pub eoverflow : ℕ
eoverflow = 84
