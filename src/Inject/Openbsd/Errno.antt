-- ===== src/Inject/Openbsd/Errno.antt =====
-- <errno.h> of OpenBSD: the error numbers that differ within the BSD family.
use wow_so_distributed.Base.{ℕ}

abbrev pub eopnotsupp : ℕ
eopnotsupp = 45

abbrev pub eoverflow : ℕ
eoverflow = 87
