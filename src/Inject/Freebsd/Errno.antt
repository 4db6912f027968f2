-- ===== src/Inject/Freebsd/Errno.antt =====
-- <errno.h> of FreeBSD: the error numbers that differ within the BSD family.
use wow_so_distributed.Base.{ℕ}

abbrev pub ecapmode : ℕ
ecapmode = 94

abbrev pub eftype : ℕ
eftype = 79

abbrev pub eintegrity : ℕ
eintegrity = 97

abbrev pub enotcapable : ℕ
enotcapable = 93

abbrev pub eopnotsupp : ℕ
eopnotsupp = 45

abbrev pub eoverflow : ℕ
eoverflow = 84
