-- ===== src/Inject/Errno.antt =====
-- <errno.h> on Linux: the error numbers that unreliablefs_errno_linux.h names.
use wow_so_distributed.Base.{ℕ}

abbrev pub e2big : ℕ
e2big = 7

abbrev pub eacces : ℕ
eacces = 13

abbrev pub eagain : ℕ
eagain = 11

abbrev pub ebadf : ℕ
ebadf = 9

abbrev pub ebusy : ℕ
ebusy = 16

abbrev pub edeadlk : ℕ
edeadlk = 35

abbrev pub edestaddrreq : ℕ
edestaddrreq = 89

abbrev pub edquot : ℕ
edquot = 122

abbrev pub eexist : ℕ
eexist = 17

abbrev pub efault : ℕ
efault = 14

abbrev pub efbig : ℕ
efbig = 27

abbrev pub eintr : ℕ
eintr = 4

abbrev pub einval : ℕ
einval = 22

abbrev pub eio : ℕ
eio = 5

abbrev pub eisdir : ℕ
eisdir = 21

abbrev pub eloop : ℕ
eloop = 40

abbrev pub emfile : ℕ
emfile = 24

abbrev pub emlink : ℕ
emlink = 31

abbrev pub enametoolong : ℕ
enametoolong = 36

abbrev pub enfile : ℕ
enfile = 23

abbrev pub enodata : ℕ
enodata = 61

abbrev pub enodev : ℕ
enodev = 19

abbrev pub enoent : ℕ
enoent = 2

abbrev pub enolck : ℕ
enolck = 37

abbrev pub enomem : ℕ
enomem = 12

abbrev pub enospc : ℕ
enospc = 28

abbrev pub enosys : ℕ
enosys = 38

abbrev pub enotdir : ℕ
enotdir = 20

abbrev pub enotempty : ℕ
enotempty = 39

abbrev pub enotsup : ℕ
enotsup = 95

abbrev pub enotty : ℕ
enotty = 25

abbrev pub enxio : ℕ
enxio = 6

abbrev pub eopnotsupp : ℕ
eopnotsupp = 95

abbrev pub eoverflow : ℕ
eoverflow = 75

abbrev pub eperm : ℕ
eperm = 1

abbrev pub epipe : ℕ
epipe = 32

abbrev pub erange : ℕ
erange = 34

abbrev pub erofs : ℕ
erofs = 30

abbrev pub espipe : ℕ
espipe = 29

abbrev pub esrch : ℕ
esrch = 3

abbrev pub etxtbsy : ℕ
etxtbsy = 26

abbrev pub ewouldblock : ℕ
ewouldblock = 11

abbrev pub exdev : ℕ
exdev = 18
