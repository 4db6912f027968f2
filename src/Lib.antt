-- ===== src/Lib.antt =====
-- The verification library of wow-so-distributed, a distributed file system: a FUSE client
-- (wowFS/unreliablefs) that keeps a local cache, fetches files from a gRPC server on open and
-- writes them back whole on flush and close, and that can inject errors, reorder writes and delay
-- writebacks; and the server (wowRPC).
--
-- How the parts interact. A handler of wowFS/unreliablefs/unreliablefs_ops.c first calls
-- error_inject, whose result may end it or change its course, then asks the server through the
-- methods of WowRPCClient and works on the cached files; the WowCacheManager counts open files, and
-- the WowManager decides between the local and the server's file by their modification times.
-- Writes can be recorded in the queue of WowLocalWriteReorder, which a flush shuffles and writes;
-- writebacks can be put into the list of WowWritebackReorderManager, which its watchdog, an open of
-- the file and the end of the process work off.
--
-- The files.
--   Base, Exec     the shared names: lists and integers on native numbers, byte strings,
--                  dictionaries; stateful code that may end the process, and invariants of it
--   Host           the calls of the program to libc, the kernel, FUSE, std::filesystem, the ini
--                  parser and the gRPC stub, as data, and an environment that answers them; `Env`
--                  is a parameter everywhere, so that a theorem holds for every behaviour of these
--   Machine        the state of a client process; error injection types of unreliablefs_errinj.h
--   Cache          wowUtils/WowCache.H: FileMeta, registerFileOpen/Close/Dirty, isFileOpen, ...;
--                  Cache/Files: constructDirPath, saveToCache, readFile, deleteFromCache, rename
--   LocalReorder   wowFS/unreliablefs/WowLocalWriteReorder.H: RecordWrite, FisherYatesShuffle
--   Client         wowRPC/WowRPCClient.C: each method of WowRPCClient under its name
--   Manager        WowManager of wowFS/unreliablefs/unreliablefs.h: removeMountPrefix, shouldFetch,
--                  writebackToServer
--   Mount          wowFS/unreliablefs/unreliablefs.c: main behind fuse_opt_parse, is_dir and
--                  unreliablefs_opt_proc; Mount/Table: setup_unreliable_ops
--   Inject         wowFS/unreliablefs/unreliablefs_errinj.c: error_inject, config_init,
--                  conf_option_handler; Inject/TablesA and TablesB: unreliablefs_errno_linux.h;
--                  Inject/Freebsd, Openbsd, Macosx: unreliablefs_errno_<system>.h; Inject/Systems: all
--                  of them, with the numbers of each system's <errno.h>
--   Writeback      wowFS/unreliablefs/WowWritebackReorderManager.H: addNewWriteback, onFileOp,
--                  popOne and the destructor, over any state that holds the list
--   Ops            wowFS/unreliablefs/unreliablefs_ops.c: each handler under its name; Ops/Session
--                  puts the handlers and the watchdog together to the life of a client;
--                  Ops/Fetches, FetchFails, CloseToOpen: what open makes of the cached file, and a
--                  file's way from the release of one client to the open of another; Ops/Reorder:
--                  what a flush writes; Ops/Bytes: read and write as an array of bytes; Ops/Queue,
--                  ServerFirst: the queue of writes, and the handlers that ask the server first
--   Server         wowRPC/WowRPCServer.H: each method of WowFSServiceImpl as serve_<name>;
--                  Server/Startup: CleanTmpFiles and the service of wowRPC/server.cpp;
--                  Server/Atomic, Installed, Journey: the server's files, for any account of
--                  their contents that has the named laws
--   FhLookup       wowUtils/FHLookup.H: FHManager
--   Concert        wowAB/WowConcert.H: waitRegistrations and waitMsgSubset of WowOrchestra;
--                  Concert/Orchestra: perform and what it sends; Concert/Participant: playClient and
--                  playSink; Concert/Stage: the four together, and the datagrams between them;
--                  Concert/Cue, Show: the same in short; Concert/Loss: a lost datagram;
--                  Concert/Masks: what waitMsgSubset waits for; Concert/Handles: the nodes' file;
--                  Concert/Socket: wowAB/WowSocket.H, and the type that wowAB/participant.cpp takes;
--                  Concert/Programs: the rest of it, wowAB/orchestrator.cpp and wowRPC/client.cpp
--   Workloads      workloads/durability_tests: reorder.cc, and its writes in the queue of recorded
--                  writes; checkpoint.cpp, its crash safety and its computation
--   Logger         wowUtils/WowLogger.H: filename and LogBasic
--   Examples       concrete runs, to which the theorems are applied
--
-- Conventions. A number of a C type of fixed width is an ℕ or a ℤ with the conversions of the
-- source written out (int32, fh_of). A map is an association list, a std::string the list of its
-- bytes. A handler is one step: the requests of several threads are taken one after another. A call
-- appends itself and its reply to the history, so that "nothing is called" is an equation of states.
--
-- Bounds. The loop of the client's Writeback gets one round for each byte and one more, and that of
-- the server's ReadFile one for each byte: each round but the first takes at least one byte. The
-- readdir loop of the server takes its fuel as an argument.
--
-- Not modelled: where the programs log and what they print; the addresses of datagrams, and the
-- network, in whose place Concert/Stage has one that loses nothing and Concert/Loss one that loses a
-- datagram; what the nodes of a performance write and read; fuse_opt_parse and the parsing of the
-- other programs' command lines; the copied ini parser conf.c; the copied file system exerciser
-- fsx.c and the scripts; weak memory and data races.
pub mod Base
pub mod Host
pub mod Exec
pub mod Cache
pub mod LocalReorder
pub mod Machine
pub mod Client
pub mod Manager
pub mod Mount
pub mod Inject
pub mod Writeback
pub mod Ops
pub mod Server
pub mod Workloads
pub mod FhLookup
pub mod Logger
pub mod Concert
pub mod Examples
