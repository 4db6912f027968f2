-- ===== src/Examples/Transfers.antt =====
-- The theorems applied to concrete input: uploads and downloads between client and server.
use wow_so_distributed.Base.{
  false, pos, true, false, [], ◌∷◌, Bytes, codes, ◌≡◌, refl, int_eq, bytes_eq, arith,
}
use wow_so_distributed.Host.{ReadResponse, Call, Reply, History}
use wow_so_distributed.Exec.{returned}
use wow_so_distributed.Client.{download_file, download_dir}
use wow_so_distributed.Server.{WowFsServiceImpl}
use wow_so_distributed.Server.DirStream as DirStream
use wow_so_distributed.Server.Downloads.{
  serve_read_dir, read_entries, serve_read_file, chunks_from, send_sized, send_file,
}
use wow_so_distributed.Server.FileStream as FileStream
use wow_so_distributed.Examples.{reply, usual, env_of, quiet, plain, a_file}

abbrev service : WowFsServiceImpl
service = record { basedir = codes "/r/"; with_crash_on_write = false }

abbrev hello : Bytes
hello = codes "hello"

abbrev chunk : ReadResponse
chunk = record { ret = pos 5; server_errno = pos 0; buf = hello }

-- The server's kernel has a file with five bytes; the client gets one chunk.
abbrev stored : Call → Reply
stored (Call.pread fd n offset) = record (reply (pos 5) 0 true) { bytes = hello }
stored c = usual c

abbrev streamed : Call → Reply
streamed (Call.rpc_read_file path size) = record (reply (pos 0) 0 true) { messages = chunk ∷ [] }
streamed c = usual c

download_file-serve_read_file_example :
    (download_file (env_of streamed) a_file (pos 5) plain).0
    ≡ returned (record { ret = pos 5; server_errno = pos 0 }, hello)
unfolding serve_read_file chunks_from send_file send_sized
download_file-serve_read_file_example =
    FileStream.download_file-serve_read_file (env_of streamed) a_file 5 plain (env_of stored)
      service [] refl refl (omega arith) (omega arith) refl refl

-- The server's directory has one entry, of five bytes.
abbrev one_entry : History → Call → Reply
one_entry ((Call.readdir, r) ∷ h) Call.readdir = reply (pos 0) 0 false
one_entry h Call.readdir = record (reply (pos 0) 0 true) { bytes = hello }
one_entry h c = usual c

abbrev streamed_dir : Call → Reply
streamed_dir (Call.rpc_read_dir path) = record (reply (pos 0) 0 true) { messages = chunk ∷ [] }
streamed_dir c = usual c

download_dir-serve_read_dir_example :
    (download_dir (env_of streamed_dir) a_file plain).0
    ≡ returned (record { ret = pos 5; server_errno = pos 0 }, hello)
unfolding serve_read_dir read_entries chunks_from
download_dir-serve_read_dir_example =
    DirStream.download_dir-serve_read_dir (env_of streamed_dir) a_file plain
      (record quiet { answer = one_entry }) service [] 3 hello refl refl (omega arith) refl refl
