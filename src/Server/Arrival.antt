-- ===== src/Server/Arrival.antt =====
-- Writeback of wowRPC/WowRPCClient.C against Writeback of wowRPC/WowRPCServer.H: what stands in the
-- file that the server writes.
use wow_so_distributed.Base.{
  some, ℕ, zero, suc, ◌+◌, ◌-◌, ◌≤◌, ◌==◌, ℤ, pos, is_minus_one, is_positive, int32, ◌+ℤ◌, true,
  false, [], ◌∷◌, ◌++◌, Bytes, length, take, drop, replicate, min, length-take, take_all, take-take,
  take-append-take, append-nil, ◌≡◌, refl, ap, ◌∙◌, arith, Bool-cases, inl, inr, if◌then◌else◌,
}
use wow_so_distributed.Base.Int.{pos_part, add_pos}
use wow_so_distributed.Host.{Call, History, WriteRequest, Env}
use wow_so_distributed.Exec.{Exit, returned, continue}
use wow_so_distributed.Machine.{Process}
use wow_so_distributed.Client.{chunk_size, chunk_request, writeback}
use wow_so_distributed.Client.Chunks.{requests, sent, sent-writeback}
use wow_so_distributed.Server.{WowFsServiceImpl, Handler, sys}
use wow_so_distributed.Server.Uploads.{
  Upload, Round, no_upload, open_output, write_output, receive, settle, commit, serve_writeback,
  with_paths,
}

-- A file after a pwrite of `text` at `offset`.
abbrev pub put_at : ℕ → Bytes → Bytes → Bytes
put_at offset text file =
    (take offset file ++ replicate (offset - length file) 0)
    ++ (text ++ drop (offset + length text) file)

-- The file behind the descriptor that was opened last, as the calls left it: an open truncates it.
abbrev pub content : History → Bytes
content [] = []
content ((Call.open_file path flags mode, r) ∷ h) = []
content ((Call.pwrite fd text size offset, r) ∷ h) =
    put_at (pos_part offset) (take size text) (content h)
content (_ ∷ h) = content h

drop_past : (n : ℕ) (xs : Bytes) → length xs ≤ n → drop n xs ≡ []
drop_past zero [] h = refl
drop_past zero (x ∷ xs) h = ground (arith, h)
drop_past (suc n) [] h = refl
drop_past (suc n) (x ∷ xs) h = drop_past n xs (omega (arith, h))

put_at_end : (n : ℕ) (text file : Bytes) → length file ≡ n → put_at n text file ≡ file ++ text
put_at_end n text file e =
    let none : n - length file ≡ 0 = omega (arith, e) in
    rw
      (
        none,
        take_all n file (omega (arith, e)),
        drop_past (n + length text) file (omega (arith, e)),
        append-nil,
      )
      (ap (λ l. file ++ l) (append-nil text))

-- A chunk that is written where the file ends.
put_chunk :
    (buf : Bytes) (at remaining : ℕ)
    → at + remaining ≡ length buf
    → let e = min chunk_size remaining in
      put_at at (take e (take e (drop at buf))) (take at buf) ≡ take (at + e) buf
put_chunk buf at remaining whole =
    let e = min chunk_size remaining in
    put_at_end at _ (take at buf) (length-take at buf ∙ omega (arith, whole))
    ∙ rw (take-take, take-append-take)

module _ (env : Env) (service : WowFsServiceImpl)
    (written : (h : History) (fd : ℤ) (text : Bytes) (size offset : ℕ)
      → (env.answer h (Call.pwrite fd text size (pos offset))).ret ≡ pos size) where
  -- The loop has written the first `n` bytes of `buf`.
  record HasWritten (buf : Bytes) (n : ℕ) (x : Exit Round × History) : Type 0 where
    up : Upload
    went_on : x.0 ≡ returned (inr up)
    opened : is_minus_one up.output_fd ≡ false
    counted : up.num_bytes_written ≡ pos n
    stored : content x.1 ≡ take n buf

  open_output_again :
      (up : Upload) (h : History)
      → is_minus_one up.output_fd ≡ false
      → open_output env service up h ≡ (returned (inr up), h)
  unfolding open_output
  open_output_again up h there = rw there

  write_output-HasWritten :
      (path buf : Bytes) (at remaining : ℕ) (up : Upload) (h : History)
      → at + remaining ≡ length buf
      → is_minus_one up.output_fd ≡ false
      → up.num_bytes_written ≡ pos at
      → content h ≡ take at buf
      → let e = min chunk_size remaining in
        HasWritten buf (at + e) (write_output env service (chunk_request path buf at e) (inr up) h)
  unfolding write_output sys
  write_output-HasWritten path buf at remaining up h whole there counted stored =
      let e = min chunk_size remaining in
      let req = chunk_request path buf at e in
      record {
        up = record up { num_bytes_written = pos at +ℤ pos e };
        went_on = simp (written, counted) refl;
        opened = there;
        counted = add_pos at e;
        stored = rw stored (put_chunk buf at remaining whole);
      }

  HasWritten-bind :
      (buf : Bytes) (n m : ℕ) (x : Exit Round × History) (f : Round → Handler Round)
      → HasWritten buf n x
      → ((up : Upload) (h : History)
          → is_minus_one up.output_fd ≡ false
          → up.num_bytes_written ≡ pos n
          → content h ≡ take n buf
          → HasWritten buf m (f (inr up) h))
      → HasWritten buf m (continue x.0 f x.1)
  HasWritten-bind buf n m x f v k = rw v.went_on (k v.up x.1 v.opened v.counted v.stored)

  receive_nothing :
      (buf : Bytes) (at : ℕ) (up : Upload) (h : History)
      → at ≡ length buf
      → is_minus_one up.output_fd ≡ false
      → up.num_bytes_written ≡ pos at
      → content h ≡ take at buf
      → HasWritten buf (length buf) (receive env service [] (inr up) h)
  unfolding receive
  receive_nothing buf at up h end there counted stored =
      rw (← end)
        (record { up = up; went_on = refl; opened = there; counted = counted; stored = stored })

  -- The rounds behind the first.
  receive_rest :
      (fuel : ℕ) (path buf : Bytes) (at remaining : ℕ) (up : Upload) (h : History)
      → remaining ≤ fuel
      → at + remaining ≡ length buf
      → is_minus_one up.output_fd ≡ false
      → up.num_bytes_written ≡ pos at
      → content h ≡ take at buf
      → HasWritten buf (length buf) (
          receive env service
            (if remaining == 0 then [] else requests fuel path buf at remaining)
            (inr up)
            h)
  unfolding receive requests
  receive_rest zero path buf at remaining up h enough whole there counted stored =
      let done : (remaining == 0) ≡ true = ground (arith, enough) in
      rw done (receive_nothing buf at up h (omega (arith, whole, enough)) there counted stored)
  receive_rest (suc fuel) path buf at remaining up h enough whole there counted stored =
      elim (Bool-cases (remaining == 0)) [
        | inl done ↦
            rw done (receive_nothing buf at up h (ground (arith, whole, done)) there counted stored)
        | inr more ↦
            let e = min chunk_size remaining in
            let next = with_paths service.basedir (chunk_request path buf at e) up in
            rw (more, open_output_again next h there)
              (HasWritten-bind buf (at + e) (length buf) _
                (receive env service (
                  if remaining - e == 0
                  then []
                  else requests fuel path buf (at + e) (remaining - e)))
                (write_output-HasWritten path buf at remaining next h whole there counted stored)
                (λ up1 h1 there1 counted1 stored1.
                  receive_rest fuel path buf (at + e) (remaining - e) up1 h1
                    (ground (arith, enough, more)) (omega (arith, whole)) there1 counted1 stored1))
      ]

  module _
      (opens : (h : History) (path : Bytes)
        → is_minus_one (env.answer h (Call.open_file path (pos 577) (some 511))).ret ≡ false) where
    receive_all :
        (fuel : ℕ) (path buf : Bytes) (h : History)
        → length buf ≤ fuel
        → HasWritten buf
            (length buf)
            (receive env service (requests (suc fuel) path buf 0 (length buf)) (inr no_upload) h)
    unfolding receive requests open_output sys
    receive_all fuel path buf h enough =
        let e = min chunk_size (length buf) in
        let next = with_paths service.basedir (chunk_request path buf 0 e) no_upload in
        let r = env.answer h (Call.open_file next.tmp_path (pos 577) (some 511)) in
        simp (opens) (
          HasWritten-bind buf (0 + e) (length buf) _
            (receive env service
              (if length buf - e == 0 then [] else requests fuel path buf (0 + e) (length buf - e)))
            (write_output-HasWritten path buf 0 (length buf) (record next { output_fd = r.ret })
              ((Call.open_file next.tmp_path (pos 577) (some 511), r) ∷ h) (omega arith)
              (opens h next.tmp_path) refl refl)
            (λ up1 h1 there1 counted1 stored1.
              receive_rest fuel path buf (0 + e) (length buf - e) up1 h1 (omega (arith, enough))
                (omega arith) there1 counted1 stored1))

    commit_whole :
        (buf : Bytes) (x : Exit Round × History)
        → service.with_crash_on_write ≡ false
        → HasWritten buf (length buf) x
        → let y = continue x.0 (commit env service) x.1 in
          (y.0 ≡ returned (record { ret = int32 (pos (length buf)); server_errno = pos 0 }))
          × (content y.1 ≡ buf)
    unfolding commit settle sys
    commit_whole buf x calm v =
        let whole : take (length buf) buf ≡ buf = take_all (length buf) buf (omega arith) in
        elim (Bool-cases (is_positive v.up.output_fd)) [
          | inl fd ↦ rw (v.went_on, calm, fd, v.counted) (refl, v.stored ∙ whole)
          | inr none ↦ rw (v.went_on, calm, none, v.counted) (refl, v.stored ∙ whole)
        ]

    -- When the client's stream takes every chunk, the client has sent no chunk before, the server's
    -- opens succeed, its pwrites write all they are given, and it is not set to crash, then the
    -- requests that Writeback of the client sends for `buf` make Writeback of the server leave
    -- exactly `buf` in the file that it has opened, and answer with the length of `buf` (as an
    -- int32) and no error.
    pub serve_writeback-writeback :
        (client : Env) (path buf : Bytes) (s : Process) (h : History)
        → ((h : History) (req : WriteRequest) → (client.answer h (Call.rpc_write req)).ok ≡ true)
        → service.with_crash_on_write ≡ false
        → sent s.history ≡ []
        → let y = serve_writeback env service (sent (writeback client path buf s).1.history) h in
          (y.0 ≡ returned (record { ret = int32 (pos (length buf)); server_errno = pos 0 }))
          × (content y.1 ≡ buf)
    unfolding serve_writeback
    serve_writeback-writeback client path buf s h accepted calm fresh =
        let one : length buf + 1 ≡ suc (length buf) = omega arith in
        rw (sent-writeback client accepted path buf s, fresh, one)
          (commit_whole buf _ calm (receive_all (length buf) path buf h (omega arith)))
