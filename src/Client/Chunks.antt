-- ===== src/Client/Chunks.antt =====
-- Writeback of wowRPC/WowRPCClient.C: the requests that its loop writes.
use wow_so_distributed.Base.{
  ℕ, zero, suc, ◌+◌, ◌-◌, ◌==◌, true, List, [], ◌∷◌, ◌++◌, Bytes, length, min, append-nil,
  append_assoc, ◌≡◌, refl, ◌∙◌, Bool-cases, inl, inr, if◌then◌else◌,
}
use wow_so_distributed.Host.{Call, History, WriteRequest, Env}
use wow_so_distributed.Exec.{returned}
use wow_so_distributed.Machine.{Process, call}
use wow_so_distributed.Client.{chunk_size, chunk_request, write_chunks, writeback}

-- The chunks of `buf` from `at` on, at most 1 MiB each; an empty rest is one empty chunk.
unfoldable pub requests : ℕ → Bytes → Bytes → ℕ → ℕ → List WriteRequest
requests zero path buf at remaining = []
requests (suc fuel) path buf at remaining =
    let e = min chunk_size remaining in
    let rest = requests fuel path buf (at + e) (remaining - e) in
    chunk_request path buf at e ∷ (if remaining - e == 0 then [] else rest)

-- The requests that were written to the stream, oldest first.
abbrev pub sent : History → List WriteRequest
sent [] = []
sent ((Call.rpc_write req, r) ∷ h) = sent h ++ req ∷ []
sent (_ ∷ h) = sent h

module _ (env : Env)
    (accepted : (h : History) (req : WriteRequest)
      → (env.answer h (Call.rpc_write req)).ok ≡ true) where
  sent-write_chunks :
      (fuel : ℕ) (path buf : Bytes) (at remaining : ℕ) (s : Process)
      → sent (write_chunks env fuel path buf at remaining s).1.history
        ≡ sent s.history ++ requests fuel path buf at remaining
  unfolding write_chunks call requests
  sent-write_chunks zero path buf at remaining s = rw append-nil
  sent-write_chunks (suc fuel) path buf at remaining s =
      let e = min chunk_size remaining in
      let req = chunk_request path buf at e in
      let c = Call.rpc_write req in
      let s1 = record s { history = (c, env.answer s.history c) ∷ s.history } in
      elim (Bool-cases (remaining - e == 0)) [
        | inl last ↦ simp (accepted, last) refl
        | inr more ↦
            simp (accepted, more)
              (sent-write_chunks fuel path buf (at + e) (remaining - e) s1
                ∙ append_assoc (sent s.history) _ _)
      ]

  write_chunks-returned :
      (fuel : ℕ) (path buf : Bytes) (at remaining : ℕ) (s : Process)
      → (write_chunks env fuel path buf at remaining s).0 ≡ returned tt
  unfolding write_chunks call
  write_chunks-returned zero path buf at remaining s = refl
  write_chunks-returned (suc fuel) path buf at remaining s =
      let e = min chunk_size remaining in
      elim (Bool-cases (remaining - e == 0)) [
        | inl last ↦ simp (accepted, last) refl
        | inr more ↦
            simp (accepted, more)
              (write_chunks-returned fuel path buf (at + e) (remaining - e) (record s {
                history =
                    (
                      Call.rpc_write (chunk_request path buf at e),
                      env.answer s.history (Call.rpc_write (chunk_request path buf at e)),
                    )
                    ∷ s.history;
              }))
      ]

  -- When the stream takes every chunk, Writeback sends the chunks of the whole buffer.
  pub sent-writeback :
      (path buf : Bytes) (s : Process)
      → sent (writeback env path buf s).1.history
        ≡ sent s.history ++ requests (length buf + 1) path buf 0 (length buf)
  unfolding writeback call
  sent-writeback path buf s = simp (write_chunks-returned, sent-write_chunks) refl
