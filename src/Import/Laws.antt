-- ===== src/Import/Laws.antt =====
-- What one call of the store does (import_batch_store.go).
use rknno_vpn.Prelude.{
  ℕ, String, ◌<◌, ◌≤◌, false, ◌≡◌, ◌≢◌, ◌⊎◌, List, [], ◌∷◌, ◌++◌, some, arith, length, str_eq,
  eq_iff, ==_iff,
}
use rknno_vpn.Runtime.Types.{Time}
use rknno_vpn.Import.Store.{
  ImportBatch, ImportBatchState, ImportBatchStore, total_mismatch, already_full, added,
  batch_not_found, committed, import_batch_state, cleanup, append_chunk, add, commit,
}

module _ {A : Type 0} where
  -- A commit that succeeds takes its batch away: the next one of this id finds none, at any time.
  pub commit_twice :
      (s : ImportBatchStore A) (id : String) (now later : Time) (nodes : List A)
      (state : ImportBatchState)
      → (commit s id now).1 ≡ committed nodes state
      → (commit (commit s id now).0 id later).1 ≡ batch_not_found
  unfolding commit cleanup
  commit_twice s id now later nodes state e = ground (arith, e, eq_iff id id)

  -- A call for one batch leaves every other batch as it is, but for those that have expired.
  pub others_kept :
      (s : ImportBatchStore A) (id other : String) (total : ℕ) (nodes : List A) (now : Time)
      → str_eq id other ≡ false
      → ((add s id total nodes now).0 other ≡ cleanup now s other)
        × ((commit s id now).0 other ≡ cleanup now s other)
  unfolding add commit append_chunk cleanup
  others_kept s id other total nodes now e = ground (arith, e)

  -- A chunk for a live batch is refused where the totals differ or the batch has all its chunks, which
  -- leaves the batch as it was; else it comes behind the chunks of the batch.
  pub add_live :
      (s : ImportBatchStore A) (id : String) (b : ImportBatch A) (total : ℕ) (nodes : List A)
      (now : Time)
      → cleanup now s id ≡ some b
      → let after = add s id total nodes now in
        let next = record b { chunks = b.chunks ++ nodes ∷ []; updated_at = now } in
        ((b.total_batches ≢ total)
          × (after.1 ≡ total_mismatch total b.total_batches)
          × (after.0 id ≡ some b))
        ⊎ (((b.total_batches ≡ total)
              × (total ≤ length b.chunks)
              × (after.1 ≡ already_full (length b.chunks) total)
              × (after.0 id ≡ some b))
            ⊎ ((b.total_batches ≡ total)
                × (length b.chunks < total)
                × (after.1 ≡ added (import_batch_state id next))
                × (after.0 id ≡ some next)))
  unfolding add append_chunk
  add_live s id b total nodes now e =
      let t = ==_iff b.total_batches total in
      let q = eq_iff id id in rw (add, e) (ground (arith, t, q))
