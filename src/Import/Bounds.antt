-- ===== src/Import/Bounds.antt =====
-- How many chunks a batch holds (import_batch_store.go).
use rknno_vpn.Prelude.{
  ℕ, String, ◌≤◌, ◌≡◌, inl, inr, List, Option, none, some, arith, length, length-append,
  Option-cases, Bool-cases, leb, ◌==◌,
}
use rknno_vpn.Runtime.Types.{Time}
use rknno_vpn.Import.Store.{
  ImportBatch, ImportBatchStore, new_import_batch_store, set, import_batch_state, cleanup,
  append_chunk, add, commit,
}

module _ {A : Type 0} where
  -- No batch holds more chunks than it has.
  abbrev pub Bounded : ImportBatchStore A → Type 0
  Bounded s = (id : String) (b : ImportBatch A) → s id ≡ some b → length b.chunks ≤ b.total_batches

  cleanup-Bounded : (now : Time) (s : ImportBatchStore A) → Bounded s → Bounded (cleanup now s)
  unfolding cleanup
  cleanup-Bounded now s h id b e = let k = h id b in ground (arith, e, k)

  set-Bounded :
      (s : ImportBatchStore A) (id : String) (x : Option (ImportBatch A))
      → Bounded s
      → ((b : ImportBatch A) → x ≡ some b → length b.chunks ≤ b.total_batches)
      → Bounded (set s id x)
  set-Bounded s id x h k key b e = let hh = h key b in let kk = k b in ground (arith, e, hh, kk)

  append_chunk-Bounded :
      (s : ImportBatchStore A) (id : String) (b : ImportBatch A) (nodes : List A) (now : Time)
      → Bounded s
      → length b.chunks ≤ b.total_batches
      → Bounded (append_chunk s id b nodes now).0
  unfolding append_chunk
  append_chunk-Bounded s id b nodes now h k =
      elim (Bool-cases (leb b.total_batches (length b.chunks))) [
        | inl e ↦ rw e (set-Bounded s id _ h (λ c f. ground (arith, k, f)))
        | inr e ↦ rw e (set-Bounded s id _ h (λ c f. grind (arith, e, f, length-append)))
      ]

  add-Bounded :
      (s : ImportBatchStore A) (id : String) (total : ℕ) (nodes : List A) (now : Time)
      → Bounded s
      → Bounded (add s id total nodes now).0
  unfolding add
  add-Bounded s id total nodes now h =
      let live = cleanup-Bounded now s h in
      elim (Option-cases (cleanup now s id)) [
        | inl e ↦ rw (add, e) (append_chunk-Bounded _ id _ nodes now live (omega arith))
        | inr (b, e) ↦ elim (Bool-cases (b.total_batches == total)) [
          | inl f ↦ rw (add, e, f) (append_chunk-Bounded _ id b nodes now live (live id b e))
          | inr f ↦ rw (add, e, f) live
        ]
      ]

  commit-Bounded :
      (s : ImportBatchStore A) (id : String) (now : Time) → Bounded s → Bounded (commit s id now).0
  unfolding commit
  commit-Bounded s id now h =
      let live = cleanup-Bounded now s h in
      elim (Option-cases (cleanup now s id)) [
        | inl e ↦ rw (commit, e) live
        | inr (b, e) ↦ elim (Bool-cases (import_batch_state id b).ready) [
          | inl f ↦ rw (commit, e, f) (set-Bounded _ id none live (λ c g. ground (arith, g)))
          | inr f ↦ rw (commit, e, f) live
        ]
      ]

  -- The stores that calls of the two operations make.
  pub data Reach : ImportBatchStore A → Type 0 where
    at_start : Reach new_import_batch_store
    adds :
        (s : ImportBatchStore A) (id : String) (total : ℕ) (nodes : List A) (now : Time)
        → Reach s
        → Reach (add s id total nodes now).0
    commits :
        (s : ImportBatchStore A) (id : String) (now : Time) → Reach s → Reach (commit s id now).0

  -- In every store that calls of the two operations make, no batch holds more chunks than its total.
  pub Reach-Bounded : (s : ImportBatchStore A) → Reach s → Bounded s
  unfolding new_import_batch_store
  Reach-Bounded _ at_start = λ id b e. ground (arith, e)
  Reach-Bounded _ (adds s id total nodes now r) =
      add-Bounded s id total nodes now (Reach-Bounded s r)
  Reach-Bounded _ (commits s id now r) = commit-Bounded s id now (Reach-Bounded s r)
