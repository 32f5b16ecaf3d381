-- ===== src/Import/Store.antt =====
-- The store of the batches under way (import_batch_store.go). A Go map is a function from its keys;
-- the store only carries nodes, which are elements of any type. The number of batches is that of the
-- decoded request, which is above 0 (profile_requests.go), so it has no sign here. A nil store, and a
-- zero instant in place of the present one, do not occur here.
use rknno_vpn.Prelude.{
  ℕ, String, ◌-◌, ◌+◌, Bool, List, [], ◌∷◌, ◌++◌, Option, none, some, ltb, leb, length, str_eq,
  if◌then◌else◌, ◌==◌,
}
use rknno_vpn.Runtime.Types.{Time, is_zero}

-- `importBatchTTL`: thirty minutes, in nanoseconds.
abbrev pub import_batch_ttl : ℕ
import_batch_ttl = 1800000000000

pub record ImportBatch (A : Type 0) : Type 0 where
  pub total_batches : ℕ
  pub chunks : List (List A)
  pub created_at : Time
  pub updated_at : Time

pub record ImportBatchState : Type 0 where
  pub batch_id : String
  pub total_batches : ℕ
  pub received_batches : ℕ
  pub received_nodes : ℕ
  pub ready : Bool

abbrev pub ImportBatchStore : Type 0 → Type 0
ImportBatchStore A = String → Option (ImportBatch A)

pub data AddResult : Type 0 where
  total_mismatch : ℕ → ℕ → AddResult
  already_full : ℕ → ℕ → AddResult
  added : ImportBatchState → AddResult

pub data CommitResult (A : Type 0) : Type 0 where
  batch_not_found : CommitResult A
  batch_incomplete : ImportBatchState → CommitResult A
  committed : List A → ImportBatchState → CommitResult A

module _ {A : Type 0} where
  -- `NewImportBatchStore`.
  unfoldable pub new_import_batch_store : ImportBatchStore A
  new_import_batch_store id = none

  -- `s.batches[id] = batch`, and `delete(s.batches, id)`.
  abbrev pub set : ImportBatchStore A → String → Option (ImportBatch A) → ImportBatchStore A
  set s id batch key = if str_eq id key then batch else s key

  unfoldable pub received_nodes : List (List A) → ℕ
  received_nodes [] = 0
  received_nodes (chunk ∷ chunks) = length chunk + received_nodes chunks

  -- The nodes of all chunks, in their order.
  unfoldable pub all_nodes : List (List A) → List A
  all_nodes [] = []
  all_nodes (chunk ∷ chunks) = chunk ++ all_nodes chunks

  unfoldable pub import_batch_state : String → ImportBatch A → ImportBatchState
  import_batch_state id batch = record {
    batch_id = id;
    total_batches = batch.total_batches;
    received_batches = length batch.chunks;
    received_nodes = received_nodes batch.chunks;
    ready = length batch.chunks == batch.total_batches;
  }

  unfoldable pub last_touch : ImportBatch A → Time
  last_touch batch = if is_zero batch.updated_at then batch.created_at else batch.updated_at

  unfoldable pub is_expired : Time → ImportBatch A → Bool
  unfolding last_touch
  is_expired now batch = ltb import_batch_ttl (now - last_touch batch)

  -- `cleanupLocked`.
  unfoldable pub cleanup : Time → ImportBatchStore A → ImportBatchStore A
  cleanup now s id = elim (s id) [
    | none ↦ none
    | some batch ↦ if is_expired now batch then none else some batch
  ]

  -- `Add` from the test on the number of chunks on.
  unfoldable pub append_chunk :
      ImportBatchStore A → String → ImportBatch A → List A → Time → ImportBatchStore A × AddResult
  append_chunk s id batch nodes now =
      if leb batch.total_batches (length batch.chunks)
      then (set s id (some batch), already_full (length batch.chunks) batch.total_batches)
      else (let next = record batch { chunks = batch.chunks ++ nodes ∷ []; updated_at = now } in
          (set s id (some next), added (import_batch_state id next)))

  unfoldable pub add :
      ImportBatchStore A → String → ℕ → List A → Time → ImportBatchStore A × AddResult
  add s id total nodes now =
      let live = cleanup now s in
      elim (live id) [
        | none ↦
            append_chunk live id
              (record { total_batches = total; chunks = []; created_at = now; updated_at = 0 })
              nodes now
        | some batch ↦
            if batch.total_batches == total
            then append_chunk live id batch nodes now
            else (live, total_mismatch total batch.total_batches)
      ]

  unfoldable pub commit : ImportBatchStore A → String → Time → ImportBatchStore A × CommitResult A
  commit s id now =
      let live = cleanup now s in
      elim (live id) [
        | none ↦ (live, batch_not_found)
        | some batch ↦
            let state = import_batch_state id batch in
            if state.ready
            then (set live id none, committed (all_nodes batch.chunks) state)
            else (live, batch_incomplete state)
      ]
