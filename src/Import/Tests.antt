-- ===== src/Import/Tests.antt =====
-- The store of batches at concrete inputs: the properties applied.
use rknno_vpn.Prelude.{ℕ, ◌≡◌, refl, arith, List, [], ◌∷◌, ◌++◌, none}
use rknno_vpn.Runtime.Types.{Time}
use rknno_vpn.Import.Store.{
  ImportBatch, ImportBatchStore, committed, new_import_batch_store, cleanup, add, commit,
}
use rknno_vpn.Import.Bounds.{Bounded, adds, commits, at_start, Reach-Bounded}
use rknno_vpn.Import.Upload.{upload, nodes_of, complete, commit-upload}

abbrev fresh : ImportBatchStore ℕ
fresh = new_import_batch_store

abbrev chunks : List (List ℕ × Time)
chunks = (3 ∷ [], 40) ∷ ([], 1700000000000) ∷ []

-- A store with one chunk of two of the batch "b".
abbrev half : ImportBatchStore ℕ
half = (add fresh "b" 2 (1 ∷ 2 ∷ []) 7).0

abbrev half_batch : ImportBatch ℕ
half_batch = record {
  total_batches = 2;
  chunks = (1 ∷ 2 ∷ []) ∷ [];
  created_at = 7;
  updated_at = 7;
}

abbrev whole : ImportBatchStore ℕ
whole = (add half "b" 2 (3 ∷ []) 8).0

Reach-Bounded_example : Bounded (commit half "b" 9).0
Reach-Bounded_example =
    Reach-Bounded _ (commits half "b" 9 (adds fresh "b" 2 (1 ∷ 2 ∷ []) 7 at_start))

commit-upload_example :
    let all = (1 ∷ 2 ∷ []) ++ nodes_of chunks in
    let after = commit (upload fresh "b" 3 ((1 ∷ 2 ∷ [], 7) ∷ chunks)) "b" 1700000000005 in
    (after.1 ≡ committed all (complete "b" 3 all)) × (after.0 "b" ≡ none)
unfolding cleanup new_import_batch_store
commit-upload_example =
    commit-upload fresh "b" (1 ∷ 2 ∷ []) 7 1700000000005 chunks refl (omega arith)
      (omega arith, omega arith, (omega arith, omega arith, (omega arith, omega arith)))

abbrev three : List ℕ
three = 1 ∷ 2 ∷ 3 ∷ []
