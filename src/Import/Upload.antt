-- ===== src/Import/Upload.antt =====
-- A whole upload and its commit (import_batch_store.go).
use rknno_vpn.Prelude.{
  ℕ, String, ◌+◌, ◌<◌, ◌≤◌, true, ◌≡◌, refl, sym, ap, ◌∙◌, List, [], ◌∷◌, ◌++◌, Option, none, some,
  arith, length, length-append, eq_iff, suc, ==_iff,
}
use mathlib.Core.List.{append_assoc, append-nil}
use rknno_vpn.Runtime.Types.{Time}
use rknno_vpn.Import.Store.{
  import_batch_ttl, ImportBatch, ImportBatchState, ImportBatchStore, committed, set, received_nodes,
  all_nodes, import_batch_state, last_touch, is_expired, cleanup, append_chunk, add, commit,
}

module _ {A : Type 0} where
  -- The chunks of an upload, each with the instant of its call of `Add`.
  abbrev pub upload : ImportBatchStore A → String → ℕ → List (List A × Time) → ImportBatchStore A
  upload s id total [] = s
  upload s id total ((nodes, now) ∷ chunks) = upload (add s id total nodes now).0 id total chunks

  -- Every call comes no more than thirty minutes after the one before it, the first one after `last`.
  abbrev pub Timely : Time → List (List A × Time) → Time → Type 0
  Timely last [] end = (0 < end) × (end ≤ last + import_batch_ttl)
  Timely last ((nodes, now) ∷ chunks) end =
      (0 < now) × (now ≤ last + import_batch_ttl) × Timely now chunks end

  abbrev pub nodes_of : List (List A × Time) → List A
  nodes_of [] = []
  nodes_of ((nodes, now) ∷ chunks) = nodes ++ nodes_of chunks

  -- A store that holds these chunks of the batch, touched last at this instant.
  record Holds (s : ImportBatchStore A) (id : String) (total : ℕ) (chunks : List (List A))
      (last : Time) : Type 0 where
    pub batch : ImportBatch A
    pub found : s id ≡ some batch
    pub total_is : batch.total_batches ≡ total
    pub chunks_are : batch.chunks ≡ chunks
    pub touched : last_touch batch ≡ last

  cleanup_kept :
      (s : ImportBatchStore A) (id : String) (b : ImportBatch A) (now : Time)
      → s id ≡ some b
      → now ≤ last_touch b + import_batch_ttl
      → cleanup now s id ≡ some b
  unfolding cleanup is_expired
  cleanup_kept s id b now e k = ground (arith, e, k)

  set_self : (s : ImportBatchStore A) (id : String) (x : Option (ImportBatch A)) → set s id x id ≡ x
  set_self s id x = ground (arith, eq_iff id id)

  add_next :
      (s : ImportBatchStore A) (id : String) (b : ImportBatch A) (nodes : List A) (now : Time)
      → cleanup now s id ≡ some b
      → length b.chunks < b.total_batches
      → (add s id b.total_batches nodes now).0
        ≡ set
            (cleanup now s)
            id
            (some (record b { chunks = b.chunks ++ nodes ∷ []; updated_at = now }))
  unfolding append_chunk add
  add_next s id b nodes now e l = rw (add, e) (ground (arith, l))

  add_first :
      (s : ImportBatchStore A) (id : String) (total : ℕ) (nodes : List A) (now : Time)
      → cleanup now s id ≡ none
      → 0 < total
      → (add s id total nodes now).0
        ≡ set (cleanup now s) id (
            some (record {
              total_batches = total;
              chunks = nodes ∷ [];
              created_at = now;
              updated_at = now;
            }))
  unfolding append_chunk add
  add_first s id total nodes now e l = rw (add, e) (ground (arith, l))

  touched_now : (b : ImportBatch A) (now : Time) → 0 < now → b.updated_at ≡ now → last_touch b ≡ now
  unfolding last_touch
  touched_now b now k e = ground (arith, k, e)

  add-Holds :
      (s : ImportBatchStore A) (id : String) (total : ℕ) (chunks : List (List A)) (last : Time)
      (nodes : List A) (now : Time)
      → Holds s id total chunks last
      → now ≤ last + import_batch_ttl
      → 0 < now
      → length chunks < total
      → Holds (add s id total nodes now).0 id total (chunks ++ nodes ∷ []) now
  add-Holds s id total chunks last nodes now h k l m =
      let kept = cleanup_kept s id h.batch now h.found (rw h.touched k) in
      let full = ap (length {A = List A}) h.chunks_are in
      let next = add_next s id h.batch nodes now kept (rw (full, h.total_is) m) in
      record {
        batch = record (h.batch) { chunks = h.batch.chunks ++ nodes ∷ []; updated_at = now };
        found = rw (← h.total_is, next) (set_self (cleanup now s) id _);
        total_is = h.total_is;
        chunks_are = ap (λ (c : List (List A)). c ++ nodes ∷ []) h.chunks_are;
        touched = touched_now _ now l refl;
      }

  commit_ready :
      (s : ImportBatchStore A) (id : String) (b : ImportBatch A) (now : Time)
      → cleanup now s id ≡ some b
      → length b.chunks ≡ b.total_batches
      → commit s id now
        ≡ (set (cleanup now s) id none, committed (all_nodes b.chunks) (import_batch_state id b))
  unfolding commit import_batch_state
  commit_ready s id b now e l =
      let t = ==_iff (length b.chunks) b.total_batches in rw (commit, e) (ground (arith, l, t))

  received_nodes-length :
      (chunks : List (List A)) → received_nodes chunks ≡ length (all_nodes chunks)
  unfolding received_nodes all_nodes
  received_nodes-length [] = refl
  received_nodes-length (c ∷ cs) =
      ap (λ (n : ℕ). length c + n) (received_nodes-length cs) ∙ sym (length-append c (all_nodes cs))

  -- The state of a batch that is complete.
  abbrev pub complete : String → ℕ → List A → ImportBatchState
  complete id total nodes = record {
    batch_id = id;
    total_batches = total;
    received_batches = total;
    received_nodes = length nodes;
    ready = true;
  }

  complete_state :
      (id : String) (b : ImportBatch A) (chunks : List (List A)) (total : ℕ)
      → b.chunks ≡ chunks
      → b.total_batches ≡ total
      → length chunks ≡ total
      → import_batch_state id b ≡ complete id total (all_nodes chunks)
  unfolding import_batch_state
  complete_state id b chunks total e f g =
      rw (e, f, g, received_nodes-length) (ground (arith, ==_iff total total))

  commit-Holds :
      (s : ImportBatchStore A) (id : String) (total : ℕ) (chunks : List (List A)) (last now : Time)
      → Holds s id total chunks last
      → length chunks ≡ total
      → now ≤ last + import_batch_ttl
      → ((commit s id now).1 ≡ committed (all_nodes chunks) (complete id total (all_nodes chunks)))
        × ((commit s id now).0 id ≡ none)
  commit-Holds s id total chunks last now h l k =
      let kept = cleanup_kept s id h.batch now h.found (rw h.touched k) in
      let full = ap (length {A = List A}) h.chunks_are in
      let done = commit_ready s id h.batch now kept (full ∙ l ∙ sym h.total_is) in
      let st = complete_state id h.batch chunks total h.chunks_are h.total_is l in
      rw (done, st, h.chunks_are) (refl, set_self (cleanup now s) id none)

  one_chunk : (nodes : List A) → all_nodes (nodes ∷ []) ≡ nodes
  unfolding all_nodes
  one_chunk nodes = append-nil nodes

  all_nodes-append :
      (chunks : List (List A)) (rest : List (List A))
      → all_nodes (chunks ++ rest) ≡ all_nodes chunks ++ all_nodes rest
  unfolding all_nodes
  all_nodes-append [] rest = refl
  all_nodes-append (c ∷ cs) rest = rw (all_nodes-append cs rest) (sym (append_assoc c _ _))

  regroup :
      (chunks : List (List A)) (nodes rest : List A)
      → all_nodes (chunks ++ nodes ∷ []) ++ rest ≡ all_nodes chunks ++ (nodes ++ rest)
  regroup chunks nodes rest =
      rw (all_nodes-append chunks (nodes ∷ []), one_chunk nodes)
        (append_assoc (all_nodes chunks) nodes rest)

  upload-Holds :
      (s : ImportBatchStore A) (id : String) (total : ℕ) (chunks : List (List A)) (last end : Time)
      (rest : List (List A × Time))
      → Holds s id total chunks last
      → Timely last rest end
      → length chunks + length rest ≡ total
      → let nodes = all_nodes chunks ++ nodes_of rest in
        ((commit (upload s id total rest) id end).1 ≡ committed nodes (complete id total nodes))
        × ((commit (upload s id total rest) id end).0 id ≡ none)
  upload-Holds s id total chunks last end [] h t l =
      rw append-nil (commit-Holds s id total chunks last end h (ground (arith, l)) t.1)
  upload-Holds s id total chunks last end ((nodes, now) ∷ rest) h t l =
      let next = add-Holds s id total chunks last nodes now h t.1 t.0 (ground (arith, l)) in
      let go =
        upload-Holds (add s id total nodes now).0 id total (chunks ++ nodes ∷ []) now end rest next
          t.2 (grind (arith, l, length-append)) in
      rw (← regroup chunks nodes (nodes_of rest)) go

  add_first-Holds :
      (s : ImportBatchStore A) (id : String) (total : ℕ) (nodes : List A) (now : Time)
      → cleanup now s id ≡ none
      → 0 < total
      → 0 < now
      → Holds (add s id total nodes now).0 id total (nodes ∷ []) now
  add_first-Holds s id total nodes now e l k = record {
    batch = record {
      total_batches = total;
      chunks = nodes ∷ [];
      created_at = now;
      updated_at = now;
    };
    found = rw (add_first s id total nodes now e l) (set_self (cleanup now s) id _);
    total_is = refl;
    chunks_are = refl;
    touched = touched_now _ now k refl;
  }

  -- Where no live batch has the id, a batch whose chunks come one after another, each within thirty
  -- minutes of the one before it, and whose commit comes within thirty minutes of the last, gives all
  -- its nodes in the order in which they came, and is gone after the commit.
  pub commit-upload :
      (s : ImportBatchStore A) (id : String) (nodes : List A) (now end : Time)
      (rest : List (List A × Time))
      → cleanup now s id ≡ none
      → 0 < now
      → Timely now rest end
      → let total = suc (length rest) in
        let all = nodes ++ nodes_of rest in
        let after = commit (upload s id total ((nodes, now) ∷ rest)) id end in
        (after.1 ≡ committed all (complete id total all)) × (after.0 id ≡ none)
  commit-upload s id nodes now end rest e k t =
      let first = add_first-Holds s id (suc (length rest)) nodes now e (omega arith) k in
      let go =
        upload-Holds (add s id (suc (length rest)) nodes now).0 id (suc (length rest)) (nodes ∷ [])
          now end rest first t (omega arith) in
      simp (one_chunk nodes) at go
