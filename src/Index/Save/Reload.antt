-- ===== src/Index/Save/Reload.antt =====
-- A saved index, opened again, has the keys that it was saved with.
use markdown_vdb.Base.{
  ℕ, ◌+◌, ◌≤◌, Bool, true, false, ◌&&◌, not, List, [], ◌∷◌, ◌++◌, filter, none, Text, text_key, ◌≡◌,
  refl, sym, ◌∙◌, arith, inl, inr, Option-cases, if◌then◌else◌, ap, ltb,
}
use markdown_vdb.Base.Map.{
  lookup, insert, contains, contains-filter, IsMap, remove-IsMap, Distinct, Distinct-filter,
  IsMap-Distinct,
}
use markdown_vdb.Base.Sort.Unique.{sorted_same}
use markdown_vdb.Base.Result.{Result, ok}
use markdown_vdb.Index.{Error, Outside, IndexState, IndexMetadata}
use markdown_vdb.Index.Vectors.{keys_of, forget_vector, forget_vectors}
use markdown_vdb.Index.Vectors.ForgetFile.{forget_vectors-metadata}
use markdown_vdb.Index.Vectors.View.{Laws, view, IsValid, IsComplete, KeysAreValid}
use markdown_vdb.Index.Vectors.Complete.{forget_vectors-keys}
use markdown_vdb.Index.Save.{
  sorted, assign_keys, tracked_edges, open_state, orphaned, sorted_ids, cleaned, save,
}
use markdown_vdb.Index.Save.Saved.{Keeps, save-SavesTo, stamped, is_kept}

-- Keys are assigned to one list after the other.
assign_keys-append :
    (xs ys : List Text) (n : ℕ) (m : List (Text × ℕ))
    → assign_keys (xs ++ ys) n m ≡ assign_keys ys (assign_keys xs n m).1 (assign_keys xs n m).0
unfolding assign_keys
assign_keys-append [] ys n m = refl
assign_keys-append (x ∷ xs) ys n m = assign_keys-append xs ys (n + 1) (insert x n m)

module _ (o : Outside) where
  forget_vector-IsMap :
      (id : Text) (s : IndexState o) → IsMap s.id_to_key → IsMap (forget_vector o id s).id_to_key
  unfolding forget_vector
  forget_vector-IsMap id s h = elim (Option-cases (lookup id s.id_to_key)) [
    | inl absent ↦ rw (absent, forget_vector) h
    | inr (k, found) ↦ rw (found, forget_vector) (remove-IsMap id s.id_to_key h)
  ]

  forget_vectors-IsMap :
      (ids : List Text) (s : IndexState o)
      → IsMap s.id_to_key
      → IsMap (forget_vectors o ids s).id_to_key
  unfolding forget_vectors
  forget_vectors-IsMap [] s h = h
  forget_vectors-IsMap (id ∷ ids) s h =
      forget_vectors-IsMap ids (forget_vector o id s) (forget_vector-IsMap id s h)

  -- Every tracked edge has a key and is no chunk, as `upsert_edges` leaves it.
  pub record HasTrackedKeys (s : IndexState o) : Type 0 where
    pub one_key : IsMap s.id_to_key
    pub once : Distinct (tracked_edges o s.metadata)
    pub keyed :
        (id : Text)
        → contains id (tracked_edges o s.metadata) ≡ true
        → contains id (keys_of s.id_to_key) ≡ true
    pub no_chunk :
        (id : Text)
        → contains id (tracked_edges o s.metadata) ≡ true
        → contains id (keys_of s.metadata.chunks) ≡ false

  raised :
      (keys : List (Text × ℕ)) (n m : ℕ) (h : o.Hnsw)
      → n ≤ m
      → KeysAreValid o keys n h
      → KeysAreValid o keys m h
  raised keys n m h le v = record {
    below = λ id k found. omega (arith, v.below id k found);
    distinct = v.distinct;
    free = λ k high. v.free k (omega arith);
  }

module _ (o : Outside) (laws : Laws o) (now : ℕ)
    (write : IndexMetadata o → o.Hnsw → Result Error (Unit {0})) (s : IndexState o)
    (w : IsValid o s) (full : IsComplete o s) (tracked : HasTrackedKeys o s) where
  -- The identifiers that the compaction numbers after the chunks are the tracked edges.
  edges_same :
      sorted (
        filter
          (λ id. not (contains id (keys_of s.metadata.chunks)))
          (keys_of (cleaned o now s).id_to_key))
      ≡ sorted (tracked_edges o s.metadata)
  unfolding cleaned orphaned
  edges_same =
      let m = stamped o now s in
      let is_edge : Text → Bool = λ id. not (contains id (keys_of s.metadata.chunks)) in
      let is_orphan : Text → Bool =
        λ id. is_edge id && not (contains id (tracked_edges o s.metadata)) in
      sorted_same (filter is_edge (keys_of (cleaned o now s).id_to_key))
        (tracked_edges o s.metadata)
        (Distinct-filter is_edge (keys_of (cleaned o now s).id_to_key) (
          IsMap-Distinct (cleaned o now s).id_to_key
            (forget_vectors-IsMap o (orphaned o m) m tracked.one_key)))
        tracked.once
        (λ j. ground (
          arith,
          contains-filter is_edge j (keys_of (cleaned o now s).id_to_key),
          forget_vectors-keys o (orphaned o m) j m,
          contains-filter is_orphan j (keys_of s.id_to_key),
          tracked.keyed j,
          tracked.no_chunk j,
        ))

  -- The keys that opening assigns are those that the compaction assigned.
  opened_keys :
      (m : IndexMetadata o)
      → (m ≡ (stamped o now s).metadata)
      → assign_keys
          (sorted (tracked_edges o m))
          (assign_keys (sorted (keys_of m.chunks)) 0 []).1
          (assign_keys (sorted (keys_of m.chunks)) 0 []).0
        ≡ assign_keys (sorted_ids o (cleaned o now s)) 0 []
  unfolding sorted_ids cleaned
  opened_keys m same =
      let chunks = keys_of s.metadata.chunks in
      let kept : (cleaned o now s).metadata ≡ (stamped o now s).metadata =
        forget_vectors-metadata o (orphaned o (stamped o now s)) (stamped o now s) in
      let ids : IndexMetadata o → List Text = λ n.
        sorted (keys_of n.chunks)
        ++ sorted (
            filter (λ id. not (contains id (keys_of n.chunks)))
              (keys_of (cleaned o now s).id_to_key)) in
      let numbered : sorted_ids o (cleaned o now s)
          ≡ sorted chunks ++ sorted (tracked_edges o s.metadata) =
        ap ids kept ∙ ap (λ es. sorted chunks ++ es) edges_same in
      let opened : IndexMetadata o → List (Text × ℕ) × ℕ = λ n.
        assign_keys (sorted (tracked_edges o n)) (assign_keys (sorted (keys_of n.chunks)) 0 []).1
          (assign_keys (sorted (keys_of n.chunks)) 0 []).0 in
      ap opened same
      ∙ sym (
          ap (λ l. assign_keys l 0 []) numbered
          ∙ assign_keys-append (sorted chunks) (sorted (tracked_edges o s.metadata)) 0 [])

  -- What opening makes of the file of a state.
  abbrev pub Reopens : IndexState o → Type 0
  Reopens t =
      let u = open_state o t.metadata t.hnsw in
      (u.id_to_key ≡ t.id_to_key)
      × (u.metadata ≡ t.metadata)
      × (u.dirty ≡ false)
      × IsValid o u
      × IsComplete o u
      × ((id : Text) → view o u id ≡ (if is_kept o s id then view o s id else none))

  reopened :
      (t : IndexState o)
      → Keeps o laws now write s w full t
      → assign_keys (sorted_ids o (cleaned o now s)) 0 [] ≡ (t.id_to_key, t.next_key)
      → Reopens t
  unfolding open_state
  reopened t keeps keys =
      let opened = opened_keys t.metadata keeps.metadata ∙ keys in
      let u = open_state o t.metadata t.hnsw in
      let same : u.id_to_key ≡ t.id_to_key = ap (λ p. p.0) opened in
      let next : t.next_key ≤ u.next_key = at_least (o.size t.hnsw) (ap (λ p. p.1) opened) in
      (
        same,
        refl,
        refl,
        rw same (raised o t.id_to_key t.next_key u.next_key t.hnsw next keeps.valid),
        rw same (record { vectors = keeps.complete.vectors; chunks = keeps.complete.chunks }),
        λ id. rw same (keeps.vectors id),
      )
    where
      at_least : {x n : ℕ} (k : ℕ) → x ≡ n → n ≤ (if ltb x k then k else x)
      at_least k e = ground arith

  -- In a state with valid keys, each of a different identifier and with a vector, where every chunk
  -- has a key, and where the tracked edges are distinct, each has a key and none is a chunk: if a
  -- save succeeds, then opening the file that a save has written gives every identifier the key
  -- that it has in the saved state, leaves the vectors that they had before the save, and gives a
  -- valid state, which is clean, and where again each key has a vector and each chunk a key.
  pub open_state-save : (save o now write s).1 ≡ ok tt → Reopens (save o now write s).0
  unfolding open_state
  open_state-save done =
      let (keeps, ends) = save-SavesTo o laws now write s w full in
      elim ends [
        | inr (e, failed, dirty) ↦ absurd (cc (sym done ∙ failed))
        | inl (r, (clean, on_disk, keys)) ↦ reopened (save o now write s).0 keeps keys
      ]
