-- ===== src/Index/Save/Saved.antt =====
-- Saving drops the vectors of orphans and keeps all others, whether it succeeds or fails.
use markdown_vdb.Base.{
  ℕ, Bool, true, false, sym, ap, ◌&&◌, ◌||◌, not, [], none, Text, text_key, ◌≡◌, refl, ◌∙◌, arith,
  inl, inr, ◌⊎◌, Bool-cases, if◌then◌else◌,
}
use markdown_vdb.Base.Map.{contains, contains-filter, lookup_absent}
use markdown_vdb.Base.Result.{Result, ok, err, Result-cases}
use markdown_vdb.Index.{Error, Outside, IndexState, IndexMetadata, Outcome}
use markdown_vdb.Index.Vectors.{keys_of}
use markdown_vdb.Index.Vectors.View.{Laws, view, IsValid, IsComplete, without}
use markdown_vdb.Index.Vectors.Complete.{forget_vectors-keys}
use markdown_vdb.Index.Vectors.Forget.{forget_vectors-Forgets}
use markdown_vdb.Index.Vectors.ForgetFile.{forget_vectors-metadata, forget_vectors-dirty}
use markdown_vdb.Index.Save.{
  assign_keys, tracked_edges, orphaned, sorted_ids, Compacted, compacted, cleaned, replaced, save,
}
use markdown_vdb.Index.Save.Compact.{CompactsTo, compacted-CompactsTo}

-- Whether an identifier belongs to a chunk or a tracked edge.
abbrev pub is_kept : (o : Outside) → IndexState o → Text → Bool
is_kept o s id = contains id (keys_of s.metadata.chunks) || contains id (tracked_edges o s.metadata)

abbrev pub stamped : (o : Outside) → ℕ → IndexState o → IndexState o
stamped o now s = record s { metadata = record s.metadata { last_updated = now } }

module _ (o : Outside) (laws : Laws o) (now : ℕ)
    (write : IndexMetadata o → o.Hnsw → Result Error (Unit {0})) (s : IndexState o)
    (w : IsValid o s) (full : IsComplete o s) where
  -- Valid and complete, with the vectors that are kept, and with the metadata as they were but for the time.
  pub record Keeps (t : IndexState o) : Type 0 where
    pub valid : IsValid o t
    pub complete : IsComplete o t
    pub vectors : (id : Text) → view o t id ≡ (if is_kept o s id then view o s id else none)
    pub metadata : t.metadata ≡ record s.metadata { last_updated = now }

  kept_view :
      (id : Text)
      → without o (orphaned o (stamped o now s)) (view o s) id
        ≡ (if is_kept o s id then view o s id else none)
  unfolding orphaned
  kept_view id = elim (Bool-cases (contains id (keys_of s.id_to_key))) [
    | inl in_use ↦
        rw
          (
            contains-filter
                (λ i.
                  not (contains i (keys_of s.metadata.chunks))
                  && not (contains i (tracked_edges o s.metadata)))
                id (keys_of s.id_to_key),
            in_use,
          )
          (ground arith)
    | inr unused ↦ rw (lookup_absent id s.id_to_key unused) (ground arith)
  ]

  cleaned-IsComplete : IsComplete o (cleaned o now s)
  unfolding cleaned orphaned
  cleaned-IsComplete =
      let m = stamped o now s in
      let orphans = orphaned o m in
      let is_orphan : Text → Bool = λ id.
        not (contains id (keys_of s.metadata.chunks))
        && not (contains id (tracked_edges o s.metadata)) in
      let gone = (forget_vectors-Forgets o laws orphans m w).1 in
      record {
        vectors = λ id h.
            let keys = forget_vectors-keys o orphans id m in
            let (v, held) = full.vectors id (ground (arith, keys)) in
            let kept : contains id orphans ≡ false = ground (arith, keys) in
            (v, gone id ∙ rw kept held);
        chunks = λ id h.
            let chunk : contains id (keys_of s.metadata.chunks) ≡ true =
              sym (ap (λ n. contains id (keys_of n.chunks)) (forget_vectors-metadata o orphans m))
              ∙ h in
            ground (
              arith,
              forget_vectors-keys o orphans id m,
              contains-filter is_orphan id (keys_of s.id_to_key),
              full.chunks id chunk,
            );
      }

  cleaned-Keeps : Keeps (cleaned o now s)
  unfolding cleaned
  cleaned-Keeps =
      let (valid, gone) =
        forget_vectors-Forgets o laws (orphaned o (stamped o now s)) (stamped o now s) w in
      record {
        valid = valid;
        complete = cleaned-IsComplete;
        vectors = λ id. gone id ∙ kept_view id;
        metadata = forget_vectors-metadata o (orphaned o (stamped o now s)) (stamped o now s);
      }

  replaced-Keeps :
      (d : Compacted o)
      → CompactsTo o laws (cleaned o now s) cleaned-IsComplete d
      → Keeps (replaced o (cleaned o now s) d)
  replaced-Keeps d (numbered, valid, same, complete) = record {
    valid = valid;
    complete = complete;
    vectors = λ id. same id ∙ cleaned-Keeps.vectors id;
    metadata = cleaned-Keeps.metadata;
  }

  -- The state is clean and written, and the keys number the sorted identifiers.
  abbrev pub IsWritten : IndexState o → Type 0
  IsWritten t =
      (t.dirty ≡ false)
      × (write t.metadata t.hnsw ≡ ok tt)
      × (assign_keys (sorted_ids o (cleaned o now s)) 0 [] ≡ (t.id_to_key, t.next_key))

  -- How saving ends.
  abbrev pub SavesTo : Outcome o Unit → Type 0
  SavesTo out =
      Keeps out.0
      × (((out.1 ≡ ok tt) × IsWritten out.0)
          ⊎ ((e : Error) × (out.1 ≡ err e) × (out.0.dirty ≡ s.dirty)))

  cleaned-dirty : (cleaned o now s).dirty ≡ s.dirty
  unfolding cleaned
  cleaned-dirty = forget_vectors-dirty o (orphaned o (stamped o now s)) (stamped o now s)

  written :
      (d : Compacted o)
      → compacted o (cleaned o now s) ≡ ok d
      → CompactsTo o laws (cleaned o now s) cleaned-IsComplete d
      → SavesTo (save o now write s)
  unfolding save
  written d made to = elim (Result-cases (write (cleaned o now s).metadata d.new_hnsw)) [
    | inl (done, r) ↦ rw (made, r, save) (clean, inl (refl, (refl, r, to.0)))
    | inr (e, r) ↦ rw (made, r, save) (replaced-Keeps d to, inr (e, refl, cleaned-dirty))
  ]
    where
      clean : Keeps (record (replaced o (cleaned o now s) d) { dirty = false })
      clean =
          let k = replaced-Keeps d to in
          record {
            valid = k.valid;
            complete = record { vectors = k.complete.vectors; chunks = k.complete.chunks };
            vectors = k.vectors;
            metadata = k.metadata;
          }

  -- In a state with valid keys where each key has a vector and each chunk a key, saving leaves such
  -- a state again, with the vectors of all chunks and tracked edges, and of no other identifier,
  -- and with the metadata as they were but for the time of the save, whether it succeeds or fails.
  -- When it succeeds, what it wrote is the state it leaves, which is clean and has the keys that
  -- number the sorted identifiers; when it fails, a changed state stays changed.
  pub save-SavesTo : SavesTo (save o now write s)
  unfolding save
  save-SavesTo = elim (compacted-CompactsTo o laws (cleaned o now s) cleaned-IsComplete) [
    | inl (d, made, to) ↦ written d made to
    | inr (e, failed) ↦ rw (failed, save) (cleaned-Keeps, inr (e, refl, cleaned-dirty))
  ]
