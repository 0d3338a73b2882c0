-- ===== src/Index/Save/Compact.antt =====
-- Saving keeps the vector of every chunk and tracked edge, and numbers the keys in order.
use markdown_vdb.Base.{
  ℕ, suc, ◌+◌, max, false, not, List, [], ◌∷◌, ◌++◌, filter, length, none, some, Text, text_key,
  text_eq, text_eq_iff, ◌≡◌, refl, ◌∙◌, ◌==◌, arith, inl, inr, ◌⊎◌, ◌||◌, true, sym, Bool-cases,
  Option-cases, if◌then◌else◌, ltb, ap,
}
use markdown_vdb.Base.Strings.{codes}
use markdown_vdb.Base.Map.{
  lookup, insert, contains, contains-filter, lookup_absent, contains_iff, contains-append,
  contains-insert, found_key,
}
use markdown_vdb.Base.Sort.{text_le, mem-sort_by}
use markdown_vdb.Base.Result.{ok, err, Result-cases}
use markdown_vdb.Index.{Error, serialization, Outside, IndexState}
use markdown_vdb.Index.Vectors.{keys_of, usearch_error}
use markdown_vdb.Index.Vectors.View.{Laws, view, IsValid, HasRoom, IsComplete}
use markdown_vdb.Index.Vectors.Insert.{keyed_view, keyed-KeysAreValid}
use markdown_vdb.Index.Save.{
  sorted, assign_keys, sorted_ids, Compacted, compact_one, compact, fresh_hnsw, empty_compacted,
  compacted, replaced,
}

-- The identifiers that get keys.
assign_keys-keys :
    (ids : List Text) (n : ℕ) (m : List (Text × ℕ)) (j : Text)
    → contains j (keys_of (assign_keys ids n m).0) ≡ (contains j ids || contains j (keys_of m))
unfolding assign_keys contains
assign_keys-keys [] n m j = refl
assign_keys-keys (id ∷ ids) n m j =
    ground (arith, assign_keys-keys ids (n + 1) (insert id n m) j, contains-insert id j n m)

module _ (o : Outside) (laws : Laws o) (s : IndexState o) (full : IsComplete o s) where
  -- The identifiers were numbered, and have the vectors that they have in `s`.
  abbrev Numbered : List Text → Compacted o → Compacted o → Type 0
  Numbered ids c d =
      (assign_keys ids c.next c.new_id_to_key ≡ (d.new_id_to_key, d.next))
      × IsValid o (replaced o s d)
      × ((j : Text)
          → view o (replaced o s d) j
            ≡ (if contains j ids then view o s j else view o (replaced o s c) j))

  abbrev keyed_at : Text → Compacted o → o.Hnsw → o.Vector → Compacted o
  keyed_at id c h buf = record {
    new_hnsw = h;
    new_id_to_key = insert id c.next c.new_id_to_key;
    next = c.next + 1;
    buf = buf;
  }

  -- One identifier was numbered, and there is room for `n` more.
  abbrev One : ℕ → Text → Compacted o → Compacted o → Type 0
  One n id c d =
      IsValid o (replaced o s d)
      × ((j : Text)
          → view o (replaced o s d) j
            ≡ (if text_eq id j then view o s id else view o (replaced o s c) j))
      × HasRoom o n d.new_hnsw

  unkeyed-One :
      (n : ℕ) (id : Text) (c : Compacted o)
      → IsValid o (replaced o s c)
      → HasRoom o (suc n) c.new_hnsw
      → lookup id s.id_to_key ≡ none
      → One n id c (keyed_at id c c.new_hnsw c.buf)
  unkeyed-One n id c w room absent =
      let gets : (j : ℕ) → o.get j c.new_hnsw ≡ (if c.next == j then none else o.get j c.new_hnsw) =
        λ j. ground (arith, w.free j) in
      rw absent (
        keyed-KeysAreValid o laws id (replaced o s c) w c.new_hnsw none gets,
        keyed_view o laws id (replaced o s c) w c.new_hnsw none gets,
        omega arith,
      )

  stored-One :
      (n : ℕ) (id : Text) (c : Compacted o) (k : ℕ) (v : o.Vector) (g : o.Hnsw)
      → IsValid o (replaced o s c)
      → HasRoom o (suc n) c.new_hnsw
      → lookup id s.id_to_key ≡ some k
      → o.get k s.hnsw ≡ some v
      → o.add c.next v c.new_hnsw ≡ ok g
      → One n id c (keyed_at id c g v)
  stored-One n id c k v g w room found held added =
      let gets : (j : ℕ) → o.get j g ≡ (if c.next == j then some v else o.get j c.new_hnsw) = λ j.
        laws.get_add c.next j v c.new_hnsw g added
        ∙ ap (λ x. if c.next == j then some x else o.get j c.new_hnsw)
            (laws.get_quantized k v s.hnsw held) in
      let (bigger, same) = laws.size_add c.next v c.new_hnsw g added in
      rw (found, held)
        (
          keyed-KeysAreValid o laws id (replaced o s c) w g (some v) gets,
          keyed_view o laws id (replaced o s c) w g (some v) gets,
          omega arith,
        )

  compact_one-stored :
      (id : Text) (c : Compacted o) (k : ℕ) (v : o.Vector) (g : o.Hnsw)
      → lookup id s.id_to_key ≡ some k
      → o.get_into k s.hnsw c.buf ≡ (true, v)
      → o.add c.next v c.new_hnsw ≡ ok g
      → compact_one o s id c ≡ ok (keyed_at id c g v)
  unfolding compact_one
  compact_one-stored id c k v g found into added =
      let is_ok : (o.get_into k s.hnsw c.buf).0 ≡ true = ap (λ p. p.0) into in
      let read : (o.get_into k s.hnsw c.buf).1 ≡ v = ap (λ p. p.1) into in
      rw (found, is_ok, read, added, compact_one) (ap (λ buf. ok (keyed_at id c g buf)) read)

  compact_one-One :
      (n : ℕ) (id : Text) (c : Compacted o)
      → IsValid o (replaced o s c)
      → HasRoom o (suc n) c.new_hnsw
      → (h : o.Hnsw) × (buf : o.Vector) × (compact_one o s id c ≡ ok (keyed_at id c h buf))
        × One n id c (keyed_at id c h buf)
  unfolding compact_one
  compact_one-One n id c w room = elim (Option-cases (lookup id s.id_to_key)) [
    | inl absent ↦
        (c.new_hnsw, c.buf, rw (absent, compact_one) refl, unkeyed-One n id c w room absent)
    | inr (k, found) ↦
        let (v, seen) = full.vectors id (found_key id s.id_to_key found) in
        let held : o.get k s.hnsw ≡ some v = rw found at seen in
        let (g, added) =
          laws.add_succeeds c.next v c.new_hnsw (w.free c.next (omega arith)) (omega arith) in
        (
          g,
          v,
          compact_one-stored id c k v g found (laws.get_into_found k v c.buf s.hnsw held) added,
          stored-One n id c k v g w room found held added,
        )
  ]

  One-Numbered :
      (n : ℕ) (id : Text) (ids : List Text) (c e d : Compacted o)
      → One n id c e
      → (e.new_id_to_key ≡ insert id c.next c.new_id_to_key)
      → (e.next ≡ c.next + 1)
      → Numbered ids e d
      → Numbered (id ∷ ids) c d
  unfolding assign_keys contains
  One-Numbered n id ids c e d one keys next (numbered, valid, vectors) =
      (rw (← keys, ← next) numbered, valid, λ j. vectors j ∙ step j)
    where
      step :
          (j : Text)
          → (if contains j ids then view o s j else view o (replaced o s e) j)
            ≡ (if contains j (id ∷ ids) then view o s j else view o (replaced o s c) j)
      step j = elim (Bool-cases (text_eq id j)) [
        | inl same ↦ rw (one.1 j, same, (text_eq_iff id j).0 same) (ground arith)
        | inr other ↦ rw (one.1 j, other) refl
      ]

  compact-Numbered :
      (ids : List Text) (c : Compacted o)
      → IsValid o (replaced o s c)
      → HasRoom o (length ids) c.new_hnsw
      → (d : Compacted o) × (compact o s ids c ≡ ok d) × Numbered ids c d
  unfolding compact assign_keys contains
  compact-Numbered [] c w room = (c, refl, (refl, w, λ j. refl))
  compact-Numbered (id ∷ ids) c w room =
      let (h, buf, e, one) = compact_one-One (length ids) id c w room in
      let (d, ends, numbered) = compact-Numbered ids (keyed_at id c h buf) one.0 one.2 in
      (
        d,
        rw (e, compact) ends,
        One-Numbered (length ids) id ids c (keyed_at id c h buf) d one refl refl numbered,
      )

  -- The new index is empty and has room, or its error is returned.
  fresh_hnsw-HasRoom :
      (dims total : ℕ)
      → ((h : o.Hnsw) × (fresh_hnsw o dims total ≡ ok h)
          × HasRoom o total h
          × ((k : ℕ) → o.get k h ≡ none))
        ⊎ ((e : Error) × (fresh_hnsw o dims total ≡ err e))
  unfolding fresh_hnsw
  fresh_hnsw-HasRoom dims total = elim (Result-cases (o.create_hnsw dims)) [
    | inr (e, failed) ↦
        inr
          (serialization (codes "failed to create HNSW index: " ++ e), rw (failed, fresh_hnsw) refl)
    | inl (h, made) ↦ elim (Bool-cases (ltb 0 total)) [
      | inr nothing ↦
          let none_in = laws.size_create dims h made in
          inl (
            h,
            rw (made, nothing, fresh_hnsw) refl,
            ground arith,
            λ k. laws.get_create dims k h made,
          )
      | inl some_in ↦ elim (Result-cases (o.reserve (max total 10) h)) [
        | inr (e, failed) ↦
            inr (usearch_error o (codes "reserve") e, rw (made, some_in, failed, fresh_hnsw) refl)
        | inl (g, grown) ↦
            let none_in = laws.size_create dims h made in
            let size = laws.size_reserve (max total 10) h g grown in
            let room = laws.room_reserve (max total 10) h g grown in
            inl (
              g,
              rw (made, some_in, grown, fresh_hnsw) refl,
              omega arith,
              λ k. laws.get_reserve (max total 10) k h g grown ∙ laws.get_create dims k h made,
            )
      ]
    ]
  ]

  contains-sort : (j : Text) (xs : List Text) → contains j (sorted xs) ≡ contains j xs
  contains-sort j xs =
      ground (arith, contains_iff j (sorted xs), contains_iff j xs, mem-sort_by text_le j xs)

  numbered_ids :
      (j : Text)
      → contains j (sorted_ids o s)
        ≡ (contains j (keys_of s.metadata.chunks) || contains j (keys_of s.id_to_key))
  unfolding sorted_ids
  numbered_ids j =
      let chunks = keys_of s.metadata.chunks in
      let rest = filter (λ id. not (contains id chunks)) (keys_of s.id_to_key) in
      ground (
        arith,
        contains-append j (sorted chunks) (sorted rest),
        contains-sort j chunks,
        contains-sort j rest,
        contains-filter (λ id. not (contains id chunks)) j (keys_of s.id_to_key),
      )

  -- An identifier that is not numbered has no vector.
  unnumbered : (j : Text) → contains j (sorted_ids o s) ≡ false → view o s j ≡ none
  unnumbered j h =
      let absent : contains j (keys_of s.id_to_key) ≡ false = ground (arith, numbered_ids j) in
      rw (lookup_absent j s.id_to_key absent) refl

  -- The compaction gives every identifier the vector that it has, and numbers the sorted ones.
  abbrev pub CompactsTo : Compacted o → Type 0
  CompactsTo d =
      (assign_keys (sorted_ids o s) 0 [] ≡ (d.new_id_to_key, d.next))
      × IsValid o (replaced o s d)
      × ((j : Text) → view o (replaced o s d) j ≡ view o s j)
      × IsComplete o (replaced o s d)

  compacted-IsComplete :
      (d : Compacted o)
      → assign_keys (sorted_ids o s) 0 [] ≡ (d.new_id_to_key, d.next)
      → ((j : Text) → view o (replaced o s d) j ≡ view o s j)
      → IsComplete o (replaced o s d)
  unfolding contains
  compacted-IsComplete d numbered same =
      let keys : (j : Text)
          → contains j (keys_of d.new_id_to_key)
            ≡ (contains j (keys_of s.metadata.chunks) || contains j (keys_of s.id_to_key)) =
        λ j.
          sym (ap (λ p. contains j (keys_of p.0)) numbered)
          ∙ (assign_keys-keys (sorted_ids o s) 0 [] j ∙ ground (arith, numbered_ids j)) in
      record {
        vectors = λ j h.
            let (v, held) = full.vectors j (ground (arith, keys j, full.chunks j)) in
            (v, same j ∙ held);
        chunks = λ j h. ground (arith, keys j);
      }

  pub compacted-CompactsTo :
      ((d : Compacted o) × (compacted o s ≡ ok d) × CompactsTo d)
      ⊎ ((e : Error) × (compacted o s ≡ err e))
  unfolding compacted lookup
  compacted-CompactsTo =
      elim (fresh_hnsw-HasRoom s.metadata.embedding_config.dimensions (length (sorted_ids o s))) [
        | inr (e, failed) ↦ inr (e, rw (failed, compacted) refl)
        | inl (h, made, room, bare) ↦
            let nothing : IsValid o (replaced o s (start h)) = record {
              below = λ id k p. absurd (cc p);
              distinct = λ i j k p q. absurd (cc p);
              free = λ k le. bare k;
            } in
            let (d, ends, (numbered, valid, vectors)) =
              compact-Numbered (sorted_ids o s) (start h) nothing room in
            let kept : (j : Text) → view o (replaced o s d) j ≡ view o s j =
              λ j. vectors j ∙ same j in
            inl (
              d,
              rw (made, compacted) ends,
              (numbered, valid, kept, compacted-IsComplete d numbered kept),
            )
      ]
    where
      start : o.Hnsw → Compacted o
      start h = empty_compacted o h (o.zero_vector s.metadata.embedding_config.dimensions)

      same : (j : Text) → (if contains j (sorted_ids o s) then view o s j else none) ≡ view o s j
      same j = elim (Bool-cases (contains j (sorted_ids o s))) [
        | inl in_it ↦ rw in_it refl
        | inr out_of_it ↦ rw (out_of_it, unnumbered j out_of_it) refl
      ]
