-- ===== src/Index/Vectors/Forget.antt =====
-- Removing vectors removes them from the map that the state stands for, and nothing else.
use markdown_vdb.Base.{
  ℕ, false, List, [], ◌∷◌, none, some, Text, text_key, text_eq, text_eq_iff, ◌≡◌, refl, ◌∙◌, ◌==◌,
  arith, inl, inr, Bool-cases, Option-cases, if◌then◌else◌,
}
use markdown_vdb.Base.Map.{lookup, remove, contains, lookup-remove}
use markdown_vdb.Index.{Outside, IndexState}
use markdown_vdb.Index.Vectors.{forget_vector, forget_vectors, drop_chunk, forget_chunks}
use markdown_vdb.Index.Vectors.View.{Laws, at_key, view, IsValid, without}

module _ (o : Outside) (laws : Laws o) where
  module _ (i : Text) (s : IndexState o) (w : IsValid o s) where
    absent_view :
        (id : Text)
        → lookup i s.id_to_key ≡ none
        → view o s id ≡ (if text_eq i id then none else view o s id)
    absent_view id absent = elim (Bool-cases (text_eq i id)) [
      | inl same ↦ rw (same, ← (text_eq_iff i id).0 same, absent) refl
      | inr other ↦ rw other refl
    ]

    present_view :
        (k : ℕ) (id : Text)
        → lookup i s.id_to_key ≡ some k
        → at_key o (lookup id (remove i s.id_to_key)) (o.delete k s.hnsw)
          ≡ (if text_eq i id then none else view o s id)
    present_view k id found = elim (Bool-cases (text_eq i id)) [
      | inl same ↦ rw (lookup-remove i id s.id_to_key, same) refl
      | inr other ↦ elim (Option-cases (lookup id s.id_to_key)) [
        | inl absent ↦ rw (lookup-remove i id s.id_to_key, other, absent) refl
        | inr (j, at_j) ↦
            let apart : k == j ≡ false =
              ground (arith, w.distinct i id k found, text_eq_iff i id) in
            rw (lookup-remove i id s.id_to_key, other, at_j, laws.get_delete k j s.hnsw, apart) refl
      ]
    ]

    pub forget_vector-view :
        (id : Text) → view o (forget_vector o i s) id ≡ (if text_eq i id then none else view o s id)
    unfolding forget_vector
    forget_vector-view id = elim (Option-cases (lookup i s.id_to_key)) [
      | inl absent ↦ rw (absent, forget_vector) (absent_view id absent)
      | inr (k, found) ↦ rw (found, forget_vector) (present_view k id found)
    ]

    key_left :
        (id : Text) (k : ℕ)
        → lookup id (remove i s.id_to_key) ≡ some k
        → lookup id s.id_to_key ≡ some k
    key_left id k h = ground (arith, lookup-remove i id s.id_to_key)

    pub forget_vector-IsValid : IsValid o (forget_vector o i s)
    unfolding forget_vector
    forget_vector-IsValid = elim (Option-cases (lookup i s.id_to_key)) [
      | inl absent ↦ rw (absent, forget_vector) w
      | inr (k, found) ↦
          rw (found, forget_vector)
            (record {
              below = λ id j h. w.below id j (key_left id j h);
              distinct = λ a b j h g. w.distinct a b j (key_left a j h) (key_left b j g);
              free = λ j h. ground (arith, laws.get_delete k j s.hnsw, w.free j h);
            })
    ]

  -- One more identifier is gone.
  without_both :
      (i : Text) (ids : List Text) (s : IndexState o) (id : Text)
      → IsValid o s
      → without o ids (view o (forget_vector o i s)) id ≡ without o (i ∷ ids) (view o s) id
  unfolding contains
  without_both i ids s id w = rw (forget_vector-view i s w id) (ground arith)

  -- After the removal the state is valid, and maps every identifier but these as before.
  abbrev pub Forgets : List Text → IndexState o → IndexState o → Type 0
  Forgets ids s t = IsValid o t × ((id : Text) → view o t id ≡ without o ids (view o s) id)

  pub forget_vectors-Forgets :
      (ids : List Text) (s : IndexState o) → IsValid o s → Forgets ids s (forget_vectors o ids s)
  unfolding forget_vectors contains
  forget_vectors-Forgets [] s w = (w, λ id. refl)
  forget_vectors-Forgets (i ∷ ids) s w =
      let (v, e) = forget_vectors-Forgets ids (forget_vector o i s) (forget_vector-IsValid i s w) in
      (v, λ id. e id ∙ without_both i ids s id w)

  pub forget_chunks-Forgets :
      (ids : List Text) (s : IndexState o) → IsValid o s → Forgets ids s (forget_chunks o ids s)
  unfolding forget_chunks contains
  forget_chunks-Forgets [] s w = (w, λ id. refl)
  forget_chunks-Forgets (i ∷ ids) s w =
      let (v, e) =
        forget_chunks-Forgets ids (drop_chunk o i (forget_vector o i s))
          (forget_vector-IsValid i s w) in
      (v, λ id. e id ∙ without_both i ids s id w)
