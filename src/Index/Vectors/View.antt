-- ===== src/Index/Vectors/View.antt =====
-- What the vector index promises, what the index's state means by it, and when a state is valid.
use markdown_vdb.Base.{
  ℕ, ◌+◌, ◌≤◌, ◌<◌, true, List, [], ◌∷◌, Option, none, some, Text, text_key, text_eq, ◌≡◌, refl,
  ◌==◌, if◌then◌else◌,
}
use markdown_vdb.Base.Map.{lookup, contains}
use markdown_vdb.Base.Result.{ok}
use markdown_vdb.Index.{Outside, IndexState}
use markdown_vdb.Index.Vectors.{keys_of}

-- The documented behaviour of `usearch`. A stored vector is quantized; a vector can be added under
-- a free key while there is room, reserving makes room, and the vector of a key that has one is
-- copied into a buffer. Nothing is said of the buffer for a key that has none.
pub record Laws (o : Outside) : Type 0 where
  pub quantize : o.Vector → o.Vector
  pub get_create : (d k : ℕ) (h : o.Hnsw) → o.create_hnsw d ≡ ok h → o.get k h ≡ none
  pub size_create : (d : ℕ) (h : o.Hnsw) → o.create_hnsw d ≡ ok h → o.size h ≡ 0
  pub get_reserve : (n k : ℕ) (h g : o.Hnsw) → o.reserve n h ≡ ok g → o.get k g ≡ o.get k h
  pub size_reserve : (n : ℕ) (h g : o.Hnsw) → o.reserve n h ≡ ok g → o.size g ≡ o.size h
  pub room_reserve : (n : ℕ) (h g : o.Hnsw) → o.reserve n h ≡ ok g → n ≤ o.capacity g
  pub get_add :
      (k j : ℕ) (v : o.Vector) (h g : o.Hnsw)
      → o.add k v h ≡ ok g
      → o.get j g ≡ (if k == j then some (quantize v) else o.get j h)
  pub size_add :
      (k : ℕ) (v : o.Vector) (h g : o.Hnsw)
      → o.add k v h ≡ ok g
      → (o.size g ≡ o.size h + 1) × (o.capacity g ≡ o.capacity h)
  pub add_succeeds :
      (k : ℕ) (v : o.Vector) (h : o.Hnsw)
      → o.get k h ≡ none
      → o.size h < o.capacity h
      → (g : o.Hnsw) × (o.add k v h ≡ ok g)
  pub get_into_found :
      (k : ℕ) (v buf : o.Vector) (h : o.Hnsw) → o.get k h ≡ some v → o.get_into k h buf ≡ (true, v)
  pub get_quantized : (k : ℕ) (v : o.Vector) (h : o.Hnsw) → o.get k h ≡ some v → quantize v ≡ v
  pub get_delete :
      (k j : ℕ) (h : o.Hnsw) → o.get j (o.delete k h) ≡ (if k == j then none else o.get j h)

module _ (o : Outside) where
  abbrev pub at_key : Option ℕ → o.Hnsw → Option o.Vector
  at_key none h = none
  at_key (some k) h = o.get k h

  -- The vector of an identifier: the map that the state stands for.
  abbrev pub view : IndexState o → Text → Option o.Vector
  view s id = at_key (lookup id s.id_to_key) s.hnsw

  -- The keys in use are distinct and below the next one, from where on no vector is stored.
  pub record KeysAreValid (id_to_key : List (Text × ℕ)) (next_key : ℕ) (h : o.Hnsw) : Type 0 where
    pub below : (id : Text) (k : ℕ) → lookup id id_to_key ≡ some k → k < next_key
    pub distinct :
        (i j : Text) (k : ℕ) → lookup i id_to_key ≡ some k → lookup j id_to_key ≡ some k → i ≡ j
    pub free : (k : ℕ) → next_key ≤ k → o.get k h ≡ none

  abbrev pub IsValid : IndexState o → Type 0
  IsValid s = KeysAreValid s.id_to_key s.next_key s.hnsw

  -- Every identifier that has a key has a vector.
  abbrev pub HasVectors : IndexState o → Type 0
  HasVectors s =
      (id : Text) → contains id (keys_of s.id_to_key) ≡ true → (v : o.Vector) × (view s id ≡ some v)

  -- Every identifier that has a key has a vector, and every chunk has a key.
  pub record IsComplete (s : IndexState o) : Type 0 where
    pub vectors : HasVectors s
    pub chunks :
        (id : Text)
        → contains id (keys_of s.metadata.chunks) ≡ true
        → contains id (keys_of s.id_to_key) ≡ true

  -- The same map without some identifiers.
  abbrev pub without : List Text → (Text → Option o.Vector) → Text → Option o.Vector
  without ids f id = if contains id ids then none else f id

  -- The map with these vectors put in, one after the other, as `f` quantizes them.
  abbrev pub assign :
      (o.Vector → o.Vector)
      → List (Text × o.Vector)
      → (Text → Option o.Vector)
      → Text
      → Option o.Vector
  assign q [] f id = f id
  assign q ((i, v) ∷ es) f id = assign q es (λ j. if text_eq i j then some (q v) else f j) id

  pub assign_cong :
      (q : o.Vector → o.Vector) (es : List (Text × o.Vector)) (f g : Text → Option o.Vector)
      → ((j : Text) → f j ≡ g j)
      → (id : Text) → assign q es f id ≡ assign q es g id
  assign_cong q [] f g h id = h id
  assign_cong q ((i, v) ∷ es) f g h id =
      assign_cong q es (λ j. if text_eq i j then some (q v) else f j)
        (λ j. if text_eq i j then some (q v) else g j) (λ j. rw (h j) refl) id

  -- Room for so many vectors more.
  abbrev pub HasRoom : ℕ → o.Hnsw → Type 0
  HasRoom n h = o.size h + n ≤ o.capacity h
