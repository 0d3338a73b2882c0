-- ===== src/Shards/Store/Readable.antt =====
-- What `add` writes can be read back, and taken back.
use mathlib.Core.List.{Perm}
use markdown_vdb.Base.{
  Bool, false, not, List, [], ◌∷◌, ◌++◌, filter, any, some, Text, text_key, text_eq_iff, ◌≡◌, refl,
  sym, ◌∙◌, ap, subst, inl, inr, Bool-cases,
}
use markdown_vdb.Base.Result.{Result, ok, Result-cases}
use markdown_vdb.Shards.{
  ShardDefinition, ShardInfo, validate_id, normalize_name, normalize_shard_path,
  normalize_definition, validate_definition_set, make_info,
}
use markdown_vdb.Shards.Store.{
  Folders, normalize_all, has_id, find_id, parse_definitions, checked_add, add, remove,
}

same_list :
    (a b : List ShardDefinition)
    → ◌≡◌ {A = Result Text (List ShardDefinition)} (ok a) (ok b)
    → a ≡ b
same_list a b e = cc e

-- Normalizing keeps the id.
normalize_definition-id : (d n : ShardDefinition) → normalize_definition d ≡ ok n → n.id ≡ d.id
unfolding normalize_definition
normalize_definition-id d n h = elim (Result-cases (validate_id d.id)) [
  | inr (e, bad) ↦ absurd (cc (rw (bad, normalize_definition) at h))
  | inl (fine, good) ↦ elim (Result-cases (normalize_name d.name)) [
    | inr (e, bad) ↦ absurd (cc (rw (good, bad, normalize_definition) at h))
    | inl (name, named) ↦ elim (Result-cases (normalize_shard_path d.path)) [
      | inr (e, bad) ↦ absurd (cc (rw (good, named, bad, normalize_definition) at h))
      | inl (path, placed) ↦
          same_id (record { id = d.id; name = name; path = path }) n
            (rw (good, named, placed, normalize_definition) at h)
    ]
  ]
]
  where
    same_id :
        (a b : ShardDefinition) → ◌≡◌ {A = Result Text ShardDefinition} (ok a) (ok b) → b.id ≡ a.id
    same_id a b e = let q : a ≡ b = cc e in ap (λ d. d.id) (sym q)

-- The entries before, and one more.
normalize_all-concat :
    (es ds : List ShardDefinition) (d n : ShardDefinition)
    → normalize_all es ≡ ok ds
    → normalize_definition d ≡ ok n
    → normalize_all (es ++ d ∷ []) ≡ ok (ds ++ n ∷ [])
unfolding normalize_all
normalize_all-concat [] ds d n h k = rw (← same_list [] ds h, k, normalize_all) refl
normalize_all-concat (e ∷ es) ds d n h k = elim (Result-cases (normalize_definition e)) [
  | inr (f, bad) ↦ absurd (cc (rw (bad, normalize_all) at h))
  | inl (m, good) ↦ elim (Result-cases (normalize_all es)) [
    | inr (f, bad) ↦ absurd (cc (rw (good, bad, normalize_all) at h))
    | inl (ms, rest) ↦
        let q = same_list (m ∷ ms) ds (rw (good, rest, normalize_all) at h) in
        rw (good, normalize_all-concat es ms d n rest k, ← q, normalize_all) refl
  ]
]

-- An id that no definition has is that of no entry.
normalize_all-any :
    (id : Text) (es ds : List ShardDefinition)
    → normalize_all es ≡ ok ds
    → any (has_id id) es ≡ any (has_id id) ds
unfolding normalize_all
normalize_all-any id [] ds h = rw (← same_list [] ds h) refl
normalize_all-any id (e ∷ es) ds h = elim (Result-cases (normalize_definition e)) [
  | inr (f, bad) ↦ absurd (cc (rw (bad, normalize_all) at h))
  | inl (m, good) ↦ elim (Result-cases (normalize_all es)) [
    | inr (f, bad) ↦ absurd (cc (rw (good, bad, normalize_all) at h))
    | inl (ms, rest) ↦
        let q = same_list (m ∷ ms) ds (rw (good, rest, normalize_all) at h) in
        rw (← q, normalize_definition-id e m good, normalize_all-any id es ms rest) refl
  ]
]

filter-last :
    (n : ShardDefinition) (es : List ShardDefinition)
    → any (has_id n.id) es ≡ false
    → filter (λ e. not (has_id n.id e)) (es ++ n ∷ []) ≡ es
filter-last n [] h = rw ((text_eq_iff n.id n.id).1 refl) refl
filter-last n (e ∷ es) h = elim (Bool-cases (has_id n.id e)) [
  | inl same ↦ absurd (cc (rw same at h))
  | inr other ↦ rw other (ap (λ l. e ∷ l) (filter-last n es (rw other at h)))
]

find_id-last :
    (n : ShardDefinition) (ds : List ShardDefinition)
    → any (has_id n.id) ds ≡ false
    → find_id n.id (ds ++ n ∷ []) ≡ some n
unfolding find_id
find_id-last n [] h = rw ((text_eq_iff n.id n.id).1 refl) refl
find_id-last n (d ∷ ds) h = elim (Bool-cases (has_id n.id d)) [
  | inl same ↦ absurd (cc (rw same at h))
  | inr other ↦ rw (other, find_id) (find_id-last n ds (rw other at h))
]

module _ (to_lowercase : Text → Text) (folders : Folders) (after : Text → Bool)
    (d : ShardDefinition) (create_dir : Bool) (entries written : List ShardDefinition)
    (info : ShardInfo)
    (h : add to_lowercase folders after d create_dir entries ≡ ok (written, info))
    (stable : (n : ShardDefinition) → normalize_definition d ≡ ok n → normalize_definition n ≡ ok n)
    (remove_entry : Text → List ShardDefinition → List ShardDefinition)
    (removes : (id : Text) (es : List ShardDefinition)
      → Perm (remove_entry id es) (filter (λ e. not (has_id id e)) es)) where
  checked :
      (n : ShardDefinition) (ds : List ShardDefinition)
      → checked_add to_lowercase folders after n create_dir ds ≡ ok tt
      → (any (has_id n.id) ds ≡ false)
        × (validate_definition_set to_lowercase (ds ++ n ∷ []) ≡ ok tt)
  unfolding checked_add
  checked n ds c = elim (Bool-cases (any (has_id n.id) ds)) [
    | inl old ↦ absurd (cc (rw (old, checked_add) at c))
    | inr new ↦ elim (Result-cases (validate_definition_set to_lowercase (ds ++ n ∷ []))) [
      | inr (e, bad) ↦ absurd (cc (rw (new, bad, checked_add) at c))
      | inl (fine, good) ↦ (new, good)
    ]
  ]

  -- Removing the entry leaves the entries that were there, in some order.
  abbrev pub IsTakenBack : ShardDefinition → List ShardDefinition → List ShardDefinition → Type 0
  IsTakenBack n ds now =
      (back : List ShardDefinition) × (remove to_lowercase folders after remove_entry n.id now
        ≡ ok (back, make_info to_lowercase after n (ds ++ n ∷ [])))
      × Perm back entries

  -- The normalized entry is the last one, the mapping is read back with it, and its removal leaves
  -- the entries that were there, in some order.
  abbrev pub IsAdded : ShardDefinition → List ShardDefinition → Type 0
  IsAdded n ds =
      (normalize_definition d ≡ ok n)
      × (parse_definitions to_lowercase folders after entries ≡ ok ds)
      × (written ≡ entries ++ n ∷ [])
      × (parse_definitions to_lowercase folders after written ≡ ok (ds ++ n ∷ []))
      × IsTakenBack n ds written

  parsed :
      (ds : List ShardDefinition)
      → parse_definitions to_lowercase folders after entries ≡ ok ds
      → normalize_all entries ≡ ok ds
  unfolding parse_definitions
  parsed ds p = elim (Result-cases (normalize_all entries)) [
    | inr (e, bad) ↦ absurd (cc (rw (bad, parse_definitions) at p))
    | inl (ns, good) ↦ elim (Result-cases (validate_definition_set to_lowercase ns)) [
      | inr (e, bad) ↦ absurd (cc (rw (good, bad, parse_definitions) at p))
      | inl (fine, valid) ↦ rw (← same_list ns ds (rw (good, valid, parse_definitions) at p)) good
    ]
  ]

  read_back :
      (n : ShardDefinition) (ds : List ShardDefinition)
      → normalize_definition d ≡ ok n
      → normalize_all entries ≡ ok ds
      → validate_definition_set to_lowercase (ds ++ n ∷ []) ≡ ok tt
      → parse_definitions to_lowercase folders after (entries ++ n ∷ []) ≡ ok (ds ++ n ∷ [])
  unfolding parse_definitions
  read_back n ds normal all valid =
      rw (normalize_all-concat entries ds n n all (stable n normal), valid, parse_definitions) refl

  taken_back :
      (n : ShardDefinition) (ds : List ShardDefinition)
      → normalize_all entries ≡ ok ds
      → any (has_id n.id) ds ≡ false
      → parse_definitions to_lowercase folders after (entries ++ n ∷ []) ≡ ok (ds ++ n ∷ [])
      → IsTakenBack n ds (entries ++ n ∷ [])
  unfolding remove
  taken_back n ds all new read =
      let last = filter-last n entries (normalize_all-any n.id entries ds all ∙ new) in
      (
        remove_entry n.id (entries ++ n ∷ []),
        rw (read, find_id-last n ds new, remove) refl,
        subst (Perm (remove_entry n.id (entries ++ n ∷ []))) last
            (removes n.id (entries ++ n ∷ [])),
      )

  -- What `add` writes can be read back: it is the mapping that was there with the normalized
  -- definition behind it, reading it gives the definitions that were there and the new one, and
  -- removing the new one gives the entries that were there, in some order. The normalized
  -- definition must be normalized to itself, and the mapping's own removal of a key must keep the
  -- entries of the other keys, in some order.
  pub add-remove : (n : ShardDefinition) × (ds : List ShardDefinition) × IsAdded n ds
  unfolding add
  add-remove = elim (Result-cases (normalize_definition d)) [
    | inr (e, bad) ↦ absurd (cc (rw (bad, add) at h))
    | inl (n, normal) ↦ elim (Result-cases (parse_definitions to_lowercase folders after entries)) [
      | inr (e, bad) ↦ absurd (cc (rw (normal, bad, add) at h))
      | inl (ds, there) ↦
          elim (Result-cases (checked_add to_lowercase folders after n create_dir ds)) [
            | inr (e, bad) ↦ absurd (cc (rw (normal, there, bad, add) at h))
            | inl (fine, good) ↦
                let (new, valid) = checked n ds good in
                let all = parsed ds there in
                let last =
                  same_written (entries ++ n ∷ []) written _ info
                    (rw (normal, there, good, add) at h) in
                let read = read_back n ds normal all valid in
                (
                  n,
                  ds,
                  (
                    normal,
                    there,
                    sym last,
                    rw (← last) read,
                    rw (← last) (taken_back n ds all new read),
                  ),
                )
          ]
    ]
  ]
    where
      same_written :
          (a b : List ShardDefinition) (i j : ShardInfo)
          → ◌≡◌ {A = Result Text (List ShardDefinition × ShardInfo)} (ok (a, i)) (ok (b, j))
          → a ≡ b
      same_written a b i j e = cc e
