-- ===== src/Tree/States.antt =====
-- What the classification of the files on disk and in the index does.
use mathlib.Core.List.{Perm}
use markdown_vdb.Base.{
  not, List, [], ◌∷◌, ◌++◌, map, none, some, Text, text_key, text_eq, text_eq_iff, ◌≡◌, ◌≢◌, refl,
  sym, ◌∙◌, ap, subst, Bool-cases, Option-cases, inl, inr, ◌⊎◌, append-nil, append_assoc, arith,
  All, filter, ◌∈◌,
}
use markdown_vdb.Base.Map.{lookup, contains, Distinct}
use markdown_vdb.Base.Result.{Result, ok, err, Result-cases}
use markdown_vdb.PathUtil.{to_slash}
use markdown_vdb.Tree.{
  FileState, indexed, modified, new, deleted, FileTree, Entry, Classified, classify,
  classify_deleted, classify_disk, disk_state, empty_classified, tree_of, collect_set,
  build_file_tree_from_hashes,
}
use markdown_vdb.Tree.Leaves.{leaves, build_tree_from_entries-Perm}
use markdown_vdb.Tree.Summary.{
  Counts, Counted, classify-entries, classify-Counted, tally-Perm, tally_all, any_state, is_indexed,
  is_modified, is_new, is_deleted, empty-Counted,
}

collect_set-Distinct : (ps : List Text) → Distinct (collect_set ps)
unfolding collect_set
collect_set-Distinct [] = tt
collect_set-Distinct (p ∷ ps) = elim (Bool-cases (contains p (collect_set ps))) [
  | inl old ↦ rw (old, collect_set) (collect_set-Distinct ps)
  | inr fresh ↦ rw (fresh, collect_set) (fresh, collect_set-Distinct ps)
]

-- The paths of the index that are not on disk, with their state.
abbrev pub gone : List Text → List Text → List Entry
gone disk_paths paths = map (λ p. (p, deleted)) (filter (λ p. not (contains p disk_paths)) paths)

classify_deleted-entries :
    (disk_paths ps : List Text) (c : Classified)
    → Counted c
    → ((classify_deleted disk_paths ps c).entries ≡ c.entries ++ gone disk_paths ps)
      × Counted (classify_deleted disk_paths ps c)
unfolding classify_deleted
classify_deleted-entries disk_paths [] c i = (sym (append-nil c.entries), i)
classify_deleted-entries disk_paths (p ∷ ps) c i = elim (Bool-cases (contains p disk_paths)) [
  | inl on_disk ↦ rw (on_disk, classify_deleted) (classify_deleted-entries disk_paths ps c i)
  | inr absent ↦
      let (e, j) =
        classify_deleted-entries disk_paths ps (classify p deleted c)
          (classify-Counted p deleted c i) in
      rw (absent, classify_deleted) (e ∙ (rw (classify-entries p deleted c, append_assoc) refl), j)
]

module _ {E I : Type 0} (read_to_string : Text → Result I Text) (compute_content_hash : Text → Text)
    (io_error : Text → I → E) (indexed_hashes : List (Text × Text)) where
  -- A file's content and its hash in the index.
  abbrev Compares : (Text → Text → Type 0) → Text → Type 0
  Compares related p =
      (h : Text) × (content : Text) × (lookup p indexed_hashes ≡ some h)
      × (read_to_string p ≡ ok content)
      × related (compute_content_hash content) h

  -- What the state of a file on disk says.
  abbrev pub HasState : Text → FileState → Type 0
  HasState p indexed = Compares (λ a b. a ≡ b) p
  HasState p modified = Compares (λ a b. a ≢ b) p
  HasState p new = lookup p indexed_hashes ≡ none
  HasState p deleted = ⊥

  -- A file of the index cannot be read, and this is the error.
  abbrev pub IsUnreadable : {A : Type 0} → List Text → Result E A → Type 0
  IsUnreadable ps r =
      (p : Text) × (p ∈ ps)
      × (h : Text) × (lookup p indexed_hashes ≡ some h)
      × (e : I) × (read_to_string p ≡ err e)
      × (r ≡ err (io_error p e))

  disk_state-HasState :
      (p : Text)
      → ((s : FileState) × (disk_state read_to_string compute_content_hash io_error indexed_hashes p
            ≡ ok s)
          × HasState p s)
        ⊎ IsUnreadable
            (p ∷ [])
            (disk_state read_to_string compute_content_hash io_error indexed_hashes p)
  unfolding disk_state
  disk_state-HasState p = elim (Option-cases (lookup p indexed_hashes)) [
    | inl absent ↦ inl (new, rw (absent, disk_state) refl, absent)
    | inr (h, found) ↦ elim (Result-cases (read_to_string p)) [
      | inl (content, read) ↦ elim (Bool-cases (text_eq (compute_content_hash content) h)) [
        | inl same ↦ inl (
          indexed,
          rw (found, read, same, disk_state) refl,
          (h, content, found, read, (text_eq_iff (compute_content_hash content) h).0 same),
        )
        | inr other ↦ inl (
          modified,
          rw (found, read, other, disk_state) refl,
          (h, content, found, read, ground (arith, text_eq_iff (compute_content_hash content) h)),
        )
      ]
      | inr (e, failed) ↦
          inr (p, inl refl, h, found, e, failed, rw (found, failed, disk_state) refl)
    ]
  ]

  abbrev disk : List Text → Classified → Result E Classified
  disk = classify_disk read_to_string compute_content_hash io_error indexed_hashes

  -- The paths with right states, behind the entries from before.
  abbrev Adds : List Text → Classified → Type 0
  Adds ps c =
      (part : List Entry) × (map (λ e. e.0) part ≡ ps)
      × All (λ e. HasState e.0 e.1) part
      × (out : Classified) × (disk ps c ≡ ok out)
      × (out.entries ≡ c.entries ++ part)
      × Counted out

  classify_disk-Adds :
      (ps : List Text) (c : Classified) → Counted c → Adds ps c ⊎ IsUnreadable ps (disk ps c)
  unfolding classify_disk
  classify_disk-Adds [] c i = inl ([], refl, tt, c, refl, sym (append-nil c.entries), i)
  classify_disk-Adds (p ∷ ps) c i = elim (disk_state-HasState p) [
    | inl (s, e, has) ↦ elim (classify_disk-Adds ps (classify p s c) (classify-Counted p s c i)) [
      | inl (part, paths, states, out, returns, entries, counted) ↦ inl (
        (p, s) ∷ part,
        ap (◌∷◌ p) paths,
        (has, states),
        out,
        rw (e, classify_disk) returns,
        entries ∙ (rw (classify-entries p s c, append_assoc) refl),
        counted,
      )
      | inr (q, m, h, found, x, failed, r) ↦
          inr (q, inr m, h, found, x, failed, rw (e, classify_disk) r)
    ]
    | inr (q, m, h, found, x, failed, r) ↦ inr (
      q,
      elim m [ inl k ↦ inl k | inr none_left ↦ absurd none_left ],
      h,
      found,
      x,
      failed,
      rw (r, classify_disk) refl,
    )
  ]

  abbrev built : List Text → Result E FileTree
  built disk_files =
      build_file_tree_from_hashes read_to_string compute_content_hash io_error (ok disk_files)
        indexed_hashes

  -- The tree of these paths on disk: they have the states that the index and their content give
  -- them, the other paths of the index are deleted, and the counts are right.
  abbrev pub IsTreeOf : List Text → FileTree → Type 0
  IsTreeOf disk_paths t =
      (part : List Entry) × (map (λ e. e.0) part ≡ disk_paths)
      × All (λ e. HasState e.0 e.1) part
      × Perm (leaves t.root.children) (part ++ gone disk_paths (map (λ h. h.0) indexed_hashes))
      × Counts t (leaves t.root.children)
      × Distinct disk_paths

  tree_of-Counts :
      (c : Classified) → Counted c → Counts (tree_of c) (leaves (tree_of c).root.children)
  tree_of-Counts c i =
      let p = build_tree_from_entries-Perm c.entries in
      record {
        total =
            sym (tally_all c.entries)
            ∙ sym (tally-Perm any_state p)
            ∙ tally_all (leaves (tree_of c).root.children);
        of_indexed = i.of_indexed ∙ sym (tally-Perm is_indexed p);
        of_modified = i.of_modified ∙ sym (tally-Perm is_modified p);
        of_new = i.of_new ∙ sym (tally-Perm is_new p);
        of_deleted = i.of_deleted ∙ sym (tally-Perm is_deleted p);
      }

  -- Either the tree is built: its files are the discovered paths, once each and with the state
  -- that the index and the content give them, and the paths of the index that are not on disk, as
  -- deleted; and its counts are those of its files. Or a discovered file of the index cannot be
  -- read, and the result is that error.
  pub build_file_tree_from_hashes-IsTreeOf :
      (disk_files : List Text)
      → let disk_paths = collect_set (map to_slash disk_files) in
        let out =
          build_file_tree_from_hashes read_to_string compute_content_hash io_error
            (ok disk_files)
            indexed_hashes in
        ((t : FileTree) × (out ≡ ok t) × IsTreeOf disk_paths t) ⊎ IsUnreadable disk_paths out
  unfolding build_file_tree_from_hashes
  build_file_tree_from_hashes-IsTreeOf disk_files =
      let disk_paths = collect_set (map to_slash disk_files) in
      let paths = map (λ h. h.0) indexed_hashes in
      elim (classify_disk-Adds disk_paths empty_classified empty-Counted) [
        | inl (part, on_disk, states, out, returns, entries, counted) ↦
            let c = classify_deleted disk_paths paths out in
            let (all, right) = classify_deleted-entries disk_paths paths out counted in
            inl (
              tree_of c,
              rw (returns, build_file_tree_from_hashes) refl,
              (
                part,
                on_disk,
                states,
                subst (λ es. Perm (leaves (tree_of c).root.children) es)
                    (all ∙ ap (λ es. es ++ gone disk_paths paths) entries)
                    (build_tree_from_entries-Perm c.entries),
                tree_of-Counts c right,
                collect_set-Distinct (map to_slash disk_files),
              ),
            )
        | inr (p, m, h, found, e, failed, r) ↦
            inr (p, m, h, found, e, failed, rw (r, build_file_tree_from_hashes) refl)
      ]
