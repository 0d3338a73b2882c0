-- ===== src/Index/Tests/Metadata.antt =====
-- The metadata operations on a small index.
use markdown_vdb.Base.{[], ◌∷◌, Option, none, some, Text, text_key, text_eq, ◌≡◌, refl, inr}
use markdown_vdb.Base.Strings.{codes}
use markdown_vdb.Base.Map.{lookup}
use markdown_vdb.PathUtil.{to_slash}
use markdown_vdb.Index.{proof_matches, IndexState, StoredFile}
use markdown_vdb.Index.Vectors.{remove_file}
use markdown_vdb.Index.Metadata.{
  refresh_source_metadata, replace_computed_fields, insert_unembedded_source_metadata,
  apply_module_source_state,
}
use markdown_vdb.Index.Metadata.Proofs.{IsProved}
use markdown_vdb.Index.Metadata.Steps.{
  by_refresh, by_apply, by_remove_file, done, step, Steps-IsProved,
}
use markdown_vdb.Index.Metadata.Kept.{Applies, apply_module_source_state-Applies}
use markdown_vdb.Index.Metadata.Transacts.{Refreshes, Recomputes, Introduces, metadata-Transacts}
use markdown_vdb.Index.Tests.{outside, start, entry, file}

-- The proofs that the entries of the file have.
abbrev proofs : Option (StoredFile outside) → Option Text
proofs none = none
proofs (some f) = elim f.computed_fields [ [] ↦ none | ◌∷◌ p ps ↦ p.1.materialized_value_json ]

-- The frontmatter changes from `5` to `6` and back: the proof is gone for good.
proof_run :
    let changed = (refresh_source_metadata outside (file (codes "6")) start).0 in
    let back = (refresh_source_metadata outside (file (codes "5")) changed).0 in
    (proofs (lookup (codes "a.md") start.metadata.files) ≡ some (codes "5"))
    × (proofs (lookup (codes "a.md") back.metadata.files) ≡ none)
unfolding refresh_source_metadata lookup text_eq to_slash
proof_run = (refl, refl)

start-IsProved : IsProved outside start
unfolding proof_matches text_eq
start-IsProved = ((inr refl, tt), tt)

-- A refresh, a refused rewrite and a removal, one after the other.
abbrev refreshed : IndexState outside
refreshed = (refresh_source_metadata outside (file (codes "6")) start).0

abbrev refused : IndexState outside
refused = (apply_module_source_state outside (codes "5") (file (codes "7")) [] refreshed).0

abbrev removed : IndexState outside
removed = (remove_file outside (codes "b.md") refused).0

Steps-IsProved_example : IsProved outside removed
Steps-IsProved_example =
    Steps-IsProved outside
      (step (by_refresh (file (codes "6")) start) (
        step (by_apply (codes "5") (file (codes "7")) [] refreshed)
          (step (by_remove_file (codes "b.md") refused) (done removed))))
      start-IsProved

apply_module_source_state-Applies_example :
    Applies outside
      (codes "5")
      (file (codes "6"))
      start
      (apply_module_source_state outside (codes "5") (file (codes "6")) [] start)
apply_module_source_state-Applies_example =
    apply_module_source_state-Applies outside (codes "5") (file (codes "6")) [] start

metadata-Transacts_example :
    Refreshes outside
      (file (codes "6"))
      start
      (refresh_source_metadata outside (file (codes "6")) start)
    × Recomputes outside
        (codes "a.md")
        ((codes "total", entry) ∷ [])
        start
        (replace_computed_fields outside (codes "a.md") ((codes "total", entry) ∷ []) start)
    × Introduces outside 7
        (file (codes "6"))
        start
        (insert_unembedded_source_metadata outside 7 (file (codes "6")) start)
metadata-Transacts_example =
    metadata-Transacts outside 7 (codes "a.md") (file (codes "6")) ((codes "total", entry) ∷ [])
      start
