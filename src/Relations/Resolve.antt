-- ===== src/Relations/Resolve.antt =====
-- Where a relation resolves to: the candidates, and the choice among them.
use markdown_vdb.Base.{
  Bool, true, false, List, [], ◌∷◌, ◌++◌, ◌≡◌, ◌≢◌, refl, ap, arith, Option, none, some, Text,
  text_key, text_eq, is_empty, Bool-cases, inl, inr, All, All-mem, mem-append_right, ◌∈◌,
  if◌then◌else◌, ◌⊎◌, not, ◌&&◌,
}
use markdown_vdb.Base.Strings.{
  codes, ends_with, before, trim, trim_end_matches, contains_char, trim_start_matches,
}
use markdown_vdb.Base.Strings.Ends.{ends_with_complete, ends_with-append}
use markdown_vdb.Base.Map.{contains, contains_iff}
use markdown_vdb.PathUtil.{normalize_path_input, to_slash}
use markdown_vdb.Paths.{normalize_path, path_join, parent}
use markdown_vdb.Relations.{
  with_md, or_empty, resolve_in, resolve_link, rooted_candidates, named_candidates, candidates_of,
  relation_target_candidates, find_known, resolve_candidates, resolve_relation_target,
}

abbrev pub IsMarkdown : Text → Type 0
IsMarkdown path = ends_with (codes ".md") path ≡ true

with_md-IsMarkdown : (s : Text) → IsMarkdown (with_md s)
with_md-IsMarkdown s = elim (Bool-cases (ends_with (codes ".md") s)) [
  | inl e ↦ rw e e
  | inr e ↦ rw e (ends_with_complete (codes ".md") s)
]

-- `resolve_link` answers the empty path exactly when the target has nothing before its fragment,
-- and otherwise a path that ends in `.md`.
pub resolve_link-IsMarkdown :
    (source target : Text)
    → ((before b'#' (trim target) ≡ []) × (resolve_link source target ≡ []))
      ⊎ ((before b'#' (trim target) ≢ []) × IsMarkdown (resolve_link source target))
unfolding resolve_link resolve_in
resolve_link-IsMarkdown source target = go (before b'#' (trim target)) refl
  where
    resolved_path : Text → Text
    resolved_path t =
        to_slash (normalize_path (path_join (or_empty (parent source)) (normalize_path_input t)))

    go :
        (t : Text)
        → before b'#' (trim target) ≡ t
        → ((before b'#' (trim target) ≡ []) × (resolve_link source target ≡ []))
          ⊎ ((before b'#' (trim target) ≢ []) × IsMarkdown (resolve_link source target))
    go [] e = inl (e, rw e)
    go (c ∷ cs) e = inr (λ n. cc, rw e (with_md-IsMarkdown (resolved_path (c ∷ cs))))

module _ (source t : Text) where
  rooted_candidates-IsMarkdown : All IsMarkdown (rooted_candidates source t)
  unfolding rooted_candidates
  rooted_candidates-IsMarkdown =
      let root = with_md (to_slash (normalize_path t)) in
      let rel = resolve_link source t in
      elim (Bool-cases (not (is_empty rel) && not (text_eq rel root))) [
        | inl two ↦ rw two (
          with_md-IsMarkdown (to_slash (normalize_path t)),
          (
            elim (resolve_link-IsMarkdown source t) [
              | inl (_, e) ↦ absurd (nonempty e two)
              | inr (_, h) ↦ h
            ],
            tt,
          ),
        )
        | inr one ↦ rw one (with_md-IsMarkdown (to_slash (normalize_path t)), tt)
      ]
    where
      nonempty :
          resolve_link source t ≡ []
          → (not (is_empty (resolve_link source t))
              && not (text_eq (resolve_link source t) (with_md (to_slash (normalize_path t)))))
            ≡ true
          → ⊥
      nonempty e h = ground arith

  named_candidates-IsMarkdown : (o : Option Text) → All IsMarkdown (named_candidates source t o)
  unfolding named_candidates
  named_candidates-IsMarkdown (some folder) = (
    ends_with-append (codes ".md") (trim_end_matches b'/' folder) (b'/' ∷ with_md t)
        (ends_with-append (codes ".md") (b'/' ∷ []) (with_md t) (with_md-IsMarkdown t)),
    tt,
  )
  named_candidates-IsMarkdown none = elim (resolve_link-IsMarkdown source t) [
    | inl (_, e) ↦ rw e tt
    | inr (_, h) ↦ nonempty (resolve_link source t) h
  ]
    where
      nonempty : (r : Text) → IsMarkdown r → All IsMarkdown (if is_empty r then [] else r ∷ [])
      nonempty [] h = tt
      nonempty (c ∷ cs) h = (h, tt)

candidates_of-IsMarkdown :
    (source t : Text) (o : Option Text) → All IsMarkdown (candidates_of source t o)
unfolding candidates_of
candidates_of-IsMarkdown source [] o = tt
candidates_of-IsMarkdown source (c ∷ cs) o = elim (Bool-cases (contains_char b'/' (c ∷ cs))) [
  | inl e ↦ rw e (rooted_candidates-IsMarkdown source (c ∷ cs))
  | inr e ↦ rw e (named_candidates-IsMarkdown source (c ∷ cs) o)
]

pub relation_target_candidates-IsMarkdown :
    (source target : Text) (o : Option Text)
    → All IsMarkdown (relation_target_candidates source target o)
unfolding relation_target_candidates
relation_target_candidates-IsMarkdown source target o =
    candidates_of-IsMarkdown source
      (trim_start_matches b'/' (trim (normalize_path_input (before b'#' (trim target))))) o

module _ (known : List Text) where
  abbrev pub IsUnknown : Text → Type 0
  IsUnknown path = contains path known ≡ false

  -- How the answer relates to the candidates: nothing if there are none; the first known one, all
  -- before it being unknown; or the first of all, none being known.
  abbrev pub Chosen : List Text → Option (Text × Bool) → Type 0
  Chosen candidates none = candidates ≡ []
  Chosen candidates (some (path, true)) =
      (earlier : List Text) × (later : List Text) × (candidates ≡ earlier ++ (path ∷ later))
      × All IsUnknown earlier
      × (path ∈ known)
  Chosen candidates (some (path, false)) =
      (later : List Text) × (candidates ≡ path ∷ later) × All IsUnknown candidates

  find_known-Chosen :
      (cs : List Text)
      → ((find_known known cs ≡ none) × All IsUnknown cs)
        ⊎ ((path : Text) × (find_known known cs ≡ some path) × Chosen cs (some (path, true)))
  unfolding find_known
  find_known-Chosen [] = inl (refl, tt)
  find_known-Chosen (c ∷ cs) = elim (Bool-cases (contains c known)) [
    | inl e ↦ inr (c, rw e, ([], cs, refl, tt, (contains_iff c known).0 e))
    | inr e ↦ elim (find_known-Chosen cs) [
      | inl (n, all) ↦ inl (rw e n, (e, all))
      | inr (path, found, (earlier, later, split, all, m)) ↦
          inr (path, rw e found, (c ∷ earlier, later, ap (◌∷◌ c) split, (e, all), m))
    ]
  ]

  resolve_candidates-Chosen : (cs : List Text) → Chosen cs (resolve_candidates known cs)
  unfolding resolve_candidates
  resolve_candidates-Chosen [] = refl
  resolve_candidates-Chosen (c ∷ cs) = elim (find_known-Chosen (c ∷ cs)) [
    | inl (n, all) ↦ rw (n, resolve_candidates) (cs, refl, all)
    | inr (path, found, h) ↦ rw (found, resolve_candidates) h
  ]

-- `resolve_relation_target` takes the candidates in order: its answer is none when there are no
-- candidates, the first known candidate with `true` when one is known, and else the first
-- candidate with `false`; every candidate ends in `.md`.
pub resolve_relation_target-Chosen :
    (source target : Text) (folder : Option Text) (known : List Text)
    → Chosen known
        (relation_target_candidates source target folder)
        (resolve_relation_target source target folder known)
      × All IsMarkdown (relation_target_candidates source target folder)
unfolding resolve_relation_target
resolve_relation_target-Chosen source target folder known = (
  resolve_candidates-Chosen known (relation_target_candidates source target folder),
  relation_target_candidates-IsMarkdown source target folder,
)

Chosen-IsMarkdown :
    (known cs : List Text) (path : Text) (exists : Bool)
    → All IsMarkdown cs
    → Chosen known cs (some (path, exists))
    → IsMarkdown path
Chosen-IsMarkdown known cs path true all (earlier, later, e, _, _) =
    All-mem IsMarkdown path cs all (rw e (mem-append_right path earlier (path ∷ later) (inl refl)))
Chosen-IsMarkdown known cs path false all (later, e, _) =
    All-mem IsMarkdown path cs all (rw e (inl refl))

-- Whatever a relation resolves to ends in `.md`.
pub resolve_relation_target-IsMarkdown :
    (source target : Text) (folder : Option Text) (known : List Text) (path : Text) (exists : Bool)
    → resolve_relation_target source target folder known ≡ some (path, exists)
    → IsMarkdown path
resolve_relation_target-IsMarkdown source target folder known path exists h =
    let (chosen, all) = resolve_relation_target-Chosen source target folder known in
    Chosen-IsMarkdown known (relation_target_candidates source target folder) path exists all
      (rw h at chosen)
