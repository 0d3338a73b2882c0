-- ===== src/Links/Entries.antt =====
-- What `build_entries_for_file` puts into the graph.
use markdown_vdb.Base.{
  ◌<◌, Bool, true, false, List, [], ◌∷◌, ◌++◌, ◌||◌, map, ◌≡◌, ◌≢◌, refl, ap, ◌⊎◌, inl, inr, arith,
  Option, none, some, Text, text_key, text_eq, text_eq_iff, LinkKey, link_key, link_key_eq_iff,
  is_empty, Bool-cases, All, All-map, All-append, ◌≟◌,
}
use markdown_vdb.Base.Map.{contains, Distinct}
use markdown_vdb.Parser.{MarkdownFile, RawLink, FrontmatterLink}
use markdown_vdb.PathUtil.{to_slash}
use markdown_vdb.Relations.{
  RelationContext, is_formula_field, resolve_link, resolve_relation_target,
}
use markdown_vdb.Relations.Resolve.{
  IsMarkdown, resolve_link-IsMarkdown, resolve_relation_target-IsMarkdown,
}
use markdown_vdb.Links.{
  LinkEntry, Collected, collect_entry, body_entry, frontmatter_entry, add_body_link, add_resolved,
  add_frontmatter_link, add_body_links, add_frontmatter_links, build_entries_for_file,
}

abbrev pub entry_key : LinkEntry → LinkKey
entry_key e = (e.target, e.field)

-- A frontmatter relation has line 0 and a field, a body link a line and no field.
abbrev pub HasPlace : LinkEntry → Type 0
HasPlace e =
    ((e.field ≡ none) × (0 < e.line_number))
    ⊎ ((f : Text) × (e.field ≡ some f) × (e.line_number ≡ 0))

-- An entry of the file `source`: its target is another Markdown path.
pub record IsEntryOf (source : Text) (e : LinkEntry) : Type 0 where
  pub from_source : e.source ≡ source
  pub not_self : e.target ≢ source
  pub markdown : IsMarkdown e.target
  pub place : HasPlace e

abbrev pub AreEntriesOf : Text → List LinkEntry → Type 0
AreEntriesOf source entries = All (IsEntryOf source) entries × Distinct (map entry_key entries)

record Inv (source : Text) (c : Collected) : Type 0 where
  entries_of : AreEntriesOf source c.entries
  seen_all : All (λ e. contains (entry_key e) c.seen ≡ true) c.entries

contains-map :
    (k : LinkKey) (seen : List LinkKey) (entries : List LinkEntry)
    → All (λ e. contains (entry_key e) seen ≡ true) entries
    → contains k seen ≡ false
    → contains k (map entry_key entries) ≡ false
unfolding contains
contains-map k seen [] h n = refl
contains-map k seen (e ∷ es) h n =
    ground (arith, link_key_eq_iff (entry_key e) k, contains-map k seen es h.1 n, h.0)

Distinct-concat :
    (x : LinkKey) (xs : List LinkKey)
    → Distinct xs
    → contains x xs ≡ false
    → Distinct (xs ++ x ∷ [])
unfolding contains
Distinct-concat x [] d n = (refl, tt)
Distinct-concat x (y ∷ ys) d n =
    (contains-concat ys d.0 (ground arith), Distinct-concat x ys d.1 (ground arith))
  where
    contains-concat :
        (zs : List LinkKey)
        → contains y zs ≡ false
        → y ≟ x ≡ false
        → contains y (zs ++ x ∷ []) ≡ false
    contains-concat [] h ne = ground (arith, link_key_eq_iff x y, link_key_eq_iff y x)
    contains-concat (z ∷ zs) h ne = ground (arith, contains-concat zs)

map-concat :
    (e : LinkEntry) (es : List LinkEntry)
    → map entry_key (es ++ e ∷ []) ≡ map entry_key es ++ entry_key e ∷ []
map-concat e [] = refl
map-concat e (x ∷ es) = ap (◌∷◌ (entry_key x)) (map-concat e es)

collect_entry-Inv :
    (source : Text) (e : LinkEntry) (c : Collected)
    → Inv source c
    → IsEntryOf source e
    → contains (entry_key e) c.seen ≡ false
    → Inv source (collect_entry e c)
unfolding contains
collect_entry-Inv source e c i h n = record {
  entries_of = (
    All-append (IsEntryOf source) c.entries (e ∷ []) i.entries_of.0 (h, tt),
    rw (map-concat e c.entries) (
        Distinct-concat (entry_key e) (map entry_key c.entries) i.entries_of.1
          (contains-map (entry_key e) c.seen c.entries i.seen_all n)),
  );
  seen_all =
      All-append (λ x. contains (entry_key x) (entry_key e ∷ c.seen) ≡ true) c.entries (e ∷ [])
        (All-map (λ x m. ground arith) c.entries i.seen_all)
        (ground (arith, link_key_eq_iff (entry_key e) (entry_key e)), tt);
}

text_ne : (a b : Text) → text_eq a b ≡ false → a ≢ b
text_ne a b h e = ground (arith, text_eq_iff a b)

resolved-IsMarkdown :
    (source target : Text)
    → is_empty (resolve_link source target) ≡ false
    → IsMarkdown (resolve_link source target)
resolved-IsMarkdown source target h = elim (resolve_link-IsMarkdown source target) [
  | inl (_, e) ↦ absurd (full e)
  | inr (_, m) ↦ m
]
  where
    full : resolve_link source target ≡ [] → ⊥
    full e = ground arith

add_body_link-Inv :
    (source : Text) (raw : RawLink) (c : Collected)
    → 0 < raw.line_number
    → Inv source c
    → Inv source (add_body_link source raw c)
unfolding add_body_link
add_body_link-Inv source raw c pos i =
    let t = resolve_link source raw.target in
    elim (Bool-cases (is_empty t)) [
      | inl e ↦ rw e i
      | inr some_target ↦ elim (Bool-cases (text_eq t source)) [
        | inl e ↦ rw (some_target, e) i
        | inr other ↦ elim (Bool-cases (contains (t, none) c.seen)) [
          | inl e ↦ rw (some_target, other, e) i
          | inr fresh ↦
              rw (some_target, other, fresh)
                (collect_entry-Inv source (body_entry source t raw) c i
                  (record {
                    from_source = refl;
                    not_self = text_ne t source other;
                    markdown = resolved-IsMarkdown source raw.target some_target;
                    place = inl (refl, pos);
                  })
                  fresh)
        ]
      ]
    ]

add_resolved-Inv :
    (source : Text) (link : FrontmatterLink) (o : Option (Text × Bool)) (c : Collected)
    → ((path : Text) (exists : Bool) → o ≡ some (path, exists) → IsMarkdown path)
    → Inv source c
    → Inv source (add_resolved source link o c)
unfolding add_resolved
add_resolved-Inv source link none c m i = i
add_resolved-Inv source link (some (t, exists)) c m i = elim (Bool-cases (text_eq t source)) [
  | inl e ↦ rw e i
  | inr other ↦ elim (Bool-cases (contains (t, some link.field) c.seen)) [
    | inl e ↦ rw (other, e) i
    | inr fresh ↦
        rw (other, fresh)
          (collect_entry-Inv source (frontmatter_entry source t link) c i
            (record {
              from_source = refl;
              not_self = text_ne t source other;
              markdown = m t exists refl;
              place = inr (link.field, refl, refl);
            })
            fresh)
  ]
]

module _ (ctx : RelationContext) (source : Text) where
  add_frontmatter_link-Inv :
      (link : FrontmatterLink) (c : Collected)
      → Inv source c
      → Inv source (add_frontmatter_link ctx source link c)
  unfolding add_frontmatter_link
  add_frontmatter_link-Inv link c i =
      elim (Bool-cases
        (ctx.is_file_field source link.field || is_formula_field ctx source link.field)) [
          | inl e ↦ rw e i
          | inr relation ↦ rw relation (
              add_resolved-Inv source link
                (resolve_relation_target source link.target (ctx.target_for source link.field)
                  ctx.known_files)
                c
                (resolve_relation_target-IsMarkdown source link.target
                  (ctx.target_for source link.field) ctx.known_files)
                i)
        ]

  add_frontmatter_links-Inv :
      (links : List FrontmatterLink) (c : Collected)
      → Inv source c
      → Inv source (add_frontmatter_links ctx source links c)
  unfolding add_frontmatter_links
  add_frontmatter_links-Inv [] c i = i
  add_frontmatter_links-Inv (l ∷ ls) c i =
      add_frontmatter_links-Inv ls (add_frontmatter_link ctx source l c)
        (add_frontmatter_link-Inv l c i)

add_body_links-Inv :
    (source : Text) (links : List RawLink) (c : Collected)
    → All (λ l. 0 < l.line_number) links
    → Inv source c
    → Inv source (add_body_links source links c)
unfolding add_body_links
add_body_links-Inv source [] c h i = i
add_body_links-Inv source (l ∷ ls) c h i =
    add_body_links-Inv source ls (add_body_link source l c) h.1 (add_body_link-Inv source l c h.0 i)

-- For a file whose body links have 1-based line numbers, every entry that
-- `build_entries_for_file` makes comes from the file, points to another path that ends in `.md`,
-- and has line number 0 exactly if it has a frontmatter field; no two entries have the same
-- target and field.
pub build_entries_for_file-AreEntriesOf :
    (file : MarkdownFile) (ctx : RelationContext)
    → All (λ l. 0 < l.line_number) file.links
    → AreEntriesOf (to_slash file.path) (build_entries_for_file file ctx).1
unfolding build_entries_for_file
build_entries_for_file-AreEntriesOf file ctx h =
    (add_frontmatter_links-Inv ctx (to_slash file.path) file.frontmatter_links
      (add_body_links (to_slash file.path) file.links (record { seen = []; entries = [] }))
      (add_body_links-Inv (to_slash file.path) file.links (record { seen = []; entries = [] }) h
        (record { entries_of = (tt, tt); seen_all = tt }))).entries_of
