-- ===== src/Shards/Paths.antt =====
-- The folders that `normalize_shard_path` gives.
use markdown_vdb.Base.{
  ℕ, false, ◌||◌, List, [], ◌∷◌, ◌++◌, Text, text_key, text_eq, ◌==◌, ◌≡◌, refl, sym, ◌∙◌, ap, inl,
  inr, arith, All, All-map, Bool-cases,
}
use markdown_vdb.Base.Strings.{
  codes, trim, replace_char, contains_char, split, join, starts_with, strip_prefix,
}
use markdown_vdb.Base.Strings.Pieces.{split-join, Lacks, split-Lacks, split-Lacks_absent}
use markdown_vdb.Base.Result.{Result, ok, Result-cases}
use markdown_vdb.Shards.{
  eq_ignore_ascii_case, is_windows_drive_path, shard_components, normalize_shard_path,
}

-- A folder name that is no special one, and has none of the characters that a path may not have.
pub record IsComponent (c : Text) : Type 0 where
  pub not_empty : text_eq c [] ≡ false
  pub not_dot : text_eq c (codes ".") ≡ false
  pub not_parent : text_eq c (codes "..") ≡ false
  pub not_internal : eq_ignore_ascii_case c (codes ".markdownvdb") ≡ false
  pub no_nul : contains_char 0 c ≡ false
  pub no_slash : contains_char b'/' c ≡ false
  pub no_backslash : contains_char b'\\' c ≡ false

same_components : (cs ds : List Text) → ◌≡◌ {A = Result Text (List Text)} (ok cs) (ok ds) → cs ≡ ds
same_components cs ds e = cc e

-- What the loop gives are components, if the pieces have no separators.
shard_components-All :
    (path : Text) (ps cs : List Text)
    → Lacks b'/' ps
    → Lacks b'\\' ps
    → shard_components path ps ≡ ok cs
    → All IsComponent cs
unfolding shard_components
shard_components-All path [] cs s b h = rw (← same_components [] cs h) tt
shard_components-All path (p ∷ ps) cs s b h =
    elim (Bool-cases (text_eq p [] || text_eq p (codes "."))) [
      | inl skipped ↦ shard_components-All path ps cs s.1 b.1 (rw (skipped, shard_components) at h)
      | inr named ↦ elim (Bool-cases (text_eq p (codes ".."))) [
        | inl parent ↦ absurd (cc (rw (named, parent, shard_components) at h))
        | inr below ↦ elim (Bool-cases (eq_ignore_ascii_case p (codes ".markdownvdb"))) [
          | inl internal ↦ absurd (cc (rw (named, below, internal, shard_components) at h))
          | inr ours ↦ elim (Bool-cases (contains_char 0 p)) [
            | inl nul ↦ absurd (cc (rw (named, below, ours, nul, shard_components) at h))
            | inr plain ↦ elim (Result-cases (shard_components path ps)) [
              | inr (e, failed) ↦
                  absurd (cc (rw (named, below, ours, plain, failed, shard_components) at h))
              | inl (ds, rest) ↦
                  let q = rw (named, below, ours, plain, rest, shard_components) at h in
                  rw (← same_components (p ∷ ds) cs q) (
                    component p named below ours plain s.0 b.0,
                    shard_components-All path ps ds s.1 b.1 rest,
                  )
            ]
          ]
        ]
      ]
    ]
  where
    component :
        (p : Text)
        → (text_eq p [] || text_eq p (codes ".")) ≡ false
        → text_eq p (codes "..") ≡ false
        → eq_ignore_ascii_case p (codes ".markdownvdb") ≡ false
        → contains_char 0 p ≡ false
        → contains_char b'/' p ≡ false
        → contains_char b'\\' p ≡ false
        → IsComponent p
    component p named below ours plain slash back = record {
      not_empty = ground arith;
      not_dot = ground arith;
      not_parent = below;
      not_internal = ours;
      no_nul = plain;
      no_slash = slash;
      no_backslash = back;
    }

-- Components are given back as they are.
shard_components_same :
    (path : Text) (cs : List Text) → All IsComponent cs → shard_components path cs ≡ ok cs
unfolding shard_components
shard_components_same path [] all = refl
shard_components_same path (c ∷ cs) (is, all) =
    rw
      (
        is.not_empty,
        is.not_dot,
        is.not_parent,
        is.not_internal,
        is.no_nul,
        shard_components_same path cs all,
      )
      refl

replace_char-absent : (a b : ℕ) (s : Text) → contains_char a s ≡ false → replace_char a b s ≡ s
unfolding replace_char contains_char
replace_char-absent a b [] h = refl
replace_char-absent a b (c ∷ s) h = ground (arith, replace_char-absent a b s)

contains_char-replace_char :
    (a b : ℕ) (s : Text) → (b == a) ≡ false → contains_char a (replace_char a b s) ≡ false
unfolding replace_char contains_char
contains_char-replace_char a b [] n = refl
contains_char-replace_char a b (c ∷ s) n = ground (arith, contains_char-replace_char a b s n)

contains_char-append :
    (d : ℕ) (a b : Text) → contains_char d (a ++ b) ≡ (contains_char d a || contains_char d b)
unfolding contains_char
contains_char-append d [] b = refl
contains_char-append d (c ∷ a) b = ground (arith, contains_char-append d a b)

pub join-absent :
    (c d : ℕ) (ps : List Text)
    → (c == d) ≡ false
    → Lacks d ps
    → contains_char d (join (c ∷ []) ps) ≡ false
unfolding join contains_char
join-absent c d [] n h = refl
join-absent c d (p ∷ []) n h = h.0
join-absent c d (p ∷ q ∷ ps) n h = ground (
  arith,
  contains_char-append d p ((c ∷ []) ++ join (c ∷ []) (q ∷ ps)),
  h.0,
  join-absent c d (q ∷ ps) n h.1,
)

-- A joined path does not start with a slash.
join-starts_with :
    (c : Text) (cs : List Text)
    → IsComponent c
    → starts_with (codes "/") (join (codes "/") (c ∷ cs)) ≡ false
unfolding join starts_with strip_prefix contains_char text_eq
join-starts_with [] cs is = absurd (cc (is.not_empty))
join-starts_with (x ∷ c) [] is = ground (arith, is.no_slash)
join-starts_with (x ∷ c) (d ∷ cs) is = ground (arith, is.no_slash)

-- The result of a successful call, as the components that it joins.
pub record IsFolder (r : Text) : Type 0 where
  pub first : Text
  pub others : List Text
  pub joined : r ≡ join (codes "/") (first ∷ others)
  pub components : All IsComponent (first ∷ others)

module _ (path r : Text) (h : normalize_shard_path path ≡ ok r) where
  abbrev replaced : Text
  replaced = replace_char b'\\' b'/' (trim path)

  normalized-IsFolder : IsFolder r
  unfolding normalize_shard_path
  normalized-IsFolder =
      elim (Bool-cases (starts_with (codes "/") replaced || is_windows_drive_path replaced)) [
        | inl absolute ↦ absurd (cc (rw (absolute, normalize_shard_path) at h))
        | inr relative ↦ elim (Result-cases (shard_components path (split b'/' replaced))) [
          | inr (e, failed) ↦ absurd (cc (rw (relative, failed, normalize_shard_path) at h))
          | inl ([], none_left) ↦ absurd (cc (rw (relative, none_left, normalize_shard_path) at h))
          | inl (c ∷ cs, some_left) ↦
              let q = rw (relative, some_left, normalize_shard_path) at h in
              record {
                first = c;
                others = cs;
                joined = sym (cc q);
                components =
                    shard_components-All path (split b'/' replaced) (c ∷ cs)
                      (split-Lacks b'/' replaced)
                      (split-Lacks_absent b'/' b'\\' replaced
                        (contains_char-replace_char b'\\' b'/' (trim path) refl))
                      some_left;
              }
        ]
      ]

folder_again :
    (r : Text)
    → IsFolder r
    → trim r ≡ r
    → is_windows_drive_path r ≡ false
    → normalize_shard_path r ≡ ok r
unfolding normalize_shard_path
folder_again r f trimmed no_drive =
    let no_slash =
      All-map (λ c (is : IsComponent c). is.no_slash) (f.first ∷ f.others) f.components in
    let no_back =
      All-map (λ c (is : IsComponent c). is.no_backslash) (f.first ∷ f.others) f.components in
    let same : replace_char b'\\' b'/' (trim r) ≡ r =
      ap (replace_char b'\\' b'/') trimmed
      ∙ replace_char-absent b'\\' b'/' r
          (rw f.joined (join-absent b'/' b'\\' (f.first ∷ f.others) refl no_back)) in
    let relative : starts_with (codes "/") r ≡ false =
      rw f.joined (join-starts_with f.first f.others f.components.0) in
    let pieces : split b'/' r ≡ f.first ∷ f.others =
      ap (split b'/') f.joined ∙ split-join b'/' (f.first ∷ f.others) (λ e. cc) no_slash in
    rw
      (
        same,
        relative,
        no_drive,
        pieces,
        shard_components_same r (f.first ∷ f.others) f.components,
        normalize_shard_path,
      )
      (ap ok (sym f.joined))

-- A path that is accepted is normalized to a relative one: one or more folder names with a slash
-- between them, none of them empty, `.`, `..` or the internal folder in any case, and none with
-- a slash, a backslash or a NUL character in it.
pub normalize_shard_path-IsFolder : (path r : Text) → normalize_shard_path path ≡ ok r → IsFolder r
normalize_shard_path-IsFolder path r h = normalized-IsFolder path r h

-- A normalized path is normalized to itself, if it has no white space at its ends and does not
-- look like a path of a Windows drive.
pub normalize_shard_path-idempotent :
    (path r : Text)
    → normalize_shard_path path ≡ ok r
    → trim r ≡ r
    → is_windows_drive_path r ≡ false
    → normalize_shard_path r ≡ ok r
normalize_shard_path-idempotent path r h = folder_again r (normalized-IsFolder path r h)
