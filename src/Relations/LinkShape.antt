-- ===== src/Relations/LinkShape.antt =====
-- `parse_link_shaped` of src/relations.rs: frontmatter values that are links.
pub mod RoundTrip
mod Tests
use package.markdown_vdb.Base.{
  ℕ, ◌+◌, ◌-◌, Bool, true, false, ◌||◌, ◌&&◌, not, List, [], ◌∷◌, Option, none, some, Text,
  is_empty, if◌then◌else◌, ltb, leb, ◌==◌, take, drop, length, map,
}
use mathlib.Core.List.{reverse}
use package.markdown_vdb.Base.Strings.{
  codes, trim, strip_prefix, starts_with, ends_with, contains_char, is_whitespace,
}

pub record ParsedLink : Type 0 where
  pub target : Text
  pub text : Text
  pub is_wikilink : Bool

-- `to_lowercase`, as far as the three ASCII prefixes below depend on it: no other character
-- becomes one of their letters.
lower : ℕ → ℕ
lower c = if leb b'A' c && leb c b'Z' then c + 32 else c

unfoldable pub is_external_or_anchor : Text → Bool
unfolding lower starts_with strip_prefix contains_char
is_external_or_anchor url =
    starts_with (codes "http://") (map lower url)
    || starts_with (codes "https://") (map lower url)
    || starts_with (codes "mailto:") (map lower url)
    || (starts_with (codes "#") url && not (contains_char b'/' url))

-- `str::find` with the parts before and behind a separator that is not empty.
pub cut : Text → Text → Option (Text × Text)
unfolding strip_prefix
cut separator [] = none
cut separator (c ∷ s) =
    let later : Option (Text × Text) = elim (cut separator s) [
      | none ↦ none
      | some (a, b) ↦ some (c ∷ a, b)
    ] in
    elim (strip_prefix separator (c ∷ s)) [ some r ↦ some ([], r) | none ↦ later ]

pub strip_suffix : Text → Text → Option Text
unfolding strip_prefix
strip_suffix p s = elim (strip_prefix (reverse p) (reverse s)) [
  | none ↦ none
  | some r ↦ some (reverse r)
]

-- What both kinds of links make of their target and text.
pub parsed : Bool → Text → Text → Option ParsedLink
unfolding trim is_external_or_anchor
parsed is_wikilink target text =
    let t = trim target in
    let x = trim text in
    let link : ParsedLink = record {
      target = t;
      text = if is_empty x then t else x;
      is_wikilink = is_wikilink;
    } in
    if is_empty t || is_external_or_anchor t then none else some link

-- What stands between `[[` and `]]`.
pub wiki_inner : Text → Option Text
unfolding strip_prefix strip_suffix
wiki_inner t = elim (strip_prefix (codes "[[") t) [
  | none ↦ none
  | some r ↦ strip_suffix (codes "]]") r
]

pub parse_wiki : Text → Option ParsedLink
unfolding contains_char cut parsed
parse_wiki inner =
    let named : Option ParsedLink = elim (cut (codes "|") inner) [
      | none ↦ parsed true inner inner
      | some (target, text) ↦ parsed true target text
    ] in
    if is_empty inner || contains_char b'[' inner || contains_char b']' inner then none else named

pub parse_markdown : Text → Option ParsedLink
unfolding contains_char cut parsed
parse_markdown t = elim (cut (codes "](") t) [
  | none ↦ none
  | some (a, b) ↦
      let text = drop 1 a in
      let target = take (length b - 1) b in
      if contains_char b']' text || contains_char b'(' target || contains_char b')' target
      then none
      else parsed false target text
]

has_whitespace : Text → Bool
unfolding is_whitespace
has_whitespace [] = false
has_whitespace (c ∷ s) = is_whitespace c || has_whitespace s

pub parse_bare : Text → Option ParsedLink
unfolding has_whitespace ends_with is_external_or_anchor
parse_bare t =
    if not (is_empty t)
      && not (has_whitespace t)
      && ends_with (codes ".md") t
      && not (is_external_or_anchor t)
    then some (record { target = t; text = t; is_wikilink = false })
    else none

unfoldable pub parse_link_shaped : Text → Option ParsedLink
unfolding trim wiki_inner parse_wiki parse_markdown parse_bare starts_with ends_with
parse_link_shaped s =
    let t = trim s in
    elim (wiki_inner t) [
      | some inner ↦ parse_wiki inner
      | none ↦
          if starts_with (codes "[") t && ends_with (codes ")") t
          then parse_markdown t
          else parse_bare t
    ]
