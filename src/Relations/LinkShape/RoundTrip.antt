-- ===== src/Relations/LinkShape/RoundTrip.antt =====
-- A printed wiki link is parsed to what it was printed from.
use mathlib.Core.List.{reverse, reverse-append, reverse-reverse}
use markdown_vdb.Base.{
  ℕ, true, false, ◌||◌, [], ◌∷◌, ◌++◌, none, some, Text, is_empty, ◌≡◌, refl, ap, ◌∙◌, sym, ◌==◌,
  arith, append_assoc,
}
use markdown_vdb.Base.Strings.{
  codes, trim, strip_prefix, contains_char, drop_while, is_whitespace, strip_prefix_iff,
}
use markdown_vdb.Relations.LinkShape.{
  is_external_or_anchor, cut, strip_suffix, parsed, wiki_inner, parse_wiki, parse_link_shaped,
}

-- The wiki link with this target and alias.
abbrev pub wiki_link : Text → Text → Text
wiki_link target text = codes "[[" ++ ((target ++ b'|' ∷ text) ++ codes "]]")

-- No bracket stands in the text.
abbrev pub HasNoBracket : Text → Type 0
HasNoBracket s = (contains_char b'[' s ≡ false) × (contains_char b']' s ≡ false)

contains_char-append :
    (c : ℕ) (a b : Text) → contains_char c (a ++ b) ≡ (contains_char c a || contains_char c b)
unfolding contains_char
contains_char-append c [] b = refl
contains_char-append c (d ∷ a) b = ground (arith, contains_char-append c a b)

absent_from_both :
    (c : ℕ) (a b : Text)
    → contains_char c a ≡ false
    → contains_char c b ≡ false
    → b'|' == c ≡ false
    → contains_char c (a ++ b'|' ∷ b) ≡ false
unfolding contains_char
absent_from_both c a b h k e = rw (contains_char-append c a (b'|' ∷ b), h, e) k

is_empty-append : (a b : Text) → is_empty (a ++ b'|' ∷ b) ≡ false
is_empty-append [] b = refl
is_empty-append (c ∷ a) b = refl

cut-append :
    (a b : Text) → contains_char b'|' a ≡ false → cut (codes "|") (a ++ b'|' ∷ b) ≡ some (a, b)
unfolding cut contains_char strip_prefix
cut-append [] b h = refl
cut-append (c ∷ a) b h =
    let ih = cut-append a b (ground arith) in
    let other : c == b'|' ≡ false = ground arith in
    rw (strip_none c (a ++ b'|' ∷ b) other, ih, cut) refl
  where
    strip_none : (c : ℕ) (s : Text) → c == b'|' ≡ false → strip_prefix (codes "|") (c ∷ s) ≡ none
    strip_none c s e = ground arith

strip_suffix-append : (m p : Text) → strip_suffix p (m ++ p) ≡ some m
unfolding strip_suffix
strip_suffix-append m p =
    rw
      (
        reverse-append m p,
        (strip_prefix_iff (reverse p) (reverse p ++ reverse m) (reverse m)).1 refl,
        strip_suffix,
      )
      (ap some (reverse-reverse m))

trim-brackets :
    (m : Text) → trim (codes "[[" ++ (m ++ codes "]]")) ≡ codes "[[" ++ (m ++ codes "]]")
unfolding trim drop_while is_whitespace
trim-brackets m =
    let s = codes "[[" ++ (m ++ codes "]]") in
    let e : reverse s ≡ codes "]]" ++ reverse (codes "[[" ++ m) =
      ap reverse (sym (append_assoc (codes "[[") m (codes "]]")))
      ∙ reverse-append (codes "[[" ++ m) (codes "]]") in
    ap (λ r. reverse (drop_while is_whitespace r)) e ∙ (ap reverse (sym e) ∙ reverse-reverse s)

wiki_inner-wiki : (m : Text) → wiki_inner (codes "[[" ++ (m ++ codes "]]")) ≡ some m
unfolding wiki_inner strip_prefix
wiki_inner-wiki m = strip_suffix-append m (codes "]]")

-- A wiki link printed from a target and an alias is parsed to them, if they are trimmed, are not
-- empty and have no bracket, and the target has no bar and is neither external nor an anchor.
pub parse_link_shaped-wiki_link :
    (target text : Text)
    → HasNoBracket target
    → HasNoBracket text
    → contains_char b'|' target ≡ false
    → trim target ≡ target
    → trim text ≡ text
    → is_empty target ≡ false
    → is_empty text ≡ false
    → is_external_or_anchor target ≡ false
    → parse_link_shaped (wiki_link target text)
      ≡ some (record { target = target; text = text; is_wikilink = true })
unfolding parse_link_shaped parse_wiki parsed
parse_link_shaped-wiki_link target text a b bar trimmed trimmed' full full' inside =
    let inner = target ++ b'|' ∷ text in
    let left : contains_char b'[' inner ≡ false = absent_from_both b'[' target text a.0 b.0 refl in
    let right : contains_char b']' inner ≡ false = absent_from_both b']' target text a.1 b.1 refl in
    rw
      (
        trim-brackets inner,
        wiki_inner-wiki inner,
        is_empty-append target text,
        left,
        right,
        cut-append target text bar,
        trimmed,
        trimmed',
        full,
        full',
        inside,
        parse_link_shaped,
        parse_wiki,
        parsed,
      )
      refl
