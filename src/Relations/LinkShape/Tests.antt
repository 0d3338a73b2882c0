-- ===== src/Relations/LinkShape/Tests.antt =====
-- Links and near misses.
use markdown_vdb.Base.{true, false, ◌≡◌, refl, none, some, Option}
use Prim.Native.String.{String}
use markdown_vdb.Base.Strings.{codes, contains_char, trim}
use markdown_vdb.Relations.LinkShape.RoundTrip.{wiki_link, parse_link_shaped-wiki_link}
use markdown_vdb.Relations.LinkShape.{ParsedLink, parse_link_shaped, is_external_or_anchor}

abbrev parse : String → Option ParsedLink
parse s = parse_link_shaped (codes s)

wiki :
    parse " [[people/ada | Ada]] "
    ≡ some (record { target = codes "people/ada"; text = codes "Ada"; is_wikilink = true })
unfolding parse_link_shaped
wiki = refl

wiki_no_alias :
    parse "[[a|]]" ≡ some (record { target = codes "a"; text = codes "a"; is_wikilink = true })
unfolding parse_link_shaped
wiki_no_alias = refl

markdown :
    parse "[Ada](ada.md)"
    ≡ some (record { target = codes "ada.md"; text = codes "Ada"; is_wikilink = false })
unfolding parse_link_shaped
markdown = refl

bare :
    parse "ada.md"
    ≡ some (record { target = codes "ada.md"; text = codes "ada.md"; is_wikilink = false })
unfolding parse_link_shaped
bare = refl

sentence : parse "See [[x]] for details" ≡ none
unfolding parse_link_shaped
sentence = refl

external : parse "[Ada](HTTPS://ada.md)" ≡ none
unfolding parse_link_shaped
external = refl

anchor : parse "[[#top]]" ≡ none
unfolding parse_link_shaped
anchor = refl

parse_link_shaped-wiki_link_example :
    parse_link_shaped (wiki_link (codes "people/ada") (codes "Ada"))
    ≡ some (record { target = codes "people/ada"; text = codes "Ada"; is_wikilink = true })
unfolding contains_char trim is_external_or_anchor
parse_link_shaped-wiki_link_example =
    parse_link_shaped-wiki_link (codes "people/ada") (codes "Ada") (refl, refl) (refl, refl) refl
      refl refl refl refl refl
