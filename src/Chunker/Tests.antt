-- ===== src/Chunker/Tests.antt =====
-- A document whose tokens are its characters.
use mathlib.Core.List.{reverse}
use Prim.Native.String.{String}
use markdown_vdb.Base.{
  ℕ, ◌+◌, ◌-◌, ◌*◌, ◌/◌, ◌<◌, List, [], ◌∷◌, ◌++◌, map, ◌≡◌, refl, arith, Text, some, none, Option,
  length,
}
use markdown_vdb.Base.Strings.{codes, join, decimal}
use markdown_vdb.Parser.{MarkdownFile, Heading}
use markdown_vdb.PathUtil.{to_slash}
use markdown_vdb.Chunker.{Chunk, Section, Tokenizer, LineRatio}
use markdown_vdb.Chunker.Sections.{sections_of, lines, Position, heading_loop, empty_build}
use markdown_vdb.Chunker.Sections.Content.{written, lines_in, written-sections_of}
use markdown_vdb.Chunker.Sections.Hierarchy.{Tracks, heading_loop-Tracks}
use markdown_vdb.Chunker.Windows.{IsNumbered, Covers, sub_split_section-Covers}
use markdown_vdb.Chunker.Document.{chunk_document}
use markdown_vdb.Chunker.Document.Total.{chunk_document-IsNumbered}

abbrev by_char : Tokenizer ℕ
by_char = record { encode_ordinary = λ t. t; decode = λ t. some t }

abbrev exact : LineRatio
exact = record { floor = λ a b c. a * c / b; ceil = λ a b c. (a * c + b - 1) / b }

abbrev heading : ℕ → String → ℕ → Heading
heading level text line = record { level = level; text = codes text; line_number = line }

abbrev body : Text
body = codes "intro\n# A\ntext\n \n## B\nmore\n# C\nend\n"

abbrev headings : List Heading
headings = heading 1 "A" 2 ∷ heading 2 "B" 5 ∷ heading 1 "C" 7 ∷ []

abbrev doc : MarkdownFile
doc = record {
  path = codes "d.md";
  headings = headings;
  body = body;
  content_hash = [];
  file_size = 0;
  links = [];
  modified_at = 0;
  frontmatter_links = [];
}

sections :
    sections_of body headings
    ≡ record { heading_hierarchy = []; lines = codes "intro" ∷ []; start_line = 1; end_line = 1 }
      ∷ record {
        heading_hierarchy = codes "A" ∷ [];
        lines = codes "# A" ∷ codes "text" ∷ codes " " ∷ [];
        start_line = 2;
        end_line = 4;
      }
      ∷ record {
        heading_hierarchy = codes "A" ∷ codes "B" ∷ [];
        lines = codes "## B" ∷ codes "more" ∷ [];
        start_line = 5;
        end_line = 6;
      }
      ∷ record {
        heading_hierarchy = codes "C" ∷ [];
        lines = codes "# C" ∷ codes "end" ∷ [];
        start_line = 7;
        end_line = 8;
      }
      ∷ []
unfolding sections_of
sections = refl

ids : Option (List Chunk) → List (Text × Text)
ids (some cs) = map (λ c. (c.id, c.content)) cs
ids none = []

chunks :
    ids (chunk_document by_char exact doc 7 2)
    ≡ (codes "d.md#0", codes "intro")
      ∷ (codes "d.md#1", codes "# A\ntex")
      ∷ (codes "d.md#2", codes "ext\n ")
      ∷ (codes "d.md#3", codes "## B\nmo")
      ∷ (codes "d.md#4", codes "more")
      ∷ (codes "d.md#5", codes "# C\nend")
      ∷ []
unfolding ids chunk_document decimal
chunks = refl

written-sections_of_example : written (lines_in (sections_of body headings)) ≡ written (lines body)
written-sections_of_example = written-sections_of body headings (omega arith)

abbrev positions : List Position
positions =
    record { line_idx = 1; level = 1; text = codes "A" }
    ∷ record { line_idx = 4; level = 2; text = codes "B" }
    ∷ []

heading_loop-Tracks_example :
    Tracks (reverse positions ++ []) (heading_loop (lines body) positions empty_build)
heading_loop-Tracks_example = heading_loop-Tracks (lines body) positions [] empty_build (refl, refl)

abbrev section : Section
section = record {
  heading_hierarchy = [];
  lines = codes "abcdefghij" ∷ [];
  start_line = 1;
  end_line = 1;
}

sub_split_section-Covers_example : Covers by_char exact section (codes "d.md") 4 1 0
unfolding join
sub_split_section-Covers_example =
    sub_split_section-Covers by_char exact section (codes "d.md") 4 1 0 (omega arith)

chunk_document-IsNumbered_example :
    (chunks : List Chunk) × (chunk_document by_char exact doc 7 2 ≡ some chunks)
    × IsNumbered (to_slash doc.path) 0 chunks
    × (0 < length chunks)
chunk_document-IsNumbered_example = chunk_document-IsNumbered by_char exact doc 7 2
