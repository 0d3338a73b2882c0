-- ===== src/Chunker/Sections.antt =====
-- `chunk_document` of src/chunker.rs up to its sections: lines, headings, and the loop that cuts
-- the body at the headings.
pub mod Hierarchy
pub mod Content
use mathlib.Core.List.{reverse}
use package.markdown_vdb.Base.{
  ℕ, zero, suc, ◌+◌, ◌-◌, Bool, true, false, ◌&&◌, ◌||◌, not, List, [], ◌∷◌, ◌++◌, map, ◌==◌, ltb,
  leb, if◌then◌else◌, Text, is_empty, length, take, drop,
}
use package.markdown_vdb.Base.Strings.{codes, split, join, trim}
use package.markdown_vdb.Parser.{Heading}
use package.markdown_vdb.Chunker.{Section}

strip_cr : Text → Text
strip_cr [] = []
strip_cr (c ∷ []) = if c == b'\r' then [] else c ∷ []
strip_cr (c ∷ d ∷ cs) = c ∷ strip_cr (d ∷ cs)

lines_of : List Text → List Text
unfolding strip_cr
lines_of [] = []
lines_of (p ∷ []) = if is_empty p then [] else p ∷ []
lines_of (p ∷ q ∷ ps) = strip_cr p ∷ lines_of (q ∷ ps)

-- `str::lines`.
unfoldable pub lines : Text → List Text
unfolding lines_of split
lines body = lines_of (split b'\n' body)

-- A heading at its 0-based line.
pub record Position : Type 0 where
  pub line_idx : ℕ
  pub level : ℕ
  pub text : Text

-- The headings whose line lies in the body.
unfoldable pub heading_positions : ℕ → List Heading → List Position
heading_positions total [] = []
heading_positions total (h ∷ hs) =
    let p : Position = record { line_idx = h.line_number - 1; level = h.level; text = h.text } in
    if leb 1 h.line_number && leb h.line_number total
    then p ∷ heading_positions total hs
    else heading_positions total hs

-- `content.trim().is_empty()` for the joined lines.
unfoldable pub is_blank_section : List Text → Bool
unfolding join trim
is_blank_section ls = is_empty (trim (join (codes "\n") ls))

abbrev pub slice : List Text → ℕ → ℕ → List Text
slice ls from to = take (to - from) (drop from ls)

-- The section of the lines from `from` to `to`, unless it is blank.
unfoldable pub emit : List Text → ℕ → ℕ → List Text → List Section → List Section
unfolding is_blank_section
emit body_lines from to hierarchy sections =
    if not (is_blank_section (slice body_lines from to))
    then sections
      ++ record {
        heading_hierarchy = hierarchy;
        lines = slice body_lines from to;
        start_line = from + 1;
        end_line = to;
      }
        ∷ []
    else sections

-- The variables of the loop; the stack's head is its top, the last pushed.
pub record Build : Type 0 where
  pub sections : List Section
  pub heading_stack : List (ℕ × Text)
  pub prev_start : ℕ
  pub prev_hierarchy : List Text

-- `while heading_stack.last().is_some_and(|(l, _)| *l >= level) { pop }`
unfoldable pub pop_levels : ℕ → List (ℕ × Text) → List (ℕ × Text)
pop_levels level [] = []
pop_levels level ((l, t) ∷ stack) = if leb level l then pop_levels level stack else (l, t) ∷ stack

abbrev pub hierarchy_of : List (ℕ × Text) → List Text
hierarchy_of stack = reverse (map (λ h. h.1) stack)

-- One round: the section before the heading, then the stack.
unfoldable pub heading_step : List Text → Position → Build → Build
unfolding emit pop_levels
heading_step body_lines h b =
    let first = h.line_idx == 0 && (b.prev_start == 0 && is_empty b.sections) in
    let stack = (h.level, h.text) ∷ pop_levels h.level b.heading_stack in
    record {
      sections =
          if ltb b.prev_start h.line_idx || first
          then if ltb b.prev_start h.line_idx
            then emit body_lines b.prev_start h.line_idx b.prev_hierarchy b.sections
            else b.sections
          else b.sections;
      heading_stack = stack;
      prev_start = h.line_idx;
      prev_hierarchy = hierarchy_of stack;
    }

unfoldable pub heading_loop : List Text → List Position → Build → Build
unfolding heading_step
heading_loop body_lines [] b = b
heading_loop body_lines (h ∷ hs) b = heading_loop body_lines hs (heading_step body_lines h b)

abbrev pub empty_build : Build
empty_build = record { sections = []; heading_stack = []; prev_start = 0; prev_hierarchy = [] }

-- The section behind the last heading.
unfoldable pub final_section : List Text → Build → List Section
unfolding emit
final_section body_lines b =
    if ltb b.prev_start (length body_lines)
    then emit body_lines b.prev_start (length body_lines) b.prev_hierarchy b.sections
    else b.sections

-- The two fallbacks: the whole body, and one empty section.
unfoldable pub or_whole : Text → List Text → List Section → List Section
unfolding trim
or_whole body body_lines sections =
    if is_empty sections && not (is_empty (trim body))
    then record {
      heading_hierarchy = [];
      lines = body_lines;
      start_line = 1;
      end_line = length body_lines;
    }
      ∷ []
    else sections

unfoldable pub or_empty_section : List Section → List Section
or_empty_section sections =
    if is_empty sections
    then record { heading_hierarchy = []; lines = []; start_line = 1; end_line = 1 } ∷ []
    else sections

-- The sections of a document.
unfoldable pub sections_of : Text → List Heading → List Section
unfolding lines heading_positions heading_loop final_section or_whole or_empty_section
sections_of body headings =
    let body_lines = lines body in
    let b = heading_loop body_lines (heading_positions (length body_lines) headings) empty_build in
    or_empty_section (or_whole body body_lines (final_section body_lines b))
