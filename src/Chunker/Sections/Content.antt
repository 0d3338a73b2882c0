-- ===== src/Chunker/Sections/Content.antt =====
-- No text is lost between the body and its sections.
use markdown_vdb.Base.{
  ℕ, ◌-◌, ◌<◌, ◌≤◌, true, ◌&&◌, not, List, [], ◌∷◌, ◌++◌, ◌≡◌, refl, ap, ◌∙◌, sym, inl, inr, ◌⊎◌,
  arith, Text, ltb, leb, Bool-cases, if_same, ltb→le, append_assoc, append-nil, take, length,
  filter, filter-append, take_split, take_all, All, is_empty,
}
use markdown_vdb.Base.Strings.{codes, trim, join}
use markdown_vdb.Base.Strings.Blank.{is_blank, trim-is_blank, is_blank-join}
use markdown_vdb.Parser.{Heading}
use markdown_vdb.Chunker.{Section}
use markdown_vdb.Chunker.Sections.{
  Position, Build, empty_build, lines, heading_positions, is_blank_section, slice, emit,
  heading_step, heading_loop, final_section, or_whole, or_empty_section, sections_of,
}

-- The lines that hold more than white space.
abbrev pub written : List Text → List Text
written = filter (λ l. not (is_blank l))

-- The lines of all sections, in order.
abbrev pub lines_in : List Section → List Text
lines_in [] = []
lines_in (s ∷ ss) = s.lines ++ lines_in ss

lines_in-append : (a b : List Section) → lines_in (a ++ b) ≡ lines_in a ++ lines_in b
lines_in-append [] b = refl
lines_in-append (s ∷ a) b =
    ap (λ t. s.lines ++ t) (lines_in-append a b)
    ∙ sym (append_assoc s.lines (lines_in a) (lines_in b))

written_none : (ls : List Text) → All (λ l. is_blank l ≡ true) ls → written ls ≡ []
written_none [] h = refl
written_none (l ∷ ls) h = rw h.0 (written_none ls h.1)

is_blank_section-written : (ls : List Text) → is_blank_section ls ≡ true → written ls ≡ []
unfolding is_blank_section
is_blank_section-written ls h =
    written_none ls (is_blank-join (codes "\n") ls (trim-is_blank (join (codes "\n") ls) h))

-- The headings come in the order of their lines, from `n` on.
abbrev pub Ascends : ℕ → List Heading → Type 0
Ascends n [] = Unit
Ascends n (h ∷ hs) = (n ≤ h.line_number) × Ascends h.line_number hs

abbrev PositionsAscend : ℕ → ℕ → List Position → Type 0
PositionsAscend total n [] = Unit
PositionsAscend total n (p ∷ ps) =
    (n ≤ p.line_idx) × (p.line_idx < total) × PositionsAscend total p.line_idx ps

PositionsAscend-weaken :
    (total n m : ℕ) (ps : List Position)
    → n ≤ m
    → PositionsAscend total m ps
    → PositionsAscend total n ps
PositionsAscend-weaken total n m [] h a = tt
PositionsAscend-weaken total n m (p ∷ ps) h a = (omega arith, a.1, a.2)

Ascends-positions :
    (total n : ℕ) (hs : List Heading)
    → Ascends n hs
    → PositionsAscend total (n - 1) (heading_positions total hs)
unfolding heading_positions
Ascends-positions total n [] a = tt
Ascends-positions total n (h ∷ hs) a =
    let rest = Ascends-positions total h.line_number hs a.1 in
    elim (Bool-cases (leb 1 h.line_number && leb h.line_number total)) [
      | inl e ↦ rw e (omega arith, ground arith, rest)
      | inr e ↦ rw e (PositionsAscend-weaken total (n - 1) (h.line_number - 1) _ (omega arith) rest)
    ]

module _ (body : List Text) where
  -- The sections so far hold all that is written in the first `n` lines.
  abbrev Holds : ℕ → List Section → Type 0
  Holds n sections = written (lines_in sections) ≡ written (take n body)

  emit-Holds :
      (from to : ℕ) (hierarchy : List Text) (sections : List Section)
      → from ≤ to
      → Holds from sections
      → Holds to (emit body from to hierarchy sections)
  unfolding emit
  emit-Holds from to hierarchy sections le h =
      let piece = slice body from to in
      let whole : written (take to body) ≡ written (take from body) ++ written piece =
        ap written (take_split from to body le)
        ∙ filter-append (λ l. not (is_blank l)) (take from body) piece in
      elim (Bool-cases (is_blank_section piece)) [
        | inl e ↦ rw e (
            h
            ∙ sym (append-nil (written (take from body)))
            ∙ ap (λ t. written (take from body) ++ t) (sym (is_blank_section-written piece e))
            ∙ sym whole)
        | inr e ↦ rw e (
            ap written
              (lines_in-append sections _ ∙ ap (λ t. lines_in sections ++ t) (append-nil piece))
            ∙ filter-append (λ l. not (is_blank l)) (lines_in sections) piece
            ∙ ap (λ t. t ++ written piece) h
            ∙ sym whole)
      ]

  heading_step-Holds :
      (p : Position) (b : Build)
      → b.prev_start ≤ p.line_idx
      → Holds b.prev_start b.sections
      → Holds p.line_idx (heading_step body p b).sections
  unfolding heading_step
  heading_step-Holds p b le h = elim (Bool-cases (ltb b.prev_start p.line_idx)) [
    | inl e ↦ rw e (emit-Holds b.prev_start p.line_idx b.prev_hierarchy b.sections le h)
    | inr e ↦
        let same : p.line_idx ≡ b.prev_start = omega (arith, ltb→le b.prev_start p.line_idx e) in
        rw e (rw if_same (h ∙ ap (λ n. written (take n body)) (sym same)))
  ]

  -- The loop has passed over the headings up to the line where the last section begins.
  heading_loop-Holds :
      (ps : List Position) (b : Build)
      → PositionsAscend (length body) b.prev_start ps
      → Holds b.prev_start b.sections
      → let out = heading_loop body ps b in
        Holds out.prev_start out.sections
        × ((out.prev_start ≡ b.prev_start) ⊎ (out.prev_start < length body))
  unfolding heading_loop
  heading_loop-Holds [] b a h = (h, inl refl)
  heading_loop-Holds (p ∷ ps) b a h =
      let (later, place) =
        heading_loop-Holds ps (heading_step body p b) (rw (starts p b) a.2)
          (rw (starts p b) (heading_step-Holds p b a.0 h)) in
      (later, inr (elim place [ inl e ↦ rw (e ∙ starts p b) a.1 | inr l ↦ l ]))
    where
      starts : (q : Position) (c : Build) → (heading_step body q c).prev_start ≡ q.line_idx
      starts q c = unfold heading_step in refl

  final_section-Holds :
      (b : Build)
      → b.prev_start ≤ length body
      → Holds b.prev_start b.sections
      → written (lines_in (final_section body b)) ≡ written body
  unfolding final_section
  final_section-Holds b le h = elim (Bool-cases (ltb b.prev_start (length body))) [
    | inl e ↦ rw e (
        emit-Holds b.prev_start (length body) b.prev_hierarchy b.sections le h
        ∙ ap written (take_all (length body) body (omega arith)))
    | inr e ↦
        rw e (h ∙ ap written (take_all b.prev_start body (ltb→le b.prev_start (length body) e)))
  ]

  or_whole-Holds :
      (text : Text) (sections : List Section)
      → written (lines_in sections) ≡ written body
      → written (lines_in (or_whole text body sections)) ≡ written body
  unfolding or_whole
  or_whole-Holds text sections h =
      elim (Bool-cases (is_empty sections && not (is_empty (trim text)))) [
        | inl e ↦ rw e (ap written (append-nil body))
        | inr e ↦ rw e h
      ]

or_empty_section-lines :
    (sections : List Section) → lines_in (or_empty_section sections) ≡ lines_in sections
unfolding or_empty_section
or_empty_section-lines [] = refl
or_empty_section-lines (s ∷ ss) = refl

-- For headings in the order of their lines, the sections of a document hold every line of the body
-- that has more than white space on it, each once and in order, and no other such line.
pub written-sections_of :
    (body : Text) (headings : List Heading)
    → Ascends 0 headings
    → written (lines_in (sections_of body headings)) ≡ written (lines body)
unfolding sections_of
written-sections_of body headings a =
    let ls = lines body in
    let ps = heading_positions (length ls) headings in
    let (held, place) =
      heading_loop-Holds ls ps empty_build (Ascends-positions (length ls) 0 headings a) refl in
    let b = heading_loop ls ps empty_build in
    let inside : b.prev_start ≤ length ls = elim place [
      | inl e ↦ rw e (omega arith)
      | inr l ↦ omega arith
    ] in
    ap written (or_empty_section-lines (or_whole body ls (final_section ls b)))
    ∙ or_whole-Holds ls body (final_section ls b) (final_section-Holds ls b inside held)
