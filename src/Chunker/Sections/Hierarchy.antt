-- ===== src/Chunker/Sections/Hierarchy.antt =====
-- The heading stack of `chunk_document` holds the enclosing headings.
use mathlib.Core.List.{reverse, map, reverse-cons}
use markdown_vdb.Base.{
  ℕ, ◌≤◌, List, [], ◌∷◌, ◌++◌, ◌≡◌, refl, ap, ◌∙◌, arith, Text, ltb, if◌then◌else◌, append_assoc,
}
use markdown_vdb.Chunker.Sections.{
  Position, Build, pop_levels, hierarchy_of, heading_step, heading_loop,
}

-- The headings that enclose a place of a level, nearest first, among the earlier headings, latest
-- first: the latest one of a smaller level, then those that enclose that.
abbrev pub enclosing : ℕ → List Position → List (ℕ × Text)
enclosing level [] = []
enclosing level (h ∷ earlier) =
    if ltb h.level level
    then (h.level, h.text) ∷ enclosing h.level earlier
    else enclosing level earlier

-- The path of headings at the latest heading.
abbrev pub heading_path : List Position → List (ℕ × Text)
heading_path [] = []
heading_path (h ∷ earlier) = (h.level, h.text) ∷ enclosing h.level earlier

pop_levels-enclosing :
    (l m : ℕ) (earlier : List Position)
    → l ≤ m
    → pop_levels l (enclosing m earlier) ≡ enclosing l earlier
unfolding pop_levels
pop_levels-enclosing l m [] h = refl
pop_levels-enclosing l m (x ∷ earlier) h =
    ground (arith, pop_levels-enclosing l m earlier, pop_levels-enclosing l x.level earlier)

pop_levels-heading_path :
    (l : ℕ) (earlier : List Position) → pop_levels l (heading_path earlier) ≡ enclosing l earlier
unfolding pop_levels
pop_levels-heading_path l [] = refl
pop_levels-heading_path l (x ∷ earlier) = ground (arith, pop_levels-enclosing l x.level earlier)

-- The stack and the hierarchy that the loop has after some headings, the latest first.
abbrev pub Tracks : List Position → Build → Type 0
Tracks earlier b =
    (b.heading_stack ≡ heading_path earlier)
    × (b.prev_hierarchy ≡ reverse (map (λ h. h.1) (heading_path earlier)))

heading_step-Tracks :
    (body : List Text) (h : Position) (earlier : List Position) (b : Build)
    → Tracks earlier b
    → Tracks (h ∷ earlier) (heading_step body h b)
unfolding heading_step
heading_step-Tracks body h earlier b (stack, _) =
    let popped = ap (pop_levels h.level) stack ∙ pop_levels-heading_path h.level earlier in
    (ap (◌∷◌ (h.level, h.text)) popped, ap (λ s. hierarchy_of ((h.level, h.text) ∷ s)) popped)

-- After the loop has read headings, from a state that tracks the earlier ones, the hierarchy for
-- the next section is the path of headings that enclose it, the outermost first: the last heading
-- read, the nearest before it of a smaller level, and so on.
pub heading_loop-Tracks :
    (body : List Text) (hs earlier : List Position) (b : Build)
    → Tracks earlier b
    → Tracks (reverse hs ++ earlier) (heading_loop body hs b)
unfolding heading_loop
heading_loop-Tracks body [] earlier b t = t
heading_loop-Tracks body (h ∷ hs) earlier b t =
    rw (reverse-cons h hs, append_assoc)
      (heading_loop-Tracks body hs (h ∷ earlier) (heading_step body h b)
        (heading_step-Tracks body h earlier b t))
