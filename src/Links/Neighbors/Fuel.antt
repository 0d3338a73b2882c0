-- ===== src/Links/Neighbors/Fuel.antt =====
-- The measure of the search: the queue, and the ends of links that are not visited.
use markdown_vdb.Base.{
  ℕ, suc, ◌+◌, ◌≤◌, ◌<◌, false, List, [], ◌∷◌, ◌++◌, map, ◌≡◌, refl, inl, inr, arith, if◌then◌else◌,
  Text, text_key, text_eq, text_eq_iff, Bool-cases, ◌∈◌, mem-append_left, mem-append_right, length,
  length-append,
}
use markdown_vdb.Base.Map.{lookup, contains}
use markdown_vdb.Links.{LinkEntry, LinkMap}
use markdown_vdb.Links.Query.{or_default}
use markdown_vdb.Links.Neighbors.{Search, visit, visit_all, visit_seed, visit_seeds, link_count}

pub unseen : List Text → List Text → ℕ
unfolding contains
unseen visited [] = 0
unseen visited (x ∷ xs) = if contains x visited then unseen visited xs else suc (unseen visited xs)

unseen-cons_le : (p : Text) (visited xs : List Text) → unseen (p ∷ visited) xs ≤ unseen visited xs
unfolding unseen contains
unseen-cons_le p visited [] = omega arith
unseen-cons_le p visited (x ∷ xs) = ground (arith, unseen-cons_le p visited xs)

unseen-cons_lt :
    (p : Text) (visited xs : List Text)
    → contains p visited ≡ false
    → p ∈ xs
    → unseen (p ∷ visited) xs < unseen visited xs
unfolding unseen contains
unseen-cons_lt p visited [] h m = absurd m
unseen-cons_lt p visited (x ∷ xs) h (inl e) =
    ground (arith, unseen-cons_le p visited xs, text_eq_iff p x)
unseen-cons_lt p visited (x ∷ xs) h (inr m) = ground (arith, unseen-cons_lt p visited xs h m)

abbrev pub room : List Text → Search → ℕ
room ends s = length s.queue + unseen s.visited ends

room-visit :
    (ends : List Text) (d : ℕ) (p : Text) (s : Search)
    → p ∈ ends
    → room ends (visit d p s) ≤ room ends s
unfolding visit
room-visit ends d p s m = elim (Bool-cases (contains p s.visited)) [
  | inl old ↦ rw old (omega arith)
  | inr fresh ↦
      rw fresh (
        omega (arith, unseen-cons_lt p s.visited ends fresh m, length-append s.queue ((p, d) ∷ [])))
]

pub room-visit_all :
    (ends : List Text) (d : ℕ) (ps : List Text) (s : Search)
    → ((p : Text) → p ∈ ps → p ∈ ends)
    → room ends (visit_all d ps s) ≤ room ends s
unfolding visit_all
room-visit_all ends d [] s h = omega arith
room-visit_all ends d (p ∷ ps) s h = omega (
  arith,
  room-visit ends d p s (h p (inl refl)),
  room-visit_all ends d ps (visit d p s) (λ q m. h q (inr m)),
)

module _ (pick : LinkEntry → Text) where
  -- The ends of all links.
  pub ends_of : LinkMap → List Text
  ends_of [] = []
  ends_of ((k, es) ∷ m) = map pick es ++ ends_of m

  pub mem-ends_of :
      (file p : Text) (m : LinkMap) → p ∈ map pick (or_default (lookup file m)) → p ∈ ends_of m
  unfolding ends_of lookup
  mem-ends_of file p [] h = absurd h
  mem-ends_of file p ((k, es) ∷ m) h = elim (Bool-cases (text_eq k file)) [
    | inl same ↦ mem-append_left p (map pick es) (ends_of m) (rw same at h)
    | inr other ↦
        mem-append_right p (map pick es) (ends_of m) (mem-ends_of file p m (rw other at h))
  ]

  length-map : (es : List LinkEntry) → length (map pick es) ≡ length es
  length-map [] = refl
  length-map (e ∷ es) = omega (arith, length-map es)

  pub length-ends_of : (m : LinkMap) → length (ends_of m) ≡ link_count m
  unfolding ends_of
  length-ends_of [] = refl
  length-ends_of ((k, es) ∷ m) =
      omega (arith, length-append (map pick es) (ends_of m), length-map es, length-ends_of m)

pub unseen-le : (visited xs : List Text) → unseen visited xs ≤ length xs
unfolding unseen
unseen-le visited [] = omega arith
unseen-le visited (x ∷ xs) = ground (arith, unseen-le visited xs)

visit_seed_queue : (p : Text) (s : Search) → length (visit_seed p s).queue ≤ length s.queue + 1
unfolding visit_seed
visit_seed_queue p s = elim (Bool-cases (contains p s.visited)) [
  | inl old ↦ rw old (omega arith)
  | inr fresh ↦ rw fresh (omega (arith, length-append s.queue ((p, 0) ∷ [])))
]

pub visit_seeds_queue :
    (ps : List Text) (s : Search) → length (visit_seeds ps s).queue ≤ length s.queue + length ps
unfolding visit_seeds
visit_seeds_queue [] s = omega arith
visit_seeds_queue (p ∷ ps) s =
    omega (arith, visit_seed_queue p s, visit_seeds_queue ps (visit_seed p s))
