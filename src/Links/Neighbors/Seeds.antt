-- ===== src/Links/Neighbors/Seeds.antt =====
-- The state that the search starts from: every seed visited, at depth 0.
use markdown_vdb.Base.{
  ℕ, List, [], ◌∷◌, ◌≡◌, refl, inl, inr, arith, Text, text_key, Bool-cases, ◌∈◌, mem-append_left,
  mem-append_right,
}
use markdown_vdb.Base.Map.{lookup, contains, contains_iff}
use markdown_vdb.Links.Neighbors.{Search, visit_seed, visit_seeds, empty_search}
use markdown_vdb.Links.Neighbors.Walks.{Inv, HasDepth, Ordered, one_of}
use markdown_vdb.Links.Neighbors.Rounds.{Closed}

module _ (seeds : List Text) where
  record Start (s : Search) : Type 0 where
    at_zero : (v : Text) (e : ℕ) → (v, e) ∈ s.queue → e ≡ 0
    from_seed : (v : Text) (e : ℕ) → (v, e) ∈ s.queue → v ∈ seeds
    is_queued : (v : Text) → v ∈ s.visited → (v, 0) ∈ s.queue
    is_visited : (v : Text) (e : ℕ) → (v, e) ∈ s.queue → v ∈ s.visited
    no_result : s.result ≡ []

  abbrev Seeded : Search → List Text → Search → Type 0
  Seeded s ps t =
      Start t × ((v : Text) → v ∈ s.visited → v ∈ t.visited) × ((p : Text) → p ∈ ps → p ∈ t.visited)

  visit_seed-Seeded :
      (p : Text) (s : Search) → Start s → p ∈ seeds → Seeded s (p ∷ []) (visit_seed p s)
  unfolding visit_seed
  visit_seed-Seeded p s i m = elim (Bool-cases (contains p s.visited)) [
    | inl old ↦ rw old (
      i,
      λ v h. h,
      λ q k. elim k [
        | inl e ↦ rw e ((contains_iff p s.visited).0 old)
        | inr none_left ↦ absurd none_left
      ],
    )
    | inr fresh ↦ rw fresh (
      record {
        at_zero = λ v e h. elim (one_of s.queue p v 0 e h) [
          | inl old ↦ i.at_zero v e old
          | inr new ↦ new.1
        ];
        from_seed = λ v e h. elim (one_of s.queue p v 0 e h) [
          | inl old ↦ i.from_seed v e old
          | inr new ↦ rw new.0 m
        ];
        is_queued = λ v h. elim h [
          | inl e ↦ mem-append_right (v, 0) s.queue ((p, 0) ∷ []) (rw e (inl refl))
          | inr old ↦ mem-append_left (v, 0) s.queue ((p, 0) ∷ []) (i.is_queued v old)
        ];
        is_visited = λ v e h. elim (one_of s.queue p v 0 e h) [
          | inl old ↦ inr (i.is_visited v e old)
          | inr new ↦ inl new.0
        ];
        no_result = i.no_result;
      },
      λ v h. inr h,
      λ q k. elim k [ inl e ↦ inl e | inr none_left ↦ absurd none_left ],
    )
  ]

  visit_seeds-Seeded :
      (ps : List Text) (s : Search)
      → Start s
      → ((p : Text) → p ∈ ps → p ∈ seeds)
      → Seeded s ps (visit_seeds ps s)
  unfolding visit_seeds
  visit_seeds-Seeded [] s i all = (i, λ v h. h, λ p h. absurd h)
  visit_seeds-Seeded (p ∷ ps) s i all =
      let (j, keeps, first) = visit_seed-Seeded p s i (all p (inl refl)) in
      let (k, keeps', rest) = visit_seeds-Seeded ps (visit_seed p s) j (λ q m. all q (inr m)) in
      (
        k,
        λ v h. keeps' v (keeps v h),
        λ q h. elim h [ inl e ↦ keeps' q (first q (inl e)) | inr h' ↦ rest q h' ],
      )

  Ordered-zeros : (q : List (Text × ℕ)) → ((v : Text) (e : ℕ) → (v, e) ∈ q → e ≡ 0) → Ordered q
  Ordered-zeros [] h = tt
  Ordered-zeros ((u, d) ∷ q) h =
      (λ v e m. omega (arith, h u d (inl refl)), Ordered-zeros q (λ v e m. h v e (inr m)))

  abbrev first : Search
  first = visit_seeds seeds empty_search

  started : Seeded empty_search seeds first
  started =
      visit_seeds-Seeded seeds empty_search
        (record {
          at_zero = λ v e h. absurd h;
          from_seed = λ v e h. absurd h;
          is_queued = λ v h. absurd h;
          is_visited = λ v e h. absurd h;
          no_result = refl;
        })
        (λ p h. h)

  only_queue : (v : Text) (d : ℕ) → HasDepth [] first v d → (v, d) ∈ first.queue
  only_queue v d (inl h) = absurd h
  only_queue v d (inr h) = h

  pub visit_seeds-Inv : (next : Text → List Text) → Inv next seeds 0 [] first
  unfolding lookup
  visit_seeds-Inv next =
      let i = started.0 in
      record {
        has_depth = λ v h. (0, inr (i.is_queued v h));
        is_visited = λ v d h. i.is_visited v d (only_queue v d h);
        result_of = λ v d h. rw (i.no_result, i.at_zero v d (only_queue v d h)) refl;
        result_depth = λ v d h. cc;
        walks = λ v d h. rw (i.at_zero v d (only_queue v d h)) (i.from_seed v d (only_queue v d h));
        low = λ v d h. omega arith;
        high = λ v d h. omega (arith, i.at_zero v d (only_queue v d h));
        ordered = Ordered-zeros first.queue i.at_zero;
      }

  pub visit_seeds-Closed : (next : Text → List Text) (m : ℕ) → Closed next seeds m [] first
  visit_seeds-Closed next m =
      let i = started.0 in
      record {
        seeded = λ v h. inr (i.is_queued v (started.2 v h));
        capped = λ v d h. omega (arith, i.at_zero v d (only_queue v d h));
        spread = λ u v d h. absurd h;
      }
