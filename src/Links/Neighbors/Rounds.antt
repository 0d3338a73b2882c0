-- ===== src/Links/Neighbors/Rounds.antt =====
-- The rounds of the search: what holds when the queue is empty.
use markdown_vdb.Base.{
  ℕ, zero, suc, ◌≤◌, ◌<◌, List, [], ◌∷◌, ◌++◌, ◌≡◌, refl, inl, inr, arith, some, Text, text_key,
  Bool-cases, ◌∈◌, leb,
}
use markdown_vdb.Base.Map.{lookup}
use markdown_vdb.Links.{LinkMap}
use markdown_vdb.Links.Neighborhood.{targets_of, sources_of}
use markdown_vdb.Links.Neighbors.{Search}
use markdown_vdb.Links.Neighbors.Walks.{Walk, Inv, HasDepth, Reached}

-- The files that a file links to, and those that link to it.
abbrev pub near : LinkMap → LinkMap → Text → List Text
near forward backlinks u = targets_of forward u ++ sources_of backlinks u

-- A walk of `d` links leads from a seed to the file, and no shorter one does.
abbrev pub IsDistance : (Text → List Text) → List Text → ℕ → Text → Type 0
IsDistance next seeds d v = Walk next seeds d v × ((n : ℕ) → Walk next seeds n v → d ≤ n)

-- The result has the files at a distance from 1 to `m`, with their distance.
abbrev pub HasDistances : (Text → List Text) → List Text → ℕ → List (Text × ℕ) → Type 0
HasDistances next seeds m r =
    (v : Text) (d : ℕ)
    → (lookup v r ≡ some d → (1 ≤ d) × (d ≤ m) × IsDistance next seeds d v)
      × ((1 ≤ d) × (d ≤ m) × IsDistance next seeds d v → lookup v r ≡ some d)

module _ (next : Text → List Text) (seeds : List Text) (m : ℕ) where
  -- The files near a file that is done have a depth, at most one more than its own.
  pub record Closed (done : List (Text × ℕ)) (s : Search) : Type 0 where
    pub seeded : (v : Text) → v ∈ seeds → HasDepth done s v 0
    pub capped : (v : Text) (d : ℕ) → HasDepth done s v d → d ≤ m
    pub spread :
        (u v : Text) (d : ℕ) → (u, d) ∈ done → d < m → v ∈ next u → Reached next seeds d done s v

  module _ (b : ℕ) (done : List (Text × ℕ)) (s : Search) (i : Inv next seeds b done s)
      (c : Closed done s) (empty : s.queue ≡ []) where
    all_done : (v : Text) (d : ℕ) → HasDepth done s v d → (v, d) ∈ done
    all_done v d (inl h) = h
    all_done v d (inr h) = absurd (rw empty at h)

    end_reached :
        (n : ℕ) (v : Text) → Walk next seeds n v → n ≤ m → (e : ℕ) × HasDepth done s v e × (e ≤ n)
    end_reached zero v w le = (0, c.seeded v w, omega arith)
    end_reached (suc n) v (u, w, near_u) le =
        let (d, h, d_le) = end_reached n u w (omega arith) in
        let (e, k, e_le) = c.spread u v d (all_done u d h) (omega arith) near_u in
        (e, k, omega arith)

    least : (v : Text) (d n : ℕ) → lookup v s.result ≡ some d → Walk next seeds n v → d ≤ n
    least v d n h w = elim (Bool-cases (leb n m)) [
      | inl near_enough ↦
          let (e, k, le) = end_reached n v w (ground arith) in ground (arith, i.result_of v e k)
      | inr far ↦ let le = c.capped v d (i.result_depth v d h) in ground arith
    ]

    pub end-HasDistances : HasDistances next seeds m s.result
    end-HasDistances v d = (
      λ h. (
        ground (arith, i.result_of v d (i.result_depth v d h)),
        c.capped v d (i.result_depth v d h),
        (i.walks v d (i.result_depth v d h), λ n w. least v d n h w),
      ),
      λ (pos, le, (w, min_d)).
          let (e, k, e_le) = end_reached d v w le in
          let d_le = min_d e (i.walks v e k) in ground (arith, i.result_of v e k),
    )

  module _ (b : ℕ) (done : List (Text × ℕ)) (s : Search) (u : Text) (d : ℕ) (q : List (Text × ℕ))
      (i : Inv next seeds b done (record s { queue = (u, d) ∷ q })) where
    pub to_done :
        (v : Text) (e : ℕ)
        → HasDepth done (record s { queue = (u, d) ∷ q }) v e
        → HasDepth ((u, d) ∷ done) (record s { queue = q }) v e
    to_done v e (inl h) = inl (inr h)
    to_done v e (inr (inl h)) = inl (inl h)
    to_done v e (inr (inr h)) = inr h

    pub from_done :
        (v : Text) (e : ℕ)
        → HasDepth ((u, d) ∷ done) (record s { queue = q }) v e
        → HasDepth done (record s { queue = (u, d) ∷ q }) v e
    from_done v e (inl (inl h)) = inr (inl h)
    from_done v e (inl (inr h)) = inl h
    from_done v e (inr h) = inr (inr h)

    pub pop-Inv : Inv next seeds d ((u, d) ∷ done) (record s { queue = q })
    pop-Inv =
        let b_le = i.low u d (inl refl) in
        record {
          has_depth = λ v h. let (e, k) = i.has_depth v h in (e, to_done v e k);
          is_visited = λ v e h. i.is_visited v e (from_done v e h);
          result_of = λ v e h. i.result_of v e (from_done v e h);
          result_depth = λ v e h. to_done v e (i.result_depth v e h);
          walks = λ v e h. i.walks v e (from_done v e h);
          low = λ v e h. i.ordered.0 v e h;
          high = λ v e h. omega (arith, i.high v e (from_done v e h));
          ordered = i.ordered.1;
        }
