-- ===== src/Links/Neighbors/Distance.antt =====
-- The breadth-first search finds the distances.
use markdown_vdb.Base.{
  ℕ, zero, suc, ◌+◌, ◌≤◌, ◌<◌, min, true, ◌||◌, ◌==◌, List, [], ◌∷◌, ◌++◌, ◌≡◌, refl, ap, inl, inr,
  arith, Option, some, none, Text, text_key, Bool-cases, Option-cases, ◌∈◌, mem-append,
  mem-append_left, mem-append_right, leb, length, length-append, is_empty,
}
use markdown_vdb.Base.Map.{lookup}
use markdown_vdb.Links.{LinkMap}
use markdown_vdb.Links.Neighborhood.{targets_of, sources_of}
use markdown_vdb.Links.Neighbors.{
  Search, visit_all, bfs_loop, visit_seeds, empty_search, bfs_neighbors, link_count,
}
use markdown_vdb.Links.Neighbors.Walks.{Walk, Inv, HasDepth, visit_all-Visited}
use markdown_vdb.Links.Neighbors.Fuel.{
  room, room-visit_all, ends_of, mem-ends_of, length-ends_of, unseen-le, visit_seeds_queue,
}
use markdown_vdb.Links.Neighbors.Seeds.{visit_seeds-Inv, visit_seeds-Closed}
use markdown_vdb.Links.Neighbors.Rounds.{
  near, HasDistances, Closed, end-HasDistances, to_done, from_done, pop-Inv,
}

-- The ends of all links: the files that a visit can add.
abbrev ends : LinkMap → LinkMap → List Text
ends forward backlinks = ends_of (λ e. e.target) forward ++ ends_of (λ e. e.source) backlinks

module _ (forward backlinks : LinkMap) (seeds : List Text) (m : ℕ) where
  abbrev next : Text → List Text
  next = near forward backlinks

  abbrev both : Text → ℕ → Search → Search
  both u d s =
      visit_all (d + 1) (sources_of backlinks u) (visit_all (d + 1) (targets_of forward u) s)

  room-both :
      (u : Text) (d : ℕ) (s : Search)
      → room (ends forward backlinks) (both u d s) ≤ room (ends forward backlinks) s
  room-both u d s =
      let all = ends forward backlinks in
      let t = visit_all (d + 1) (targets_of forward u) s in
      let first = room-visit_all all (d + 1) (targets_of forward u) s (λ p h.
        mem-append_left p (ends_of (λ e. e.target) forward) (ends_of (λ e. e.source) backlinks)
          (mem-ends_of (λ e. e.target) u p forward h)) in
      let second = room-visit_all all (d + 1) (sources_of backlinks u) t (λ p h.
        mem-append_right p (ends_of (λ e. e.target) forward) (ends_of (λ e. e.source) backlinks)
          (mem-ends_of (λ e. e.source) u p backlinks h)) in
      omega arith

  module _ (b : ℕ) (done : List (Text × ℕ)) (s : Search) (u : Text) (d : ℕ) (q : List (Text × ℕ))
      (i : Inv next seeds b done (record s { queue = (u, d) ∷ q }))
      (c : Closed next seeds m done (record s { queue = (u, d) ∷ q })) where
    abbrev popped : Search
    popped = record s { queue = q }

    abbrev done' : List (Text × ℕ)
    done' = (u, d) ∷ done

    skip-Closed : m ≤ d → Closed next seeds m done' popped
    skip-Closed le = record {
      seeded = λ v h. to_done next seeds m b done s u d q i v 0 (c.seeded v h);
      capped = λ v e h. c.capped v e (from_done next seeds m b done s u d q i v e h);
      spread = λ w v e k lt n. elim k [
        | inl eq ↦ let same : e ≡ d = ap (λ x. x.1) eq in absurd (omega arith)
        | inr old ↦
            let (f, h, f_le) = c.spread w v e old lt n in
            (f, to_done next seeds m b done s u d q i v f h, f_le)
      ];
    }

    abbrev reached : Search
    reached = both u d popped

    spread_both : d < m → Inv next seeds d done' reached × Closed next seeds m done' reached
    spread_both lt =
        let j = pop-Inv next seeds m b done s u d q i in
        let walk = i.walks u d (inr (inl refl)) in
        let t = visit_all (d + 1) (targets_of forward u) popped in
        let (j1, keeps1, out) =
          visit_all-Visited next seeds d done' popped u (targets_of forward u) j walk
            (λ p h. mem-append_left p (targets_of forward u) (sources_of backlinks u) h) in
        let (j2, keeps2, back) =
          visit_all-Visited next seeds d done' t u (sources_of backlinks u) j1 walk
            (λ p h. mem-append_right p (targets_of forward u) (sources_of backlinks u) h) in
        let kept : (v : Text) (e : ℕ)
            → HasDepth done (record s { queue = (u, d) ∷ q }) v e
            → HasDepth done' reached v e =
          λ v e h. keeps2 v e (keeps1 v e (to_done next seeds m b done s u d q i v e h)) in
        (
          j2,
          record {
            seeded = λ v h. kept v 0 (c.seeded v h);
            capped = λ v e h. omega (arith, j2.high v e h);
            spread = λ w v e k below n. elim k [
              | inl eq ↦
                  let same : e ≡ d = ap (λ x. x.1) eq in
                  let near_u : v ∈ next u = rw (← ap (λ x. x.0) eq) n in
                  rw same
                    (elim (mem-append v (targets_of forward u) (sources_of backlinks u) near_u) [
                      | inl l ↦ let (f, h, le) = out v l in (f, keeps2 v f h, le)
                      | inr r ↦ back v r
                    ])
              | inr old ↦ let (f, h, le) = c.spread w v e old below n in (f, kept v f h, le)
            ];
          },
        )

  abbrev Found : Option (List (Text × ℕ)) → Type 0
  Found out = (r : List (Text × ℕ)) × (out ≡ some r) × HasDistances next seeds m r

  loop-Found :
      (fuel b : ℕ) (done : List (Text × ℕ)) (s : Search) (q : List (Text × ℕ))
      → Inv next seeds b done (record s { queue = q })
      → Closed next seeds m done (record s { queue = q })
      → room (ends forward backlinks) (record s { queue = q }) ≤ fuel
      → Found (bfs_loop forward backlinks m fuel s q)
  unfolding bfs_loop
  loop-Found fuel b done s [] i c h =
      (s.result, refl, end-HasDistances next seeds m b done (record s { queue = [] }) i c refl)
  loop-Found zero b done s ((u, d) ∷ q) i c h = absurd (omega arith)
  loop-Found (suc fuel) b done s ((u, d) ∷ q) i c h = elim (Bool-cases (leb m d)) [
    | inl deep ↦ rw deep (
        loop-Found fuel d ((u, d) ∷ done) (record s { queue = q }) q
          (pop-Inv next seeds m b done s u d q i) (skip-Closed b done s u d q i c (ground arith))
          (omega arith))
    | inr more ↦
        let t = both u d (record s { queue = q }) in
        let (j, k) = spread_both b done s u d q i c (ground arith) in
        rw more (
          loop-Found fuel d ((u, d) ∷ done) t t.queue j k
            (omega (arith, room-both u d (record s { queue = q }))))
  ]

start_room :
    (forward backlinks : LinkMap) (seeds : List Text)
    → room (ends forward backlinks) (visit_seeds seeds empty_search)
      ≤ length seeds + (link_count forward + link_count backlinks)
start_room forward backlinks seeds =
    let out = ends_of (λ e. e.target) forward in
    let back = ends_of (λ e. e.source) backlinks in
    omega (
      arith,
      visit_seeds_queue seeds empty_search,
      unseen-le (visit_seeds seeds empty_search).visited (out ++ back),
      length-append out back,
      length-ends_of (λ e. e.target) forward,
      length-ends_of (λ e. e.source) backlinks,
    )

no_seed_no_step : (next : Text → List Text) (n : ℕ) (v : Text) → Walk next [] n v → ⊥
no_seed_no_step next zero v w = w
no_seed_no_step next (suc n) v (u, w, m) = no_seed_no_step next n u w

nothing_found :
    (next : Text → List Text) (seeds : List Text) (m : ℕ)
    → (m == 0 || is_empty seeds) ≡ true
    → HasDistances next seeds m []
unfolding lookup
nothing_found next [] m h v d = (λ k. cc, λ (a, b, (w, l)). absurd (no_seed_no_step next d v w))
nothing_found next (x ∷ xs) m h v d = (λ k. cc, λ (a, b, c). absurd (ground arith))

seed_absent :
    (next : Text → List Text) (seeds : List Text) (m : ℕ) (r : List (Text × ℕ))
    → HasDistances next seeds m r
    → (v : Text) → v ∈ seeds
    → lookup v r ≡ none
seed_absent next seeds m r h v s = elim (Option-cases (lookup v r)) [
  | inl absent ↦ absent
  | inr (d, found) ↦
      let (pos, le, (w, least)) = (h v d).0 found in let zero_le = least 0 s in absurd (omega arith)
]

bfs_neighbors-Found :
    (forward backlinks : LinkMap) (seeds : List Text) (max_depth : ℕ)
    → Found forward backlinks seeds
        (min max_depth 3)
        (bfs_neighbors forward backlinks seeds max_depth)
unfolding bfs_neighbors
bfs_neighbors-Found forward backlinks seeds max_depth =
    let m = min max_depth 3 in
    let start = visit_seeds seeds empty_search in
    elim (Bool-cases (m == 0 || is_empty seeds)) [
      | inl nothing ↦ rw nothing ([], refl, nothing_found (near forward backlinks) seeds m nothing)
      | inr go ↦ rw go (
          loop-Found forward backlinks seeds m
            (length seeds + (link_count forward + link_count backlinks)) 0 [] start start.queue
            (visit_seeds-Inv seeds (near forward backlinks))
            (visit_seeds-Closed seeds (near forward backlinks) m)
            (start_room forward backlinks seeds))
    ]

-- The search returns, and its result has exactly the files whose least number of links from a
-- seed, followed in both directions, is from 1 to the depth, held to 3, each with that number;
-- seeds are not in it.
pub bfs_neighbors-HasDistances :
    (forward backlinks : LinkMap) (seeds : List Text) (max_depth : ℕ)
    → (found : List (Text × ℕ)) × (bfs_neighbors forward backlinks seeds max_depth ≡ some found)
      × HasDistances (near forward backlinks) seeds (min max_depth 3) found
      × ((v : Text) → v ∈ seeds → lookup v found ≡ none)
bfs_neighbors-HasDistances forward backlinks seeds max_depth =
    let (found, returns, distances) = bfs_neighbors-Found forward backlinks seeds max_depth in
    (
      found,
      returns,
      distances,
      seed_absent (near forward backlinks) seeds (min max_depth 3) found distances,
    )
