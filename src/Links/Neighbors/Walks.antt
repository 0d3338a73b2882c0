-- ===== src/Links/Neighbors/Walks.antt =====
-- Walks over links, and the invariant of the search.
use markdown_vdb.Base.{
  ℕ, zero, suc, ◌+◌, ◌≤◌, false, List, [], ◌∷◌, ◌++◌, ◌≡◌, refl, inl, inr, ◌⊎◌, arith,
  if◌then◌else◌, some, none, Text, text_key, text_eq, text_eq_iff, Bool-cases, ◌∈◌, mem-append,
  mem-append_left, mem-append_right, ltb,
}
use markdown_vdb.Base.Map.{lookup, insert, contains, contains_iff, lookup-insert}
use markdown_vdb.Links.Neighbors.{Search, visit, visit_all}

-- The depths of a queue ascend.
abbrev pub Ordered : List (Text × ℕ) → Type 0
Ordered [] = Unit
Ordered (p ∷ q) = ((v : Text) (e : ℕ) → (v, e) ∈ q → p.1 ≤ e) × Ordered q

pub one_of :
    (q : List (Text × ℕ)) (p v : Text) (d e : ℕ)
    → (v, e) ∈ q ++ (p, d) ∷ []
    → ((v, e) ∈ q) ⊎ ((v ≡ p) × (e ≡ d))
one_of q p v d e m = elim (mem-append (v, e) q ((p, d) ∷ []) m) [
  | inl old ↦ inl old
  | inr new ↦ inr (elim new [ inl eq ↦ (cc, cc) | inr none_left ↦ absurd none_left ])
]

Ordered-concat :
    (q : List (Text × ℕ)) (v : Text) (d : ℕ)
    → Ordered q
    → ((w : Text) (e : ℕ) → (w, e) ∈ q → e ≤ d)
    → Ordered (q ++ (v, d) ∷ [])
Ordered-concat [] v d o h = (λ w e m. absurd m, tt)
Ordered-concat ((u, c) ∷ q) v d o h = (
  λ w e m. elim (one_of q v w d e m) [
    | inl old ↦ o.0 w e old
    | inr new ↦ let le = h u c (inl refl) in omega (arith, new.1)
  ],
  Ordered-concat q v d o.1 (λ w e m. h w e (inr m)),
)

-- A file has a depth if it was taken off the queue with it, or is on the queue with it.
abbrev pub HasDepth : List (Text × ℕ) → Search → Text → ℕ → Type 0
HasDepth done s v d = ((v, d) ∈ done) ⊎ ((v, d) ∈ s.queue)

-- A visit loses no depth.
abbrev pub Keeps : List (Text × ℕ) → Search → Search → Type 0
Keeps done s t = (v : Text) (d : ℕ) → HasDepth done s v d → HasDepth done t v d

module _ (near : Text → List Text) (seeds : List Text) where
  -- A walk of `n` links from a seed.
  abbrev pub Walk : ℕ → Text → Type 0
  Walk zero v = v ∈ seeds
  Walk (suc n) v = (u : Text) × Walk n u × (v ∈ near u)

  -- The files with a depth are those visited; the result has the depths that are not zero; each
  -- depth is the length of a walk; the depths on the queue ascend from `b`, and none is above
  -- `b + 1`.
  pub record Inv (b : ℕ) (done : List (Text × ℕ)) (s : Search) : Type 0 where
    pub has_depth : (v : Text) → v ∈ s.visited → (d : ℕ) × HasDepth done s v d
    pub is_visited : (v : Text) (d : ℕ) → HasDepth done s v d → v ∈ s.visited
    pub result_of :
        (v : Text) (d : ℕ)
        → HasDepth done s v d
        → lookup v s.result ≡ (if ltb 0 d then some d else none)
    pub result_depth : (v : Text) (d : ℕ) → lookup v s.result ≡ some d → HasDepth done s v d
    pub walks : (v : Text) (d : ℕ) → HasDepth done s v d → Walk d v
    pub low : (v : Text) (d : ℕ) → (v, d) ∈ s.queue → b ≤ d
    pub high : (v : Text) (d : ℕ) → HasDepth done s v d → d ≤ b + 1
    pub ordered : Ordered s.queue

  abbrev pub Reached : ℕ → List (Text × ℕ) → Search → Text → Type 0
  Reached b done s p = (e : ℕ) × HasDepth done s p e × (e ≤ b + 1)

  module _ (b : ℕ) (done : List (Text × ℕ)) (s : Search) (i : Inv b done s) (p : Text)
      (fresh : contains p s.visited ≡ false) where
    pushed : Search
    pushed = record {
      visited = p ∷ s.visited;
      result = insert p (b + 1) s.result;
      queue = s.queue ++ (p, b + 1) ∷ [];
    }

    pushed_mem :
        (v : Text) (e : ℕ)
        → HasDepth done pushed v e
        → HasDepth done s v e ⊎ ((v ≡ p) × (e ≡ b + 1))
    unfolding pushed
    pushed_mem v e (inl m) = inl (inl m)
    pushed_mem v e (inr m) = elim (one_of s.queue p v (b + 1) e m) [
      | inl old ↦ inl (inr old)
      | inr new ↦ inr new
    ]

    pushed-Keeps : Keeps done s pushed
    unfolding pushed
    pushed-Keeps v d (inl m) = inl m
    pushed-Keeps v d (inr m) = inr (mem-append_left (v, d) s.queue ((p, b + 1) ∷ []) m)

    pushed_has : HasDepth done pushed p (b + 1)
    unfolding pushed
    pushed_has = inr (mem-append_right (p, b + 1) s.queue ((p, b + 1) ∷ []) (inl refl))

    not_p : (v : Text) (d : ℕ) → HasDepth done s v d → text_eq p v ≡ false
    not_p v d h = ground (arith, text_eq_iff p v, contains_iff v s.visited, i.is_visited v d h)

    step_result :
        (v : Text) (d : ℕ)
        → HasDepth done pushed v d
        → lookup v pushed.result ≡ (if ltb 0 d then some d else none)
    unfolding pushed
    step_result v d h = elim (pushed_mem v d h) [
      | inl old ↦ rw (lookup-insert p v (b + 1) s.result, not_p v d old) (i.result_of v d old)
      | inr (e, f) ↦ ground (arith, lookup-insert p v (b + 1) s.result, text_eq_iff p v)
    ]

    step_result_depth :
        (v : Text) (d : ℕ) → lookup v pushed.result ≡ some d → HasDepth done pushed v d
    unfolding pushed
    step_result_depth v d h = elim (Bool-cases (text_eq p v)) [
      | inl same ↦
          let e : b + 1 ≡ d = ground (arith, lookup-insert p v (b + 1) s.result) in
          rw (← e, ← (text_eq_iff p v).0 same) pushed_has
      | inr other ↦
          let old : lookup v s.result ≡ some d =
            ground (arith, lookup-insert p v (b + 1) s.result) in
          pushed-Keeps v d (i.result_depth v d old)
    ]

    pushed-Inv : (u : Text) → Walk b u → p ∈ near u → Inv b done pushed
    unfolding pushed
    pushed-Inv u w m = record {
      has_depth = λ v h. elim h [
        | inl e ↦ (b + 1, rw e pushed_has)
        | inr old ↦ let (d, k) = i.has_depth v old in (d, pushed-Keeps v d k)
      ];
      is_visited = λ v d h. elim (pushed_mem v d h) [
        | inl old ↦ inr (i.is_visited v d old)
        | inr new ↦ inl new.0
      ];
      result_of = step_result;
      result_depth = step_result_depth;
      walks = λ v d h. elim (pushed_mem v d h) [
        | inl old ↦ i.walks v d old
        | inr (e, f) ↦ rw (e, f) (rw suc_form (u, w, m))
      ];
      low = λ v d h. elim (one_of s.queue p v (b + 1) d h) [
        | inl old ↦ i.low v d old
        | inr new ↦ omega (arith, new.1)
      ];
      high = λ v d h. elim (pushed_mem v d h) [
        | inl old ↦ i.high v d old
        | inr new ↦ omega (arith, new.1)
      ];
      ordered = Ordered-concat s.queue p (b + 1) i.ordered (λ w e k. i.high w e (inr k));
    }
      where
        suc_form : b + 1 ≡ suc b
        suc_form = omega arith

  -- What a visit leads to: the invariant, the depths from before, and depths for the files visited.
  abbrev pub Visited : ℕ → List (Text × ℕ) → Search → List Text → Search → Type 0
  Visited b done s ps t = Inv b done t × Keeps done s t × ((p : Text) → p ∈ ps → Reached b done t p)

  visit-Visited :
      (b : ℕ) (done : List (Text × ℕ)) (s : Search) (u p : Text)
      → Inv b done s
      → Walk b u
      → p ∈ near u
      → Visited b done s (p ∷ []) (visit (b + 1) p s)
  unfolding visit pushed
  visit-Visited b done s u p i w m = elim (Bool-cases (contains p s.visited)) [
    | inl old ↦
        let (d, h) = i.has_depth p ((contains_iff p s.visited).0 old) in
        rw old (
          i,
          λ v e k. k,
          λ q k. elim k [ inl e ↦ (d, rw e h, i.high p d h) | inr none_left ↦ absurd none_left ],
        )
    | inr fresh ↦ rw fresh (
      pushed-Inv b done s i p fresh u w m,
      pushed-Keeps b done s i p fresh,
      λ q k. elim k [
        | inl e ↦ (b + 1, rw e (pushed_has b done s i p fresh), omega arith)
        | inr none_left ↦ absurd none_left
      ],
    )
  ]

  pub visit_all-Visited :
      (b : ℕ) (done : List (Text × ℕ)) (s : Search) (u : Text) (ps : List Text)
      → Inv b done s
      → Walk b u
      → ((p : Text) → p ∈ ps → p ∈ near u)
      → Visited b done s ps (visit_all (b + 1) ps s)
  unfolding visit_all
  visit_all-Visited b done s u [] i w all = (i, λ v d h. h, λ p h. absurd h)
  visit_all-Visited b done s u (p ∷ ps) i w all =
      let (j, keeps, first) = visit-Visited b done s u p i w (all p (inl refl)) in
      let (k, keeps', rest) =
        visit_all-Visited b done (visit (b + 1) p s) u ps j w (λ q m. all q (inr m)) in
      (
        k,
        λ v d h. keeps' v d (keeps v d h),
        λ q m. elim m [
          | inl e ↦ let (c, h, le) = first q (inl e) in (c, keeps' q c h, le)
          | inr m' ↦ rest q m'
        ],
      )
