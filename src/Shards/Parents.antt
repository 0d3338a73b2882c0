-- ===== src/Shards/Parents.antt =====
-- The parent of a Shard, in `make_info` of src/shards.rs.
use markdown_vdb.Base.{
  ◌++◌, ◌≢◌, ◌↔◌, sym, ap, ◌∙◌, length, text_eq_iff, ℕ, ◌≤◌, Bool, true, List, [], ◌∷◌, filter,
  none, some, Text, text_key, leb, ◌≡◌, refl, inl, inr, ◌⊎◌, ◌∈◌, arith, All, Bool-cases, leb→le,
  leb→lt,
}
use markdown_vdb.PathUtil.Scope.{segments}
use markdown_vdb.Shards.Folders.{Begins, relative-Begins, Begins-relative}
use markdown_vdb.Shards.Paths.{IsFolder}
use markdown_vdb.Shards.{ShardDefinition, component_count, max_by_key, encloses, parent_of}

-- No element has a greater key.
abbrev IsMax : (ShardDefinition → ℕ) → List ShardDefinition → ShardDefinition → Type 0
IsMax key ds best = (best ∈ ds) × All (λ d. key d ≤ key best) ds

All-le :
    (key : ShardDefinition → ℕ) (a b : ℕ) (ds : List ShardDefinition)
    → a ≤ b
    → All (λ d. key d ≤ a) ds
    → All (λ d. key d ≤ b) ds
All-le key a b [] le h = tt
All-le key a b (d ∷ ds) le h = (omega (arith, h.0), All-le key a b ds le h.1)

max_by_key-IsMax :
    (key : ShardDefinition → ℕ) (ds : List ShardDefinition)
    → ((ds ≡ []) × (max_by_key key ds ≡ none))
      ⊎ ((best : ShardDefinition) × (max_by_key key ds ≡ some best) × IsMax key ds best)
unfolding max_by_key
max_by_key-IsMax key [] = inl (refl, refl)
max_by_key-IsMax key (d ∷ ds) = elim (max_by_key-IsMax key ds) [
  | inl (empty, nothing) ↦
      rw (nothing, empty, max_by_key) (inr (d, refl, (inl refl, (omega arith, tt))))
  | inr (best, found, (mem, greatest)) ↦ elim (Bool-cases (leb (key d) (key best))) [
    | inl le ↦
        rw (found, le, max_by_key)
          (inr (best, refl, (inr mem, (leb→le (key d) (key best) le, greatest))))
    | inr gt ↦
        let lt = leb→lt (key d) (key best) gt in
        rw (found, gt, max_by_key)
          (inr (
            d,
            refl,
            (inl refl, (omega arith, All-le key (key best) (key d) ds (omega arith) greatest)),
          ))
  ]
]

mem-filter :
    (p : ShardDefinition → Bool) (x : ShardDefinition) (ds : List ShardDefinition)
    → x ∈ filter p ds
    → (x ∈ ds) × (p x ≡ true)
mem-filter p x [] m = absurd m
mem-filter p x (d ∷ ds) m = elim (Bool-cases (p d)) [
  | inr dropped ↦ let (n, q) = mem-filter p x ds (rw dropped at m) in (inr n, q)
  | inl kept ↦ elim (rw kept at m) [
    | inl same ↦ (inl same, rw same kept)
    | inr rest ↦ let (n, q) = mem-filter p x ds rest in (inr n, q)
  ]
]

mem-filter_back :
    (p : ShardDefinition → Bool) (x : ShardDefinition) (ds : List ShardDefinition)
    → x ∈ ds
    → p x ≡ true
    → x ∈ filter p ds
mem-filter_back p x [] m h = absurd m
mem-filter_back p x (d ∷ ds) m h = elim m [
  | inl same ↦ let kept : p d ≡ true = rw (← same) h in rw kept (inl same)
  | inr rest ↦ elim (Bool-cases (p d)) [
    | inl kept ↦ rw kept (inr (mem-filter_back p x ds rest h))
    | inr dropped ↦ rw dropped (mem-filter_back p x ds rest h)
  ]
]

All-mem :
    (key : ShardDefinition → ℕ) (n : ℕ) (x : ShardDefinition) (ds : List ShardDefinition)
    → All (λ d. key d ≤ n) ds
    → x ∈ ds
    → key x ≤ n
All-mem key n x [] h m = absurd m
All-mem key n x (d ∷ ds) h m = elim m [
  | inl same ↦ let e : key x ≡ key d = ap key same in omega (arith, h.0)
  | inr rest ↦ All-mem key n x ds h.1 rest
]

-- Of two prefixes of a list, the longer one begins with the shorter one.
shorter_prefix :
    (as' bs r s : List Text)
    → as' ++ r ≡ bs ++ s
    → length as' ≤ length bs
    → (t : List Text) × (bs ≡ as' ++ t)
shorter_prefix [] bs r s e le = (bs, refl)
shorter_prefix (a ∷ as') [] r s e le = absurd (omega arith)
shorter_prefix (a ∷ as') (b ∷ bs) r s e le =
    let head : b ≡ a = cc e in
    let tail : as' ++ r ≡ bs ++ s = cc e in
    let (t, q) = shorter_prefix as' bs r s tail (omega arith) in (t, rw (head, q) refl)

-- A Shard around another one: a different one, the segments of whose folder are the first ones of
-- the other's folder.
abbrev pub IsAround : ShardDefinition → ShardDefinition → Type 0
IsAround c d = (c.id ≢ d.id) × Begins c.path d.path

encloses_iff :
    (d c : ShardDefinition)
    → IsFolder d.path
    → IsFolder c.path
    → (encloses d c ≡ true) ↔ IsAround c d
encloses_iff d c f g = (
  λ h. (
    λ e. absurd (ground (arith, text_eq_iff c.id d.id)),
    relative-Begins d.path c.path f g (ground arith),
  ),
  λ h. ground (arith, text_eq_iff c.id d.id, h.0, Begins-relative d.path c.path f g h.1),
)

-- The Shard is of the set and around the other one, and every Shard of the set that is around that
-- one is around it, or has its folder.
abbrev pub IsNearest : ShardDefinition → List ShardDefinition → ShardDefinition → Type 0
IsNearest d ds p =
    (p ∈ ds) × IsAround p d × ((c : ShardDefinition) → c ∈ ds → IsAround c d → Begins c.path p.path)

-- In a set of Shards with normalized folders, a Shard has a parent unless no Shard of the set is
-- around it. The parent is of the set, is another Shard, and the segments of its folder are the
-- first ones of the Shard's folder; and it is the nearest one: the folder of every Shard of the
-- set that is around the Shard is the parent's folder or one around it.
pub parent_of-IsNearest :
    (d : ShardDefinition) (ds : List ShardDefinition)
    → IsFolder d.path
    → ((c : ShardDefinition) → c ∈ ds → IsFolder c.path)
    → ((parent_of d ds ≡ none) × ((c : ShardDefinition) → c ∈ ds → ¬ IsAround c d))
      ⊎ ((p : ShardDefinition) × (parent_of d ds ≡ some p) × IsNearest d ds p)
unfolding parent_of component_count
parent_of-IsNearest d ds f folders =
    elim (max_by_key-IsMax (λ c. component_count c.path) (filter (encloses d) ds)) [
      | inl (empty, nothing) ↦ inl (nothing, λ c m around. absurd (rw empty at (kept c m around)))
      | inr (p, found, (mem, greatest)) ↦
          let (inside, around) = mem-filter (encloses d) p ds mem in
          let (other, begins) = (encloses_iff d p f (folders p inside)).0 around in
          inr (
            p,
            found,
            (
              inside,
              (other, begins),
              λ c m h.
                  shorter_prefix (segments c.path) (segments p.path) h.1.0 begins.0
                    (sym h.1.1 ∙ begins.1)
                    (All-mem (λ e. component_count e.path) (component_count p.path) c
                      (filter (encloses d) ds) greatest (kept c m h)),
            ),
          )
    ]
  where
    kept : (c : ShardDefinition) → c ∈ ds → IsAround c d → c ∈ filter (encloses d) ds
    kept c m around =
        mem-filter_back (encloses d) c ds m ((encloses_iff d c f (folders c m)).1 around)
