-- ===== src/Chunker/Windows/Rejoined.antt =====
-- Windows on a list: those of the loop of `sub_split_section` in src/chunker.rs, as lists of tokens.
use markdown_vdb.Base.{
  ℕ, zero, suc, ◌+◌, ◌-◌, ◌*◌, ◌≤◌, min, List, [], ◌∷◌, ◌++◌, ◌≡◌, refl, sym, ap, ◌∙◌, arith,
  length, take, drop, length-drop, take-append-drop, drop-drop, take_all,
}

module _ {A : Type 0} where
  take-min : (n : ℕ) (xs : List A) → take (min n (length xs)) xs ≡ take n xs
  take-min zero xs = let e : min 0 (length xs) ≡ 0 = omega arith in rw e refl
  take-min (suc n) [] = ground arith
  take-min (suc n) (x ∷ xs) =
      let e : min (suc n) (suc (length xs)) ≡ suc (min n (length xs)) = omega arith in
      rw e (ap (λ ys. x ∷ ys) (take-min n xs))

  -- The end of a window is cut to that of the list.
  pub take_cut :
      (n start : ℕ) (xs : List A)
      → take (min (start + n) (length xs) - start) (drop start xs) ≡ take n (drop start xs)
  take_cut n start xs =
      let e : min (start + n) (length xs) - start ≡ min n (length (drop start xs)) =
        omega (arith, length-drop start xs) in
      rw e (take-min n (drop start xs))

  take-take : (m n : ℕ) (xs : List A) → m ≤ n → take m (take n xs) ≡ take m xs
  take-take zero n xs h = refl
  take-take (suc m) zero xs h = absurd (omega arith)
  take-take (suc m) (suc n) [] h = refl
  take-take (suc m) (suc n) (x ∷ xs) h = ap (λ ys. x ∷ ys) (take-take m n xs (omega arith))

  module _ (size stride : ℕ) (xs : List A) where
    -- `n` windows of at most `size` elements, the first at `start`, each `stride` behind the last.
    abbrev pub windows : ℕ → ℕ → List (List A)
    windows zero start = []
    windows (suc n) start = take size (drop start xs) ∷ windows n (start + stride)

    -- What the windows cover: each up to the start of the next, and the last one.
    abbrev pub rejoin : List (List A) → List A
    rejoin [] = []
    rejoin (w ∷ []) = w
    rejoin (w ∷ v ∷ ws) = take stride w ++ rejoin (v ∷ ws)

    pub rejoin-windows :
        (m start : ℕ)
        → stride ≤ size
        → length xs ≤ start + m * stride + size
        → rejoin (windows (suc m) start) ≡ drop start xs
    rejoin-windows zero start le ends =
        take_all size (drop start xs) (omega (arith, length-drop start xs))
    rejoin-windows (suc m) start le ends =
        ap (λ w. w ++ rejoin (windows (suc m) (start + stride)))
          (take-take stride size (drop start xs) le)
        ∙ (ap (λ r. take stride (drop start xs) ++ r)
              (rejoin-windows m (start + stride) le (omega arith) ∙ sym (drop-drop start stride xs))
            ∙ take-append-drop stride (drop start xs))
