-- ===== src/Batch/Chunks.antt =====
-- `slice::chunks`: consecutive pieces of at most `n` elements.
use markdown_vdb.Base.{
  ℕ, zero, suc, ◌≤◌, ◌<◌, List, [], ◌∷◌, ◌++◌, ◌≡◌, refl, ap, ◌∙◌, arith, length, take, drop,
  concat, length-take, length-drop, take-append-drop, All,
}

-- A list of `k` elements has at most `k` pieces, the fuel. `n` is positive at every call.
unfoldable pub chunks {ℓ} : {A : Type ℓ} → ℕ → ℕ → List A → List (List A)
chunks fuel n [] = []
chunks zero n (x ∷ xs) = []
chunks (suc fuel) n (x ∷ xs) = take n (x ∷ xs) ∷ chunks fuel n (drop n (x ∷ xs))

module _ {ℓ} {A : Type ℓ} where
  -- The pieces make up the list.
  pub concat-chunks :
      (fuel n : ℕ) (xs : List A) → 0 < n → length xs ≤ fuel → concat (chunks fuel n xs) ≡ xs
  unfolding chunks
  concat-chunks fuel n [] hn hf = refl
  concat-chunks zero n (x ∷ xs) hn hf = absurd (omega arith)
  concat-chunks (suc fuel) n (x ∷ xs) hn hf =
      ap (λ t. take n (x ∷ xs) ++ t)
        (concat-chunks fuel n (drop n (x ∷ xs)) hn (omega (arith, length-drop n (x ∷ xs))))
      ∙ take-append-drop n (x ∷ xs)

  -- Each piece has an element, and at most `n`.
  pub chunks-length :
      (fuel n : ℕ) (xs : List A)
      → 0 < n
      → All (λ b. (0 < length b) × (length b ≤ n)) (chunks fuel n xs)
  unfolding chunks
  chunks-length fuel n [] hn = tt
  chunks-length zero n (x ∷ xs) hn = tt
  chunks-length (suc fuel) n (x ∷ xs) hn = (
    (omega (arith, length-take n (x ∷ xs)), omega (arith, length-take n (x ∷ xs))),
    chunks-length fuel n (drop n (x ∷ xs)) hn,
  )
