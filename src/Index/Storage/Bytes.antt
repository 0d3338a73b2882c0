-- ===== src/Index/Storage/Bytes.antt =====
-- Numbers as bytes, and the parts of a file with three regions.
use markdown_vdb.Base.{
  ℕ, zero, suc, ◌+◌, ◌*◌, ◌-◌, ◌/◌, ◌<◌, List, [], ◌∷◌, ◌++◌, length, take, drop, ◌≡◌, refl, ◌∙◌,
  ap, arith, length-append, le→ltb,
}
use markdown_vdb.Base.Result.{ok}
use markdown_vdb.Index.Storage.{Bytes, to_le_bytes, from_le_bytes, slice}

-- 256 to the power of the number of bytes.
abbrev pub bound : ℕ → ℕ
bound zero = 1
bound (suc n) = 256 * bound n

-- A number that fits is read back.
pub from_le_bytes-to_le_bytes : (n x : ℕ) → x < bound n → from_le_bytes (to_le_bytes n x) ≡ x
unfolding from_le_bytes to_le_bytes
from_le_bytes-to_le_bytes zero x h = omega arith
from_le_bytes-to_le_bytes (suc n) x h =
    omega (arith, from_le_bytes-to_le_bytes n (x / 256) (omega arith))

module _ {A : Type 0} where
  pub take-append : (xs ys : List A) → take (length xs) (xs ++ ys) ≡ xs
  take-append [] ys = refl
  take-append (x ∷ xs) ys = ap (◌∷◌ x) (take-append xs ys)

  pub drop-append : (xs ys : List A) → drop (length xs) (xs ++ ys) ≡ ys
  drop-append [] ys = refl
  drop-append (x ∷ xs) ys = drop-append xs ys

-- A region is sliced out of the file.
pub slice-region :
    (before region after : Bytes) (from to : ℕ)
    → from ≡ length before
    → to ≡ from + length region
    → slice from to (before ++ (region ++ after)) ≡ ok region
unfolding slice
slice-region before region after from to starts ends =
    let total : length (before ++ (region ++ after))
        ≡ length before + (length region + length after) =
      length-append before (region ++ after)
      ∙ ap (λ n. length before + n) (length-append region after) in
    let size : to - from ≡ length region = omega arith in
    rw
      (
        le→ltb to from (omega arith),
        total,
        le→ltb (length before + (length region + length after)) to (omega arith),
        size,
        starts,
        drop-append before (region ++ after),
        take-append region after,
      )
      refl
