-- ===== src/Base/Strings.antt =====
-- What the program uses of `str` and `String`, over code points.
pub mod Pieces
pub mod Ends
pub mod Blank
use Prim.Native.Nat.{ℕ, zero, suc, ◌+◌, ◌/◌, ◌%◌}
use Prim.Native.Char.{code}
use Prim.Native.String.{String}
use mathlib.Core.Path.{◌≡◌, refl}
use mathlib.Core.Logic.{◌↔◌}
use mathlib.Core.Bool.{Bool, true, false, ◌&&◌, ◌||◌}
use mathlib.Core.Option.{Option, none, some}
use mathlib.Core.List.{List, [], ◌∷◌, ◌++◌, map, reverse}
use native.Mathlib.Omega.{arith}
use markdown_vdb.Base.Tests.{◌==◌, ltb, leb, if◌then◌else◌}
use markdown_vdb.Base.Equality.{Text}

-- The code points of a literal.
abbrev pub codes : String → Text
codes String.[] = []
codes (String.◌∷◌ first rest) = code first ∷ codes rest

-- `char::is_whitespace`: the code points of Unicode's White_Space property.
unfoldable pub is_whitespace : ℕ → Bool
is_whitespace c =
    (leb 9 c && leb c 13)
    || c == 32
    || c == 0x85
    || c == 0xa0
    || c == 0x1680
    || (leb 0x2000 c && leb c 0x200a)
    || c == 0x2028
    || c == 0x2029
    || c == 0x202f
    || c == 0x205f
    || c == 0x3000

unfoldable pub drop_while : (ℕ → Bool) → Text → Text
drop_while p [] = []
drop_while p (c ∷ cs) = if p c then drop_while p cs else c ∷ cs

abbrev pub trim_end_while : (ℕ → Bool) → Text → Text
trim_end_while p s = reverse (drop_while p (reverse s))

-- `str::trim`.
unfoldable pub trim : Text → Text
unfolding drop_while is_whitespace
trim s = trim_end_while is_whitespace (drop_while is_whitespace s)

-- `str::trim_end_matches` and `str::trim_start_matches` with one character.
unfoldable pub trim_end_matches : ℕ → Text → Text
unfolding drop_while
trim_end_matches c = trim_end_while (λ d. d == c)

unfoldable pub trim_start_matches : ℕ → Text → Text
unfolding drop_while
trim_start_matches c = drop_while (λ d. d == c)

unfoldable pub strip_prefix : Text → Text → Option Text
strip_prefix [] s = some s
strip_prefix (p ∷ ps) [] = none
strip_prefix (p ∷ ps) (c ∷ cs) = if c == p then strip_prefix ps cs else none

unfoldable pub starts_with : Text → Text → Bool
unfolding strip_prefix
starts_with p s = elim (strip_prefix p s) [ none ↦ false | some _ ↦ true ]

-- `str::ends_with`.
unfoldable pub ends_with : Text → Text → Bool
unfolding starts_with
ends_with p s = starts_with (reverse p) (reverse s)

-- `str::replace` of one character by another.
unfoldable pub replace_char : ℕ → ℕ → Text → Text
replace_char from to = map (λ c. if c == from then to else c)

unfoldable pub contains_char : ℕ → Text → Bool
contains_char c [] = false
contains_char c (d ∷ ds) = d == c || contains_char c ds

-- The first item of `str::split`, what stands before the first `c`.
unfoldable pub before : ℕ → Text → Text
before c [] = []
before c (d ∷ ds) = if d == c then [] else d ∷ before c ds

-- `str::split` by one character; the pieces, never none of them.
split_step : ℕ → ℕ → List Text → List Text
split_step c d [] = []
split_step c d (p ∷ ps) = if d == c then [] ∷ p ∷ ps else (d ∷ p) ∷ ps

unfoldable pub split : ℕ → Text → List Text
unfolding split_step
split c [] = [] ∷ []
split c (d ∷ ds) = split_step c d (split c ds)

-- `[T]::join`.
unfoldable pub join : Text → List Text → Text
join sep [] = []
join sep (p ∷ []) = p
join sep (p ∷ q ∷ ps) = p ++ (sep ++ join sep (q ∷ ps))

-- `str::len`, the bytes of the UTF-8 form.
abbrev char_len : ℕ → ℕ
char_len c = if ltb c 0x80 then 1 else if ltb c 0x800 then 2 else if ltb c 0x10000 then 3 else 4

unfoldable pub byte_len : Text → ℕ
byte_len [] = 0
byte_len (c ∷ cs) = char_len c + byte_len cs

-- `usize` in decimal; a number has no more digits than its value plus one.
digits_onto : ℕ → ℕ → Text → Text
digits_onto zero n out = out
digits_onto (suc fuel) n out =
    let out' = (b'0' + n % 10) ∷ out in
    let more = digits_onto fuel (n / 10) out' in if ltb n 10 then out' else more

unfoldable pub decimal : ℕ → Text
unfolding digits_onto
decimal n = digits_onto (suc n) n []

decimal_example : decimal 1207 ≡ codes "1207"
unfolding decimal
decimal_example = refl

trim_example : trim (codes "\t a b \n") ≡ codes "a b"
unfolding trim
trim_example = refl

split_example : map (λ (t : Text). t) (split b'/' (codes "a//b")) ≡ codes "a" ∷ [] ∷ codes "b" ∷ []
unfolding split
split_example = refl

pub strip_prefix_iff : (p s r : Text) → (strip_prefix p s ≡ some r) ↔ (s ≡ p ++ r)
unfolding strip_prefix
strip_prefix_iff [] s r = ground arith
strip_prefix_iff (p ∷ ps) [] r = ground arith
strip_prefix_iff (p ∷ ps) (c ∷ cs) r = ground (arith, strip_prefix_iff ps cs r)
