-- ===== src/Indicators.antt =====
-- src/Indicator.cpp, and `sliceCandles` and `shift` of src/Helper.cpp: the technical indicators. A vector is the
-- list of its numbers; the loops run over indices and write into vectors, as in the source. `of_int`
-- is the conversion to `double`, `nan` the quiet NaN and `epsilon` the machine epsilon.
pub mod Loops
pub mod Averages
pub mod Extremes
pub mod Volume
pub mod Direction
pub mod Weighted
use cipher_trader.Prelude.{
  ℕ, zero, suc, ◌+◌, ◌-◌, Bool, true, false, not, ◌&&◌, List, [], ◌∷◌, ◌++◌, length, get_or, set,
  take, drop, replicate, ltb, if◌then◌else◌, Result, ok, err, invalid_argument,
}
use cipher_trader.Prelude.Int.{ℤ, pos, negsuc}
use cipher_trader.Double.{Double}

-- A loop over `rounds` indices, the first being `i`
unfoldable pub for_range {ℓ} : {S : Type ℓ} → ℕ → ℕ → (ℕ → S → S) → S → S
for_range zero i body s = s
for_range (suc n) i body s = for_range n (suc i) body (body i s)

-- The periods of the indicators are of type `int`, and most have to be positive.
abbrev pub with_period {ℓ} : {A : Type ℓ} → ℤ → (ℕ → Result A) → Result A
with_period (pos zero) f = err invalid_argument
with_period (pos (suc n)) f = f (suc n)
with_period (negsuc n) f = err invalid_argument

-- Without `sequential` the last candles only, as many as the configuration asks for
unfoldable pub slice_candles {ℓ} : {A : Type ℓ} → ℕ → List A → Bool → List A
slice_candles warmup candles sequential =
    if not sequential && ltb warmup (length candles)
    then drop (length candles - warmup) candles
    else candles

-- A vector moved to the right or to the left, with `fill` in the places that become free
unfoldable pub shift {ℓ} : {A : Type ℓ} → List A → ℤ → A → List A
shift vector (pos n) fill =
    if ltb n (length vector)
    then replicate n fill ++ take (length vector - n) vector
    else replicate (length vector) fill
shift vector (negsuc n) fill =
    if ltb (suc n) (length vector)
    then drop (suc n) vector ++ replicate (suc n) fill
    else replicate (length vector) fill

abbrev pub is_nan : {D : Type 0} → Double D → D → Bool
is_nan d x = not (d.eq x x)

abbrev pub number : {D : Type 0} → (ℤ → D) → ℕ → D
number of_int n = of_int (pos n)

module _ {D : Type 0} where
  -- Every entry from an index on is written, in order; an entry can read those before it.
  abbrev pub fill : ℕ → (ℕ → List D → D) → List D → List D
  fill start f v = for_range (length v - start) start (λ i r. set r i (f i r)) v

  -- The operators `-` and `*` on vectors of one length
  abbrev pub pointwise : (D → D → D) → List D → List D → List D
  pointwise f (x ∷ xs) (y ∷ ys) = f x y ∷ pointwise f xs ys
  pointwise f _ _ = []

  -- `v[i]`, within the bounds
  abbrev pub entry : D → List D → ℕ → D
  entry nan v i = get_or v i nan

  -- `v[v.size() - 1]`
  abbrev pub last_entry : D → List D → D
  last_entry nan v = entry nan v (length v - 1)

  -- The whole vector, or the vector of its last entry
  abbrev pub answer : D → Bool → List D → List D
  answer nan sequential v = if sequential then v else last_entry nan v ∷ []
