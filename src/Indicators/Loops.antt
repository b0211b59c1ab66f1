-- ===== src/Indicators/Loops.antt =====
-- What loops that write into a vector leave in it. Nothing here models code of the repository.
use cipher_trader.Prelude.{
  ℕ, zero, suc, ◌+◌, ◌-◌, ◌≤◌, ◌<◌, ◌≡◌, refl, ap, ◌∙◌, List, [], ◌∷◌, ◌&&◌, length, set, replicate,
  ltb, leb, ◌==◌, if◌then◌else◌, length-set, take, map, get_elem?, ◌++◌, some, arith,
}
use cipher_trader.Indicators.{for_range, fill, entry}

module _ {D : Type 0} (nan : D) where
  pub entry-set :
      (v : List D) (i : ℕ) (x : D) (j : ℕ)
      → entry nan (set v i x) j ≡ (if (i == j) && ltb j (length v) then x else entry nan v j)
  entry-set [] i x j = ground arith
  entry-set (y ∷ v) zero x zero = ground arith
  entry-set (y ∷ v) zero x (suc j) = ground arith
  entry-set (y ∷ v) (suc i) x zero = ground arith
  entry-set (y ∷ v) (suc i) x (suc j) = ground (arith, entry-set v i x j)

  pub entry-replicate : (n j : ℕ) → entry nan (replicate n nan) j ≡ nan
  entry-replicate zero j = refl
  entry-replicate (suc n) zero = refl
  entry-replicate (suc n) (suc j) = entry-replicate n j

  -- A loop that writes each entry from index `i` on, by its index alone
  pub write_all :
      (f : ℕ → D) (n i : ℕ) (v : List D) (j : ℕ)
      → entry nan (for_range n i (λ k r. set r k (f k)) v) j
        ≡ (if leb i j && (ltb j (i + n) && ltb j (length v)) then f j else entry nan v j)
  unfolding for_range
  write_all f zero i v j = ground arith
  write_all f (suc n) i v j =
      write_all f n (suc i) (set v i (f i)) j
      ∙ ground (arith, entry-set v i (f i) j, length-set v i (f i))

  pub entry-fill :
      (f : ℕ → D) (start : ℕ) (v : List D) (j : ℕ)
      → j < length v
      → start ≤ j
      → entry nan (fill start (λ i r. f i) v) j ≡ f j
  entry-fill f start v j l g = write_all f (length v - start) start v j ∙ ground (arith, l, g)

  pub length-write :
      (f : ℕ → List D → D) (n i : ℕ) (v : List D)
      → length (for_range n i (λ k r. set r k (f k r)) v) ≡ length v
  unfolding for_range
  length-write f zero i v = refl
  length-write f (suc n) i v = length-write f n (suc i) (set v i (f i v)) ∙ length-set v i (f i v)

  pub take-next :
      (arr : List D) (q : ℕ)
      → q < length arr
      → take (suc q) arr ≡ take q arr ++ (entry nan arr q ∷ [])
  take-next [] q l = absurd (omega (arith, l))
  take-next (x ∷ arr) zero l = refl
  take-next (x ∷ arr) (suc q) l = ap (λ t. x ∷ t) (take-next arr q (omega (arith, l)))

  -- Vectors with the same entries are the same.
  pub same_entries :
      (v w : List D)
      → length v ≡ length w
      → ((i : ℕ) → i < length v → entry nan v i ≡ entry nan w i)
      → v ≡ w
  same_entries [] [] e h = refl
  same_entries [] (y ∷ w) e h = absurd (omega (arith, e))
  same_entries (x ∷ v) [] e h = absurd (omega (arith, e))
  same_entries (x ∷ v) (y ∷ w) e h =
      ap (λ z. z ∷ v) (h 0 (omega arith))
      ∙ ap (λ u. y ∷ u) (same_entries v w (omega (arith, e)) λ i l. h (suc i) (omega (arith, l)))

  pub entry-map {ℓ} :
      {A : Type ℓ} (f : A → D) (xs : List A) (i : ℕ) (a : A)
      → get_elem? xs i ≡ some a
      → entry nan (map f xs) i ≡ f a
  entry-map f [] i a h = ground (arith, h)
  entry-map f (x ∷ xs) zero a h = ground (arith, h)
  entry-map f (x ∷ xs) (suc i) a h = entry-map f xs i a h

pub length-map {ℓ κ} :
    {A : Type ℓ} {B : Type κ} (f : A → B) (xs : List A) → length (map f xs) ≡ length xs
length-map f [] = refl
length-map f (x ∷ xs) = ap suc (length-map f xs)

-- The sum of numbers, from the left
module _ {D : Type 0} (add : D → D → D) where
  abbrev pub sum_from : D → List D → D
  sum_from acc [] = acc
  sum_from acc (x ∷ xs) = sum_from (add acc x) xs

  pub sum_from-append :
      (acc : D) (xs : List D) (x : D) → sum_from acc (xs ++ (x ∷ [])) ≡ add (sum_from acc xs) x
  sum_from-append acc [] x = refl
  sum_from-append acc (y ∷ xs) x = sum_from-append (add acc y) xs x
