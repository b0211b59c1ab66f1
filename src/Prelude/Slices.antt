-- ===== src/Prelude/Slices.antt =====
-- How `take`, `drop` and `set` act on one another.
use Prim.Native.Nat.{ℕ, zero, suc, ◌+◌, ◌≤◌, ◌<◌}
use mathlib.Core.Path.{◌≡◌, refl, ap, ◌∙◌}
use native.Mathlib.Nat.{le_refl}
use mathlib.Core.List.{List, [], ◌∷◌, ◌++◌}
use mathlib.Core.Option.{some}
use native.Mathlib.Omega.{arith}
use cipher_trader.Prelude.Lists.{
  length, get_elem?, set, take, drop, length-append, length-take, length-drop,
}

module _ {ℓ} {A : Type ℓ} where
  pub take_all : (n : ℕ) (xs : List A) → length xs ≤ n → take n xs ≡ xs
  take_all zero [] h = refl
  take_all zero (x ∷ xs) h = elim h [ ]
  take_all (suc n) [] h = refl
  take_all (suc n) (x ∷ xs) h = ap (◌∷◌ x) (take_all n xs (omega arith))

  pub take-append_le : (n : ℕ) (xs ys : List A) → n ≤ length xs → take n (xs ++ ys) ≡ take n xs
  take-append_le zero xs ys h = refl
  take-append_le (suc n) [] ys h = absurd (omega arith)
  take-append_le (suc n) (x ∷ xs) ys h = ap (◌∷◌ x) (take-append_le n xs ys (omega arith))

  pub take-take : (m n : ℕ) (xs : List A) → m ≤ n → take m (take n xs) ≡ take m xs
  take-take zero n xs h = refl
  take-take (suc m) zero xs h = absurd (omega arith)
  take-take (suc m) (suc n) [] h = refl
  take-take (suc m) (suc n) (x ∷ xs) h = ap (◌∷◌ x) (take-take m n xs (omega arith))

  pub take-set_last :
      (n : ℕ) (xs : List A) (v : A)
      → n < length xs
      → take (suc n) (set xs n v) ≡ take n xs ++ v ∷ []
  take-set_last zero [] v h = absurd (omega arith)
  take-set_last zero (x ∷ xs) v h = refl
  take-set_last (suc n) [] v h = absurd (omega arith)
  take-set_last (suc n) (x ∷ xs) v h = ap (◌∷◌ x) (take-set_last n xs v (omega arith))

  pub take-set_ge : (n i : ℕ) (xs : List A) (v : A) → n ≤ i → take n (set xs i v) ≡ take n xs
  take-set_ge zero i xs v h = refl
  take-set_ge (suc n) i [] v h = refl
  take-set_ge (suc n) zero (x ∷ xs) v h = absurd (omega arith)
  take-set_ge (suc n) (suc i) (x ∷ xs) v h = ap (◌∷◌ x) (take-set_ge n i xs v (omega arith))

  take_nil : (n : ℕ) → take {A = A} n [] ≡ []
  take_nil zero = refl
  take_nil (suc n) = refl

  pub take-drop : (k n m : ℕ) (xs : List A) → m ≡ k + n → take n (drop k xs) ≡ drop k (take m xs)
  take-drop zero n m xs e = ap (λ i. take i xs) (omega arith)
  take-drop (suc k) n zero xs e = absurd (omega arith)
  take-drop (suc k) n (suc m) [] e = take_nil n
  take-drop (suc k) n (suc m) (x ∷ xs) e = take-drop k n m xs (omega arith)

  -- What a copy of the first `n` rows puts in front
  pub take-front : (n : ℕ) (xs ys : List A) → n ≤ length xs → take n (take n xs ++ ys) ≡ take n xs
  take-front n xs ys h =
      take-append_le n (take n xs) ys (omega (arith, length-take n xs))
      ∙ take-take n n xs (le_refl n)

  pub get_elem?-take : (n i : ℕ) (xs : List A) → i < n → get_elem? (take n xs) i ≡ get_elem? xs i
  get_elem?-take zero i xs h = absurd (omega arith)
  get_elem?-take (suc n) i [] h = refl
  get_elem?-take (suc n) zero (x ∷ xs) h = refl
  get_elem?-take (suc n) (suc i) (x ∷ xs) h = get_elem?-take n i xs (omega arith)

  pub get_elem?-some : (i : ℕ) (xs : List A) → i < length xs → (v : A) × (get_elem? xs i ≡ some v)
  get_elem?-some i [] h = absurd (omega arith)
  get_elem?-some zero (x ∷ xs) h = (x, refl)
  get_elem?-some (suc i) (x ∷ xs) h = get_elem?-some i xs (omega arith)

  pub get_elem?-lt : (i : ℕ) (xs : List A) (v : A) → get_elem? xs i ≡ some v → i < length xs
  get_elem?-lt i [] v h = ground arith
  get_elem?-lt zero (x ∷ xs) v h = omega arith
  get_elem?-lt (suc i) (x ∷ xs) v h = omega (arith, get_elem?-lt i xs v h)

  pub drop_all : (n : ℕ) (xs : List A) → length xs ≤ n → drop n xs ≡ []
  drop_all zero [] h = refl
  drop_all zero (x ∷ xs) h = elim h [ ]
  drop_all (suc n) [] h = refl
  drop_all (suc n) (x ∷ xs) h = drop_all n xs (omega arith)

  -- Copying `n` rows from position `j` to the front keeps the length.
  pub length-copy :
      (n j : ℕ) (xs ys : List A)
      → j + n ≤ length xs
      → n ≤ length ys
      → length (take n (drop j xs) ++ drop (0 + n) ys) ≡ length ys
  length-copy n j xs ys h k = omega (
    arith,
    length-append (take n (drop j xs)) (drop (0 + n) ys),
    length-take n (drop j xs),
    length-drop j xs,
    length-drop (0 + n) ys,
  )

  pub take-append_eq : (n : ℕ) (xs ys : List A) → length xs ≡ n → take n (xs ++ ys) ≡ xs
  take-append_eq n xs ys h = take-append_le n xs ys (omega arith) ∙ take_all n xs (omega arith)
