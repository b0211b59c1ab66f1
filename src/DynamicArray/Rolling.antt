-- ===== src/DynamicArray/Rolling.antt =====
-- Rolling data: arrays that drop their oldest rows, and the number of rows that `append` can reach.
use cipher_trader.Prelude.{
  ℕ, suc, ◌/◌, ◌%◌, ◌≤◌, ◌<◌, ◌≡◌, ◌≢◌, ap, ◌∙◌, inl, inr, Bool-cases, some, List, [], ◌∷◌, ◌++◌,
  ◌==◌, arith, length, length-append, length-drop, ok, dec_lt,
}
use native.Mathlib.Nat.{mod_self, mod-eq_of_lt}
use cipher_trader.Blaze.{Blaze, IsBlaze}
use cipher_trader.DynamicArray.{DynamicArray, fit, append}
use cipher_trader.DynamicArray.View.{view, Inv}
use cipher_trader.DynamicArray.Append.{kept, view-append, length-view}

-- A positive number below `n` is no multiple of `n`.
multiple_below : (a n : ℕ) → 0 < a → a ≤ n → a % n ≡ 0 → a ≡ n
multiple_below a n p h z = elim (dec_lt a n) [
  | yes l ↦ omega (arith, mod-eq_of_lt l)
  | no g ↦ omega arith
]

module _ {T : Type 0} (b : Blaze T) (laws : IsBlaze b) where
  open b use {Matrix}

  -- A well-formed array that drops rows at `n`, and has fewer
  pub record Rolls (n : ℕ) (a : DynamicArray Matrix) : Type 0 where
    pub formed : Inv b laws a
    pub roomy : 2 ≤ a.bucket_size
    pub drops : a.drop_at ≡ some n
    pub below : a.count < n

  -- What is left of at most `n` rows
  length-kept :
      (n : ℕ) (v : List (List T))
      → 2 ≤ n
      → 0 < length v
      → length v ≤ n
      → (length (kept (some n) v) < n) × (0 < length (kept (some n) v))
  length-kept n v h p k = elim (Bool-cases (length v % n == 0)) [
    | inl due ↦
        let whole : length v ≡ n = multiple_below (length v) n p k (ground (arith, due)) in
        rw due (omega (arith, length-drop (n / 2) v), omega (arith, length-drop (n / 2) v))
    | inr idle ↦
        let less : length v ≢ n = λ e. ground (arith, idle, e, mod_self n) in
        rw idle (ground (arith, less), p)
  ]

  -- An array that drops its oldest rows at a number of at least 2, has fewer rows than that, and has a
  -- bucket size of at least 2, is such an array after `append` too, and then is not empty: rolling
  -- data never reaches the number. `append` succeeds on it and adds the item to the rows, less the
  -- older half when they reach the number.
  pub append_keeps_rolling :
      (a : DynamicArray Matrix) (item : List T) (n : ℕ)
      → 2 ≤ n
      → Rolls n a
      → (a' : DynamicArray Matrix) × (append b item a ≡ (ok tt, a'))
        × (view b laws a' ≡ kept a.drop_at (view b laws a ++ fit b a.width item ∷ []))
        × Rolls n a'
        × (0 < a'.count)
  append_keeps_rolling a item n k r =
      let v = r.formed in
      let h = r.drops in
      let nz : a.drop_at ≢ some 0 = λ e. ground (arith, h, e) in
      let (a', e, t, w, _, bucket, drops) = view-append b laws a item v r.roomy nz in
      let one_more : length (view b laws a ++ fit b a.width item ∷ []) ≡ suc a.count =
        omega (
          arith,
          length-append (view b laws a) (fit b a.width item ∷ []),
          length-view b laws a v,
        ) in
      let below = r.below in
      let (below, above) =
        length-kept n (view b laws a ++ fit b a.width item ∷ []) k (omega arith) (omega arith) in
      let count : length (view b laws a') ≡ a'.count = length-view b laws a' w in
      let seen : length (view b laws a')
          ≡ length (kept (some n) (view b laws a ++ fit b a.width item ∷ [])) =
        ap length (t ∙ ap (λ o. kept o (view b laws a ++ fit b a.width item ∷ [])) h) in
      (
        a',
        e,
        t,
        record {
          formed = w;
          roomy = omega (arith, bucket, r.roomy);
          drops = drops ∙ h;
          below = omega arith;
        },
        omega arith,
      )
