-- ===== src/Cache/Memo.antt =====
-- src/Cache.cpp: `cached`, a function with a map of the results that it gave before. Arguments are compared by `==`.
-- The function may throw, and may change a state of its own.
use cipher_trader.Prelude.{
  ◌≡◌, refl, ap, sym, ◌∙◌, Bool, true, Option, none, some, List, [], ◌∷◌, map, if◌then◌else◌,
  Bool-cases, Option-cases, inl, inr, arith, Result, ok, err, M,
}

module _ {A R S : Type 0} (same : A → A → Bool) (func : A → M S R) where
  unfoldable pub find_result : A → List (A × R) → Option R
  find_result key [] = none
  find_result key ((k, r) ∷ m) = if same k key then some r else find_result key m

  -- A result is written into the map, an exception is not.
  abbrev pub keep_result : A → List (A × R) → Result R × S → Result R × (List (A × R) × S)
  keep_result key m (ok r, s) = (ok r, ((key, r) ∷ m, s))
  keep_result key m (err e, s) = (err e, (m, s))

  unfoldable pub call_cached : A → M (List (A × R) × S) R
  call_cached key (m, s) = elim (find_result key m) [
    | some r ↦ (ok r, (m, s))
    | none ↦ keep_result key m (func key s)
  ]

  -- One call after the other, on one map
  unfoldable pub calls : List A → List (A × R) × S → List (Result R)
  calls [] c = []
  calls (key ∷ keys) c = let (r, c') = call_cached key c in r ∷ calls keys c'

  module _ (answer : A → Result R) where
    -- The map has right results only.
    abbrev Right : List (A × R) → Type 0
    Right m = (key : A) (r : R) → find_result key m ≡ some r → ok r ≡ answer key

    keep_result-Right :
        (key : A) (m : List (A × R)) (out : Result R × S)
        → ((x y : A) → same x y ≡ true → x ≡ y)
        → Right m
        → out.0 ≡ answer key
        → ((keep_result key m out).0 ≡ answer key) × Right ((keep_result key m out).1.0)
    unfolding find_result
    keep_result-Right key m (err e, s) sound right h = (h, right)
    keep_result-Right key m (ok r, s) sound right h = (h, entered)
      where
        entered : Right ((key, r) ∷ m)
        entered k v g = elim (Bool-cases (same key k)) [
          | inl b ↦
              let here : r ≡ v = ground (arith, g, b) in
              ap (λ t. ok t) (sym here) ∙ h ∙ ap answer (sound key k b)
          | inr b ↦ right k v (ground (arith, g, b))
        ]

    call_cached-Right :
        (key : A) (m : List (A × R)) (s : S)
        → ((x y : A) → same x y ≡ true → x ≡ y)
        → ((func key s).0 ≡ answer key)
        → Right m
        → ((call_cached key (m, s)).0 ≡ answer key) × Right ((call_cached key (m, s)).1.0)
    unfolding call_cached
    call_cached-Right key m s sound pure right = elim (Option-cases (find_result key m)) [
      | inr (r, e) ↦ rw (e, call_cached) (right key r e, right)
      | inl e ↦ rw (e, call_cached) (keep_result-Right key m (func key s) sound right pure)
    ]

    calls-Right :
        (keys : List A) (m : List (A × R)) (s : S)
        → ((x y : A) → same x y ≡ true → x ≡ y)
        → ((key : A) (t : S) → (func key t).0 ≡ answer key)
        → Right m
        → calls keys (m, s) ≡ map answer keys
    unfolding calls
    calls-Right [] m s sound pure right = refl
    calls-Right (key ∷ keys) m s sound pure right =
        let (first, right') = call_cached-Right key m s sound (pure key s) right in
        let (m', s') = (call_cached key (m, s)).1 in
        ap (λ r. r ∷ calls keys (m', s')) first
        ∙ ap (λ rs. answer key ∷ rs) (calls-Right keys m' s' sound pure right')

    -- A function with a cache answers what the function itself answers, call after call, and throws where
    -- it throws, if only equal arguments are taken for the same and the answers of the function do not
    -- depend on what changes between the calls.
    pub calls-map :
        (keys : List A) (s : S)
        → ((x y : A) → same x y ≡ true → x ≡ y)
        → ((key : A) (t : S) → (func key t).0 ≡ answer key)
        → calls keys ([], s) ≡ map answer keys
    unfolding find_result
    calls-map keys s sound pure = calls-Right keys [] s sound pure (λ key r h. ground (arith, h))
