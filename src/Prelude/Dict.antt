-- ===== src/Prelude/Dict.antt =====
-- `std::map` and `std::unordered_map` with string keys, as a list of entries in the order of the
-- keys (the order in which `std::map` is iterated).
use mathlib.Core.Path.{◌≡◌, refl}
use mathlib.Core.Option.{Option, none, some}
use mathlib.Core.List.{List, [], ◌∷◌}
use native.Mathlib.Omega.{arith}
use cipher_trader.Prelude.Tests.{if◌then◌else◌, Bool-cases}
use mathlib.Core.Logic.{◌≢◌, ◌⊎◌, inl, inr}
use cipher_trader.Prelude.Strings.{Text, text_eq, text_lt, text_eq_iff}
use cipher_trader.Prelude.Results.{Result, ok, err, out_of_range, or_fail}

abbrev pub Dict {ℓ} : Type ℓ → Type ℓ
Dict V = List (Text × V)

module _ {ℓ} {V : Type ℓ} where
  -- `m.find(k)`
  unfoldable pub lookup : Text → Dict V → Option V
  lookup k [] = none
  lookup k ((j, v) ∷ m) = if text_eq j k then some v else lookup k m

  -- `m[k] = v`, `m.insert_or_assign(k, v)`
  unfoldable pub insert : Text → V → Dict V → Dict V
  insert k v [] = (k, v) ∷ []
  insert k v ((j, w) ∷ m) =
      if text_eq j k
      then (k, v) ∷ m
      else if text_lt k j
      then (k, v) ∷ (j, w) ∷ m
      else (j, w) ∷ insert k v m

  -- The value that `m[k]` reads, where a missing key counts as `d`.
  unfoldable pub value_or : Text → V → Dict V → V
  unfolding lookup
  value_or k d m = elim (lookup k m) [ none ↦ d | some v ↦ v ]

  pub lookup-insert :
      (k j : Text) (v : V) (m : Dict V)
      → lookup j (insert k v m) ≡ (if text_eq k j then some v else lookup j m)
  unfolding lookup insert
  lookup-insert k j v [] = refl
  lookup-insert k j v ((i, w) ∷ m) =
      ground (arith, text_eq_iff k j, text_eq_iff i k, text_eq_iff i j, lookup-insert k j v m)

  pub value_or-insert :
      (k j : Text) (v d : V) (m : Dict V)
      → value_or j d (insert k v m) ≡ (if text_eq k j then v else value_or j d m)
  unfolding value_or
  value_or-insert k j v d m = ground (arith, lookup-insert k j v m)

  pub insert_same : (k : Text) (v d : V) (m : Dict V) → value_or k d (insert k v m) ≡ v
  insert_same k v d m = ground (arith, text_eq_iff k k, value_or-insert k k v d m)

  pub insert_other :
      (k j : Text) (v d : V) (m : Dict V) → k ≢ j → value_or j d (insert k v m) ≡ value_or j d m
  insert_other k j v d m n = ground (arith, text_eq_iff k j, value_or-insert k j v d m, n)

  pub insert-cases :
      (k j : Text) (v d : V) (m : Dict V)
      → ((k ≡ j) × (value_or j d (insert k v m) ≡ v))
        ⊎ ((k ≢ j) × (value_or j d (insert k v m) ≡ value_or j d m))
  insert-cases k j v d m = elim (Bool-cases (text_eq k j)) [
    | inl b ↦ inl ((text_eq_iff k j).0 b, ground (arith, b, value_or-insert k j v d m))
    | inr b ↦ inr (
      (λ e. ground (arith, b, (text_eq_iff k j).1 e)),
      ground (arith, b, value_or-insert k j v d m),
    )
  ]

  -- `m.at(k)`, read, and `m.at(k) = v`
  abbrev pub at : Text → Dict V → Result V
  at k m = or_fail (lookup k m) out_of_range

  abbrev pub assign_at : Text → V → Dict V → Result (Dict V)
  assign_at k v m = elim (lookup k m) [ none ↦ err out_of_range | some w ↦ ok (insert k v m) ]
