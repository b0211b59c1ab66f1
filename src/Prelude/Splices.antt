-- ===== src/Prelude/Splices.antt =====
-- Lists with one element taken out.
use mathlib.Core.List.{append_assoc, append-nil}
use native.Mathlib.Numerals.{add-one}
use Prim.Native.Nat.{ℕ, suc, ◌+◌, ◌-◌, ◌≤◌, ◌<◌}
use mathlib.Core.Path.{◌≡◌, sym, ap, ◌∙◌}
use mathlib.Core.List.{List, [], ◌++◌}
use native.Mathlib.Omega.{arith}
use cipher_trader.Prelude.Lists.{length, take, drop, length-append, length-take, length-drop}
use cipher_trader.Prelude.Slices.{take-take, take-drop, take-append_eq, drop_all}

-- The list without its element at `i`
abbrev pub without {ℓ} : {A : Type ℓ} → ℕ → List A → List A
without i v = take i v ++ drop (suc i) v

module _ {ℓ} {A : Type ℓ} where
  -- Moving `n` elements from behind position `i` up to it keeps the length.
  pub length-move_up :
      (i n : ℕ) (xs : List A)
      → i + 1 + n ≤ length xs
      → length (take i xs ++ (take n (drop (i + 1) xs) ++ drop (i + n) xs)) ≡ length xs
  length-move_up i n xs h = omega (
    arith,
    length-append (take i xs) (take n (drop (i + 1) xs) ++ drop (i + n) xs),
    length-append (take n (drop (i + 1) xs)) (drop (i + n) xs),
    length-take i xs,
    length-take n (drop (i + 1) xs),
    length-drop (i + 1) xs,
    length-drop (i + n) xs,
  )

  pub take-move_up :
      (i c : ℕ) (xs rest : List A)
      → i < c
      → c ≤ length xs
      → take (c - 1) (take i xs ++ (take (c - 1 - i) (drop (i + 1) xs) ++ rest))
        ≡ without i (take c xs)
  take-move_up i c xs rest h k =
      let front = take i xs in
      let back = take (c - 1 - i) (drop (i + 1) xs) in
      let size : length (front ++ back) ≡ c - 1 = omega (
        arith,
        length-append front back,
        length-take i xs,
        length-take (c - 1 - i) (drop (i + 1) xs),
        length-drop (i + 1) xs,
      ) in
      let same_front : front ≡ take i (take c xs) = sym (take-take i c xs (omega arith)) in
      let same_back : back ≡ drop (suc i) (take c xs) =
        take-drop (i + 1) (c - 1 - i) c xs (omega arith)
        ∙ ap (λ j. drop j (take c xs)) (add-one i) in
      ap (take (c - 1)) (sym (append_assoc front back rest))
      ∙ take-append_eq (c - 1) (front ++ back) rest size
      ∙ ap (λ f. f ++ back) same_front
      ∙ ap (λ r. take i (take c xs) ++ r) same_back

  -- Taking the last element out leaves the others.
  pub without_last :
      (c : ℕ) (xs : List A) → c ≤ length xs → 0 < c → take (c - 1) xs ≡ without (c - 1) (take c xs)
  without_last c xs h k =
      sym (append-nil (take (c - 1) xs))
      ∙ ap (λ f. f ++ []) (sym (take-take (c - 1) c xs (omega arith)))
      ∙ ap (λ r. take (c - 1) (take c xs) ++ r)
          (sym (drop_all (suc (c - 1)) (take c xs) (omega (arith, length-take c xs))))
