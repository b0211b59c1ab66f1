-- ===== src/Tests/Caches.antt =====
-- A new cache of texts, and the theorem on functions with a cache at a function that counts its calls.
use cipher_trader.Prelude.{
  ◌≡◌, refl, Option, some, [], ◌∷◌, map, Text, codes, ok, err, null_pointer, arith, ◌==◌, ℕ, zero,
  suc, M, Result, out_of_range,
}
use cipher_trader.Prelude.Int.{pos}
use cipher_trader.Prelude.Dict.{Dict, insert}
use cipher_trader.Cache.{Item, get_value, construct_cache}
use cipher_trader.Cache.Memo.{calls, calls-map}

abbrev no_archive : Dict Item → Text
no_archive m = []

abbrev as_is : Text → Text
as_is t = t

abbrev read_back : Text → Option Text
read_back t = some t

-- The mutex of a new cache is not there.
new_cache_fails :
    (get_value
      (pos 1000)
      no_archive
      insert
      as_is
      read_back
      (pos 5000)
      (pos 5001)
      (codes "prices")
      (construct_cache (codes "storage/") (codes "file") [])).0
    ≡ err null_pointer
unfolding get_value construct_cache
new_cache_fails = refl

-- A function that counts its calls and throws at zero
abbrev predecessor : ℕ → M ℕ ℕ
predecessor zero count = (err out_of_range, suc count)
predecessor (suc n) count = (ok n, suc count)

abbrev answer : ℕ → Result ℕ
answer zero = err out_of_range
answer (suc n) = ok n

predecessor-answer : (n count : ℕ) → (predecessor n count).0 ≡ answer n
predecessor-answer zero count = refl
predecessor-answer (suc n) count = refl

calls-map_example : calls ◌==◌ predecessor (3 ∷ 0 ∷ 3 ∷ []) ([], 0) ≡ map answer (3 ∷ 0 ∷ 3 ∷ [])
calls-map_example =
    calls-map ◌==◌ predecessor answer (3 ∷ 0 ∷ 3 ∷ []) 0 (λ x y h. ground (arith, h))
      predecessor-answer
