-- ===== src/Common/Table.antt =====
-- `std::map` and `std::multimap` with numbers as keys, as association lists: the session looks
-- keys up, inserts and erases, and never depends on the order of distinct keys.
use Prim.Native.Nat.{ℕ}
use mathlib.Core.Path.{◌≡◌, refl}
use mathlib.Core.Logic.{◌≢◌}
use mathlib.Core.Option.{Option, none, some}
use mathlib.Core.List.{List, [], ◌∷◌, ◌++◌}
use native.Mathlib.Omega.{arith}
use autobahn_cpp_aw.Common.Tests.{◌==◌, if◌then◌else◌}

abbrev pub Table {ℓ} : Type ℓ → Type ℓ
Table V = List (ℕ × V)

module _ {ℓ} {V : Type ℓ} where
  -- `find`, and `end()` as `none`
  abbrev pub find : ℕ → Table V → Option V
  find k [] = none
  find k ((j, v) ∷ t) = if k == j then some v else find k t

  -- `map::erase(key)` and `multimap::erase(key)`: every entry of the key goes
  abbrev pub erase : ℕ → Table V → Table V
  erase k [] = []
  erase k ((j, v) ∷ t) = let rest = erase k t in if k == j then rest else (j, v) ∷ rest

  -- `map::emplace`: an entry that is there stays
  abbrev pub emplace : ℕ → V → Table V → Table V
  emplace k v t = elim (find k t) [ none ↦ t ++ (k, v) ∷ [] | some _ ↦ t ]

  -- `map::operator[] =`
  abbrev pub assign : ℕ → V → Table V → Table V
  assign k v [] = (k, v) ∷ []
  assign k v ((j, w) ∷ t) = if k == j then (k, v) ∷ t else (j, w) ∷ assign k v t

  -- `multimap::insert`: behind the entries of the same key
  abbrev pub insert : ℕ → V → Table V → Table V
  insert k v t = t ++ (k, v) ∷ []

  -- the values from `lower_bound(key)` to `upper_bound(key)`
  abbrev pub equal_range : ℕ → Table V → List V
  equal_range k [] = []
  equal_range k ((j, v) ∷ t) = let rest = equal_range k t in if k == j then v ∷ rest else rest

  pub find-append :
      (k : ℕ) (s t : Table V)
      → find k (s ++ t) ≡ elim (find k s) [ none ↦ find k t | some v ↦ some v ]
  find-append k [] t = refl
  find-append k ((j, v) ∷ s) t = ground (arith, find-append k s t)

  pub find-erase :
      (j k : ℕ) (t : Table V) → find j (erase k t) ≡ (if k == j then none else find j t)
  find-erase j k [] = ground arith
  find-erase j k ((i, v) ∷ t) = ground (arith, find-erase j k t)

  pub find-emplace_self :
      (k : ℕ) (v : V) (t : Table V) → find k t ≡ none → find k (emplace k v t) ≡ some v
  find-emplace_self k v t h = ground (arith, find-append k t ((k, v) ∷ []))

  pub find-emplace_ne : (j k : ℕ) (v : V) (t : Table V) → j ≢ k → find j (emplace k v t) ≡ find j t
  find-emplace_ne j k v t h = ground (arith, find-append j t ((k, v) ∷ []))

  pub find-assign :
      (j k : ℕ) (v : V) (t : Table V)
      → find j (assign k v t) ≡ (if k == j then some v else find j t)
  find-assign j k v [] = ground arith
  find-assign j k v ((i, w) ∷ t) = ground (arith, find-assign j k v t)

  pub equal_range-append :
      (k : ℕ) (s t : Table V) → equal_range k (s ++ t) ≡ equal_range k s ++ equal_range k t
  equal_range-append k [] t = refl
  equal_range-append k ((j, v) ∷ s) t = ground (arith, equal_range-append k s t)

  pub equal_range-erase :
      (j k : ℕ) (t : Table V) → equal_range j (erase k t) ≡ (if k == j then [] else equal_range j t)
  equal_range-erase j k [] = ground arith
  equal_range-erase j k ((i, v) ∷ t) = ground (arith, equal_range-erase j k t)
