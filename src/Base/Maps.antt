-- ===== src/Base/Maps.antt =====
-- `std::unordered_map<std::string, V>` as a list of its entries. The program iterates over one
-- such map only, and puts it in order first, so the order of the entries does not matter.
use mathlib.Core.Path.{◌≡◌, refl}
use mathlib.Core.Bool.{Bool, true, false}
use mathlib.Core.List.{List, [], ◌∷◌, map}
use mathlib.Core.Option.{Option, none, some}
use native.Mathlib.Omega.{arith}
use sys_net_mon.Base.Tests.{Bytes, ltb, ◌==◌, str_eq, str_eq_iff, if◌then◌else◌}

abbrev pub Dict {ℓ} : Type ℓ → Type ℓ
Dict V = List (Bytes × V)

-- `std::less<std::string>`
unfoldable pub str_less : Bytes → Bytes → Bool
str_less [] [] = false
str_less [] (d ∷ t) = true
str_less (c ∷ s) [] = false
str_less (c ∷ s) (d ∷ t) = if c == d then str_less s t else ltb c d

module _ {ℓ} {V : Type ℓ} where
  unfoldable pub lookup : Bytes → Dict V → Option V
  lookup k [] = none
  lookup k ((j, v) ∷ m) = if str_eq j k then some v else lookup k m

  -- `m[k] = v`
  unfoldable pub insert : Bytes → V → Dict V → Dict V
  insert k v [] = (k, v) ∷ []
  insert k v ((j, w) ∷ m) = if str_eq j k then (j, v) ∷ m else (j, w) ∷ insert k v m

  pub lookup-insert :
      (k j : Bytes) (v : V) (m : Dict V)
      → lookup j (insert k v m) ≡ (if str_eq k j then some v else lookup j m)
  unfolding lookup insert
  lookup-insert k j v [] = refl
  lookup-insert k j v ((i, w) ∷ m) =
      ground (arith, str_eq_iff k j, str_eq_iff i k, str_eq_iff i j, lookup-insert k j v m)

  -- `std::map`: an entry is put before the first one whose key is not less
  place : Bytes × V → Dict V → Dict V
  place (k, v) [] = (k, v) ∷ []
  place (k, v) ((j, w) ∷ m) = if str_less j k then (j, w) ∷ place (k, v) m else (k, v) ∷ (j, w) ∷ m

  sorted : Dict V → Dict V
  unfolding place
  sorted [] = []
  sorted (entry ∷ m) = place entry (sorted m)

  -- the values of the map, in the order of the keys
  unfoldable pub ordered : Dict V → List V
  unfolding sorted
  ordered m = map (λ entry. entry.1) (sorted m)
