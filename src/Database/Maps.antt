-- ===== src/Database/Maps.antt =====
-- std::map with string keys: the list of its entries, in the order of the keys.
use sever_code.Prelude.{◌≡◌, Bool, true, false, not, ◌||◌, ◌&&◌, Option, none, some, List, [], ◌∷◌}
use sever_code.Prelude.{Bytes, same, ltb, ◌==◌, if◌then◌else◌, keep}

-- `operator<` on strings.
unfoldable pub less : Bytes → Bytes → Bool
less [] [] = false
less [] (y ∷ ys) = true
less (x ∷ xs) [] = false
less (x ∷ xs) (y ∷ ys) = ltb x y || (x == y && less xs ys)

unfoldable pub listed : Bytes → List Bytes → Bool
listed k [] = false
listed k (n ∷ ns) = same k n || listed k ns

module _ {V : Type 0} where
  unfoldable pub find : Bytes → List (Bytes × V) → Option V
  find k [] = none
  find k ((j, v) ∷ m) = if same j k then some v else find k m

  -- `m[k] = v`.
  unfoldable pub assign : Bytes → V → List (Bytes × V) → List (Bytes × V)
  unfolding less
  assign k v [] = (k, v) ∷ []
  assign k v ((j, w) ∷ m) =
      if same j k
      then (k, v) ∷ m
      else if less k j
      then (k, v) ∷ (j, w) ∷ m
      else (j, w) ∷ assign k v m

  -- `m.insert({k, v})` keeps what stands under the key.
  unfoldable pub insert : Bytes → V → List (Bytes × V) → List (Bytes × V)
  unfolding find assign
  insert k v m = elim (find k m) [ none ↦ assign k v m | some w ↦ m ]

  unfoldable pub erase : Bytes → List (Bytes × V) → List (Bytes × V)
  erase k [] = []
  erase k ((j, w) ∷ m) = if same j k then m else (j, w) ∷ erase k m

  -- No key stands twice.
  abbrev pub Distinct : List (Bytes × V) → Type 0
  Distinct [] = Unit {0}
  Distinct ((k, v) ∷ m) = (find k m ≡ none) × Distinct m

  -- The entries whose keys are none of the names.
  unfoldable pub unlisted : List Bytes → List (Bytes × V) → List (Bytes × V)
  unfolding listed keep
  unlisted ns m = keep (λ (e : Bytes × V). not (listed e.0 ns)) m
