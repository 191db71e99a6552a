-- ===== src/Base/Dict.antt =====
-- `std::unordered_map` from strings, as the list of its entries. The order of the entries stands for
-- the unspecified order in which the map is walked.
use mathlib.Core.Path.{◌≡◌, refl}
use mathlib.Core.Bool.{Bool}
use mathlib.Core.List.{List, [], ◌∷◌}
use mathlib.Core.Option
use mathlib.Core.Option.{Option, none, some}
use native.Mathlib.Omega.{arith}
use discovery.Base.Tests.{if◌then◌else◌}
use discovery.Base.Options.{◌>>=◌}
use discovery.Base.Text.{Bytes, same_text, same_text_iff}

abbrev pub Dict : Type 0 → Type 0
Dict V = List (Bytes × V)

module _ {V : Type 0} where
  -- find
  unfoldable pub lookup : Bytes → Dict V → Option V
  lookup k [] = none
  lookup k ((j, v) ∷ m) = if same_text j k then some v else lookup k m

  -- m[k] = v
  unfoldable pub insert : Bytes → V → Dict V → Dict V
  insert k v [] = (k, v) ∷ []
  insert k v ((j, w) ∷ m) = if same_text j k then (j, v) ∷ m else (j, w) ∷ insert k v m

  -- A change through the pointer that `find` returned.
  unfoldable pub adjust : Bytes → (V → V) → Dict V → Dict V
  adjust k f [] = []
  adjust k f ((j, v) ∷ m) = if same_text j k then (j, f v) ∷ m else (j, v) ∷ adjust k f m

  unfoldable pub erase : Bytes → Dict V → Dict V
  erase k [] = []
  erase k ((j, v) ∷ m) = let rest = erase k m in if same_text j k then rest else (j, v) ∷ rest

  unfoldable pub map_values : (V → V) → Dict V → Dict V
  map_values f [] = []
  map_values f ((j, v) ∷ m) = (j, f v) ∷ map_values f m

  unfoldable pub keep_values : (V → Bool) → Dict V → Dict V
  keep_values p [] = []
  keep_values p ((j, v) ∷ m) = let rest = keep_values p m in if p v then (j, v) ∷ rest else rest

  -- Each key stands once.
  abbrev pub Distinct : Dict V → Type 0
  Distinct [] = Unit {0}
  Distinct ((j, v) ∷ m) = (lookup j m ≡ none) × Distinct m

  abbrev pub keep : (V → Bool) → V → Option V
  keep p v = if p v then some v else none

  pub lookup-insert :
      (k j : Bytes) (v : V) (m : Dict V)
      → lookup j (insert k v m) ≡ (if same_text k j then some v else lookup j m)
  unfolding lookup insert
  lookup-insert k j v [] = refl
  lookup-insert k j v ((i, w) ∷ m) =
      ground (arith, same_text_iff k j, same_text_iff i k, same_text_iff i j, lookup-insert k j v m)

  pub lookup-adjust :
      (k j : Bytes) (f : V → V) (m : Dict V)
      → lookup j (adjust k f m) ≡ (if same_text k j then Option.map f (lookup j m) else lookup j m)
  unfolding lookup adjust
  lookup-adjust k j f [] = ground arith
  lookup-adjust k j f ((i, w) ∷ m) =
      ground (arith, same_text_iff k j, same_text_iff i k, same_text_iff i j, lookup-adjust k j f m)

  pub lookup-erase :
      (k j : Bytes) (m : Dict V)
      → lookup j (erase k m) ≡ (if same_text k j then none else lookup j m)
  unfolding lookup erase
  lookup-erase k j [] = ground arith
  lookup-erase k j ((i, w) ∷ m) =
      ground (arith, same_text_iff k j, same_text_iff i k, same_text_iff i j, lookup-erase k j m)

  pub lookup-map_values :
      (f : V → V) (j : Bytes) (m : Dict V) → lookup j (map_values f m) ≡ Option.map f (lookup j m)
  unfolding lookup map_values
  lookup-map_values f j [] = refl
  lookup-map_values f j ((i, w) ∷ m) = ground (arith, lookup-map_values f j m)

  pub keep_values_absent :
      (p : V → Bool) (j : Bytes) (m : Dict V)
      → lookup j m ≡ none
      → lookup j (keep_values p m) ≡ none
  unfolding lookup keep_values
  keep_values_absent p j [] h = refl
  keep_values_absent p j ((i, w) ∷ m) h = ground (arith, keep_values_absent p j m)

  pub lookup-keep_values :
      (p : V → Bool) (j : Bytes) (m : Dict V)
      → Distinct m
      → lookup j (keep_values p m) ≡ (lookup j m >>= keep p)
  unfolding lookup keep_values
  lookup-keep_values p j [] d = refl
  lookup-keep_values p j ((i, w) ∷ m) d =
      ground (arith, same_text_iff i j, keep_values_absent p i m, lookup-keep_values p j m d.1)
