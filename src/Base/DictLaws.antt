-- ===== src/Base/DictLaws.antt =====
-- What the operations of a map keep: distinct keys, and a property of every entry.
use mathlib.Core.Path.{◌≡◌, refl, sym, subst}
use mathlib.Core.Bool.{Bool}
use mathlib.Core.List.{[], ◌∷◌}
use mathlib.Core.Option.{some-injective}
use mathlib.Core.Logic.{inl, inr}
use mathlib.Core.Option.{some}
use native.Mathlib.Omega.{arith}
use discovery.Base.Tests.{Bool-cases}
use discovery.Base.Text.{Bytes, same_text, same_text_iff}
use discovery.Base.Dict.{
  Dict, lookup, insert, adjust, erase, map_values, keep_values, Distinct, lookup-insert,
  lookup-adjust, lookup-erase, lookup-map_values, keep_values_absent,
}

module _ {V : Type 0} where
  pub insert-Distinct : (k : Bytes) (v : V) (m : Dict V) → Distinct m → Distinct (insert k v m)
  unfolding insert
  insert-Distinct k v [] d = unfold lookup in (refl, tt)
  insert-Distinct k v ((j, w) ∷ m) d = ground (
    arith,
    same_text_iff j k,
    same_text_iff k j,
    lookup-insert k j v m,
    insert-Distinct k v m d.1,
  )

  pub adjust-Distinct : (k : Bytes) (f : V → V) (m : Dict V) → Distinct m → Distinct (adjust k f m)
  unfolding adjust
  adjust-Distinct k f [] d = tt
  adjust-Distinct k f ((j, w) ∷ m) d =
      ground (arith, lookup-adjust k j f m, adjust-Distinct k f m d.1)

  pub erase-Distinct : (k : Bytes) (m : Dict V) → Distinct m → Distinct (erase k m)
  unfolding erase
  erase-Distinct k [] d = tt
  erase-Distinct k ((j, w) ∷ m) d = ground (arith, lookup-erase k j m, erase-Distinct k m d.1)

  pub map_values-Distinct : (f : V → V) (m : Dict V) → Distinct m → Distinct (map_values f m)
  unfolding map_values
  map_values-Distinct f [] d = tt
  map_values-Distinct f ((j, w) ∷ m) d =
      ground (arith, lookup-map_values f j m, map_values-Distinct f m d.1)

  pub keep_values-Distinct : (p : V → Bool) (m : Dict V) → Distinct m → Distinct (keep_values p m)
  unfolding keep_values
  keep_values-Distinct p [] d = tt
  keep_values-Distinct p ((j, w) ∷ m) d =
      ground (arith, keep_values_absent p j m, keep_values-Distinct p m d.1)

  -- A property of every entry.
  abbrev pub Entries : (Bytes → V → Type 0) → Dict V → Type 0
  Entries P [] = Unit {0}
  Entries P ((j, v) ∷ m) = P j v × Entries P m

module _ {V : Type 0} (P : Bytes → V → Type 0) where
  pub insert-Entries :
      (k : Bytes) (v : V) (m : Dict V) → P k v → Entries P m → Entries P (insert k v m)
  unfolding insert
  insert-Entries k v [] h a = (h, tt)
  insert-Entries k v ((j, w) ∷ m) h a = elim (Bool-cases (same_text j k)) [
    | inl e ↦ rw e (subst (λ i. P i v) (sym ((same_text_iff j k).0 e)) h, a.1)
    | inr e ↦ rw e (a.0, insert-Entries k v m h a.1)
  ]

  -- The changed entry is the one under the key.
  pub adjust-Entries :
      (k : Bytes) (f : V → V) (m : Dict V)
      → ((v : V) → P k v → P k (f v))
      → Entries P m
      → Entries P (adjust k f m)
  unfolding adjust
  adjust-Entries k f [] h a = tt
  adjust-Entries k f ((j, w) ∷ m) h a = elim (Bool-cases (same_text j k)) [
    | inl e ↦
        let at_key : j ≡ k = (same_text_iff j k).0 e in
        rw e (subst (λ i. P i (f w)) (sym at_key) (h w (subst (λ i. P i w) at_key a.0)), a.1)
    | inr e ↦ rw e (a.0, adjust-Entries k f m h a.1)
  ]

  pub erase-Entries : (k : Bytes) (m : Dict V) → Entries P m → Entries P (erase k m)
  unfolding erase
  erase-Entries k [] a = tt
  erase-Entries k ((j, w) ∷ m) a = elim (Bool-cases (same_text j k)) [
    | inl e ↦ rw e (erase-Entries k m a.1)
    | inr e ↦ rw e (a.0, erase-Entries k m a.1)
  ]

  pub map_values-Entries :
      (f : V → V) (m : Dict V)
      → ((j : Bytes) (v : V) → P j v → P j (f v))
      → Entries P m
      → Entries P (map_values f m)
  unfolding map_values
  map_values-Entries f [] h a = tt
  map_values-Entries f ((j, w) ∷ m) h a = (h j w a.0, map_values-Entries f m h a.1)

  pub keep_values-Entries : (p : V → Bool) (m : Dict V) → Entries P m → Entries P (keep_values p m)
  unfolding keep_values
  keep_values-Entries p [] a = tt
  keep_values-Entries p ((j, w) ∷ m) a = elim (Bool-cases (p w)) [
    | inl e ↦ rw e (a.0, keep_values-Entries p m a.1)
    | inr e ↦ rw e (keep_values-Entries p m a.1)
  ]

  pub lookup-Entries : (k : Bytes) (v : V) (m : Dict V) → Entries P m → lookup k m ≡ some v → P k v
  unfolding lookup
  lookup-Entries k v [] a h = cc
  lookup-Entries k v ((j, w) ∷ m) a h = elim (Bool-cases (same_text j k)) [
    | inl e ↦
        subst (λ x. P k x) (some-injective _ _ (rw e at h))
          (subst (λ i. P i w) ((same_text_iff j k).0 e) a.0)
    | inr e ↦ lookup-Entries k v m a.1 (rw e at h)
  ]
