-- ===== src/Base/DictPerm.antt =====
-- Two maps with the same answers have the same entries, in some order.
use mathlib.Core.Path.{Path, subst, ◌≡◌, refl, sym, ap, ◌∙◌}
use mathlib.Core.Bool.{Bool, true}
use mathlib.Core.List.{List, [], ◌∷◌, Perm, Permᴰ}
use mathlib.Core.List.Perm
use mathlib.Core.List.Permᴰ
use mathlib.Core.Option.{none, some, some-injective}
use mathlib.Core.Logic.{inl, inr, ∥∥₁_map, ∥∥₁_elim}
use Prim.Native.Nat.{suc}
use native.Mathlib.Nat.{ℕ_set}
use native.Mathlib.Omega.{arith}
use discovery.Base.Tests.{Bool-cases, if◌then◌else◌}
use discovery.Base.Lists.{length}
use discovery.Base.Text.{Bytes, same_text, same_text_iff}
use discovery.Base.Dict.{Dict, lookup, erase, Distinct, lookup-erase}
use discovery.Base.DictLaws.{erase-Distinct}

module _ {V : Type 0} where
  erase_absent : (k : Bytes) (m : Dict V) → lookup k m ≡ none → erase k m ≡ m
  unfolding lookup erase
  erase_absent k [] h = refl
  erase_absent k ((j, v) ∷ m) h = elim (Bool-cases (same_text j k)) [
    | inl same ↦ cc (rw same at h)
    | inr other ↦ rw other (ap (◌∷◌ (j, v)) (erase_absent k m (rw other at h)))
  ]

  -- An entry can be taken to the front.
  lookup_front :
      (k : Bytes) (v : V) (m : Dict V)
      → Distinct m
      → lookup k m ≡ some v
      → Perm m ((k, v) ∷ erase k m)
  unfolding lookup erase
  lookup_front k v [] d h = cc
  lookup_front k v ((j, w) ∷ m) d h = elim (Bool-cases (same_text j k)) [
    | inl same ↦
        let at_key : j ≡ k = (same_text_iff j k).0 same in
        let found : w ≡ v = some-injective w v (rw same at h) in
        let front : Path (Bytes × V) (j, w) (k, v) = λ i. (at_key i, found i) in
        rw (same, erase_absent k m (subst (λ x. lookup x m ≡ none) at_key d.0))
          (∣ Permᴰ.cons front (Permᴰ.refl m) ∣₁)
    | inr other ↦ rw other (
        Perm.trans (Perm.cons (j, w) (lookup_front k v m d.1 (rw other at h)))
          (Perm.swap (k, v) (j, w) (erase k m)))
  ]

  rest_answers :
      (j k : Bytes) (v : V) (m m' : Dict V)
      → lookup j m ≡ none
      → lookup k ((j, v) ∷ m) ≡ lookup k m'
      → lookup k m ≡ lookup k (erase j m')
  unfolding lookup
  rest_answers j k v m m' absent same =
      ground (arith, same_text_iff j k, absent, same, lookup-erase j k m')

  pub same_answers-Perm :
      (m m' : Dict V)
      → Distinct m
      → Distinct m'
      → ((k : Bytes) → lookup k m ≡ lookup k m')
      → Perm m m'
  unfolding lookup
  same_answers-Perm [] [] d d' same = Perm.nil
  same_answers-Perm [] ((j, v) ∷ m') d d' same =
      let here = same j in
      absurd (let itself = (same_text_iff j j).1 refl in ground (arith, here, itself))
  same_answers-Perm ((j, v) ∷ m) m' d d' same =
      let itself : same_text j j ≡ true = (same_text_iff j j).1 refl in
      let found : lookup j m' ≡ some v = sym (same j) ∙ (rw itself refl) in
      Perm.trans
        (Perm.cons (j, v)
          (same_answers-Perm m (erase j m') d.1 (erase-Distinct j m' d')
            (λ k. rest_answers j k v m m' d.0 (same k))))
        (Perm.symm (lookup_front j v m' d' found))

  -- The values that a test accepts, in the order of the entries.
  abbrev pub pick : (V → Bool) → Dict V → List V
  pick f [] = []
  pick f ((k, v) ∷ m) = if f v then v ∷ pick f m else pick f m

  module _ (f : V → Bool) where
    kept : V → List V → List V
    kept v vs = if f v then v ∷ vs else vs

    kept-Permᴰ : {v w : V} {vs ws : List V} → v ≡ w → Permᴰ vs ws → Permᴰ (kept v vs) (kept w ws)
    unfolding kept
    kept-Permᴰ {v} {w} e p = elim (Bool-cases (f w)) [
      | inl has ↦ rw (ap f e, has) (Permᴰ.cons e p)
      | inr lacks ↦ rw (ap f e, lacks) p
    ]

    kept_swap : (v w : V) (vs : List V) → Permᴰ (kept v (kept w vs)) (kept w (kept v vs))
    unfolding kept
    kept_swap v w vs = elim (Bool-cases (f v)) [
      | inr lacks ↦ rw lacks (Permᴰ.refl _)
      | inl has ↦ elim (Bool-cases (f w)) [
        | inr lacks ↦ rw (has, lacks) (Permᴰ.refl (v ∷ vs))
        | inl also ↦ rw (has, also) (Permᴰ.swap refl refl)
      ]
    ]

  pick-Permᴰ : (f : V → Bool) {m m' : Dict V} → Permᴰ m m' → Permᴰ (pick f m) (pick f m')
  unfolding kept
  pick-Permᴰ f Permᴰ.nil = Permᴰ.nil
  pick-Permᴰ f (Permᴰ.cons e p) = kept-Permᴰ f (ap (λ (x : Bytes × V). x.1) e) (pick-Permᴰ f p)
  pick-Permᴰ f (Permᴰ.swap {a = a} {b = b} {l = l} e e') =
      Permᴰ.trans (kept_swap f a.1 b.1 (pick f l)) (
        kept-Permᴰ f (ap (λ (x : Bytes × V). x.1) e')
          (kept-Permᴰ f (ap (λ (x : Bytes × V). x.1) e) (Permᴰ.refl (pick f l))))
  pick-Permᴰ f (Permᴰ.trans p q) = Permᴰ.trans (pick-Permᴰ f p) (pick-Permᴰ f q)

  pub pick-Perm : (f : V → Bool) (m m' : Dict V) → Perm m m' → Perm (pick f m) (pick f m')
  pick-Perm f m m' p = ∥∥₁_map {B = Permᴰ (pick f m) (pick f m')} p (pick-Permᴰ f)

module _ {A : Type 0} where
  length-Permᴰ : {l l' : List A} → Permᴰ l l' → length l ≡ length l'
  length-Permᴰ Permᴰ.nil = refl
  length-Permᴰ (Permᴰ.cons e p) = ap suc (length-Permᴰ p)
  length-Permᴰ (Permᴰ.swap e e') = refl
  length-Permᴰ (Permᴰ.trans p q) = length-Permᴰ p ∙ length-Permᴰ q

  pub length-Perm : (l l' : List A) → Perm l l' → length l ≡ length l'
  length-Perm l l' p = ∥∥₁_elim p (ℕ_set (length l) (length l')) length-Permᴰ
