-- ===== src/Prelude/StdMap.antt =====
-- std::map<std::string, V>: its entries in the order of iteration, which is that of the keys.
use mathlib.Core.Path.{◌≡◌, refl, sym, subst, subst₂}
use mathlib.Core.Logic.{inl, inr}
use mathlib.Core.Bool.{true}
use mathlib.Core.List.{List, [], ◌∷◌}
use mathlib.Core.Option.{Option, none, some}
use native.Mathlib.Omega.{arith}
use onvif_srvd_cmake.Prelude.Tests.{Bool-cases, if◌then◌else◌}
use onvif_srvd_cmake.Prelude.Strings.{Text, str_eq, str_eq_iff, str_eq_sym_false}
use onvif_srvd_cmake.Prelude.TextOrder.{str_lt, str_lt_total}

abbrev pub StdMap {ℓ} : Type ℓ → Type ℓ
StdMap V = List (Text × V)

module _ {ℓ} {V : Type ℓ} where
  -- m.find(k): none stands for m.end().
  unfoldable pub find : Text → StdMap V → Option V
  find k [] = none
  find k ((j, v) ∷ m) = if str_eq j k then some v else find k m

  -- m[k] = v
  unfoldable pub assign : Text → V → StdMap V → StdMap V
  assign k v [] = (k, v) ∷ []
  assign k v ((j, w) ∷ m) =
      if str_eq j k
      then (j, v) ∷ m
      else if str_lt k j
      then (k, v) ∷ (j, w) ∷ m
      else (j, w) ∷ assign k v m

  abbrev pub IsAbove : Text → StdMap V → Type 0
  IsAbove k [] = Unit
  IsAbove k ((j, w) ∷ m) = str_lt k j ≡ true

  -- The keys ascend strictly, so that no key stands twice.
  abbrev pub IsSorted : StdMap V → Type 0
  IsSorted [] = Unit
  IsSorted ((j, w) ∷ m) = IsAbove j m × IsSorted m

  pub find-assign :
      (k j : Text) (v : V) (m : StdMap V)
      → find j (assign k v m) ≡ (if str_eq k j then some v else find j m)
  unfolding find assign
  find-assign k j v [] = refl
  find-assign k j v ((i, w) ∷ m) =
      ground (arith, str_eq_iff k j, str_eq_iff i k, str_eq_iff i j, find-assign k j v m)

  IsAbove-assign :
      (i k : Text) (v : V) (m : StdMap V)
      → str_lt i k ≡ true
      → IsAbove i m
      → IsAbove i (assign k v m)
  unfolding assign
  IsAbove-assign i k v [] h a = h
  IsAbove-assign i k v ((j, w) ∷ m) h a = ground arith

  pub IsSorted-assign : (k : Text) (v : V) (m : StdMap V) → IsSorted m → IsSorted (assign k v m)
  unfolding assign
  IsSorted-assign k v [] s = (tt, tt)
  IsSorted-assign k v ((j, w) ∷ m) (a, s) = elim (Bool-cases (str_eq j k)) [
    | inl same ↦ rw same (a, s)
    | inr other ↦ rw other (elim (Bool-cases (str_lt k j)) [
      | inl before ↦ rw before (before, (a, s))
      | inr after ↦ rw after (
        IsAbove-assign j k v m (str_lt_total k j (str_eq_sym_false j k other) after) a,
        IsSorted-assign k v m s,
      )
    ])
  ]

module _ {ℓ κ} {V : Type ℓ} (P : Text → V → Type κ) where
  -- A statement about every entry.
  abbrev pub Every : StdMap V → Type κ
  Every [] = Unit
  Every ((j, w) ∷ m) = P j w × Every m

  pub Every-assign : (k : Text) (v : V) (m : StdMap V) → P k v → Every m → Every (assign k v m)
  unfolding assign
  Every-assign k v [] p h = (p, tt)
  Every-assign k v ((j, w) ∷ m) p (q, h) = elim (Bool-cases (str_eq j k)) [
    | inl same ↦ rw same (subst (λ i. P i v) (sym ((str_eq_iff j k).0 same)) p, h)
    | inr other ↦ rw other (elim (Bool-cases (str_lt k j)) [
      | inl before ↦ rw before (p, (q, h))
      | inr after ↦ rw after (q, Every-assign k v m p h)
    ])
  ]

  -- What is found under a key satisfies what holds of every entry.
  pub Every-find : (k : Text) (v : V) (m : StdMap V) → Every m → find k m ≡ some v → P k v
  unfolding find
  Every-find k v [] h e = cc
  Every-find k v ((j, w) ∷ m) (q, h) e = elim (Bool-cases (str_eq j k)) [
    | inl same ↦ subst₂ P ((str_eq_iff j k).0 same) (ground arith) q
    | inr other ↦ Every-find k v m h (ground arith)
  ]
