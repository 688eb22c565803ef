-- ===== src/Startup/Filling.antt =====
-- The shape that the two loops of processing_cfg share: each setting makes an item from what is left
-- of the one before it, and the item goes into a table.
use mathlib.Core.Path.{ap₂, subst}
use onvif_srvd_cmake.Prelude.{
  Text, some, Bool, true, false, not, List, [], ◌∷◌, ◌&&◌, ◌≡◌, refl, ap, sym, ◌∙◌, map, all, arith,
  All, Bool-cases, inl, inr, if◌then◌else◌,
}
use onvif_srvd_cmake.Table.{Table, among, IsLarger, add-IsLarger, lookup-add_own, Keys, add-Keys}
use onvif_srvd_cmake.Startup.{Setup, exits, goes_on, Reason}

abbrev pub Holds : {A : Type 0} → (A → Type 0) → Setup A → Type 0
Holds P (exits r) = Unit
Holds P (goes_on a) = P a

pub Holds-map :
    {A : Type 0} (P Q : A → Type 0) (x : Setup A) → ((a : A) → P a → Q a) → Holds P x → Holds Q x
Holds-map P Q (exits r) f h = tt
Holds-map P Q (goes_on a) f h = f a h

pub Holds-both :
    {A : Type 0} (P Q : A → Type 0) (x : Setup A) → Holds P x → Holds Q x → Holds (λ a. P a × Q a) x
Holds-both P Q (exits r) h g = tt
Holds-both P Q (goes_on a) h g = (h, g)

abbrev pub starts : {A : Type 0} → Setup A → Bool
starts (exits r) = false
starts (goes_on a) = true

-- No text stands twice, nor stands in `seen`.
abbrev pub all_new : List Text → List Text → Bool
all_new seen [] = true
all_new seen (t ∷ ts) = not (among seen t) && all_new (t ∷ seen) ts

-- A round that is accepted leaves the answer to the rest; one that is refused decides it.
accepted_round : (a m A B : Bool) → (a && not m) ≡ true → (A && B) ≡ ((a && A) && (not m && B))
accepted_round a m A B h = ground (arith, h)

refused_round : (a m A B : Bool) → (a && not m) ≡ false → false ≡ ((a && A) && (not m && B))
refused_round a m A B h = ground (arith, h)

module _ (t : Table) {S : Type 0} (configure : S → t.Item → t.Item) (clear : t.Item → t.Item)
    (refused : t.State → Reason) (name : S → Text) where
  open t use {Item, State, key, is_valid, lookup, add}

  unfoldable pub fill : List S → Item → State → Setup State
  fill [] x st = goes_on st
  fill (s ∷ ss) x st =
      let y = configure s x in
      let (st', added) = add y st in
      let rest = fill ss (clear y) st' in if not added then exits (refused st') else rest

  -- The table keeps what the loop puts into it.
  module _ (IsMade : S → Item → Type 0)
      (made : (s : S) (x : Item) → (key (configure s x) ≡ name s) × IsMade s (configure s x)) where
    abbrev pub Shows : State → S → Type 0
    Shows st s = (x : Item) × (lookup (name s) st ≡ some x) × IsMade s x

    shown_own :
        (s : S) (x : Item) (st : State)
        → (add (configure s x) st).1 ≡ true
        → Shows (add (configure s x) st).0 s
    shown_own s x st added =
        let y = configure s x in
        let (named, h) = made s x in
        (y, subst (λ k. lookup k (add y st).0 ≡ some y) named (lookup-add_own t y st added), h)

    pub fill-Shows :
        (ss : List S) (x : Item) (st : State)
        → Holds (λ st'. All (Shows st') ss × IsLarger t st st') (fill ss x st)
    unfolding fill
    fill-Shows [] x st = (tt, λ k y e. e)
    fill-Shows (s ∷ ss) x st =
        let y = configure s x in
        let st1 = (add y st).0 in
        elim (Bool-cases (add y st).1) [
          | inl added ↦
              let (z, found, h) = shown_own s x st added in
              rw (added, fill)
                (Holds-map (λ st'. All (Shows st') ss × IsLarger t st1 st')
                  (λ st'. (Shows st' s × All (Shows st') ss) × IsLarger t st st')
                  (fill ss (clear y) st1)
                  (λ st' (later, larger). (
                    ((z, larger (name s) z found, h), later),
                    λ k u e. larger k u (add-IsLarger t y st added k u e),
                  ))
                  (fill-Shows ss (clear y) st1))
          | inr refused ↦ rw (refused, fill) tt
        ]

  -- The loop ends well exactly if every setting is accepted and their names are new.
  module _ (IsUnset : Item → Type 0) (accepted : S → Bool)
      (cleared : (x : Item) → IsUnset (clear x))
      (valid : (s : S) (x : Item)
        → IsUnset x
        → (is_valid (configure s x) ≡ accepted s) × (key (configure s x) ≡ name s)) where
    pub fill-starts :
        (ss : List S) (x : Item) (st : State) (seen : List Text)
        → IsUnset x
        → Keys t st seen
        → starts (fill ss x st) ≡ (all accepted ss && all_new seen (map name ss))
    unfolding fill
    fill-starts [] x st seen unset keys = refl
    fill-starts (s ∷ ss) x st seen unset keys =
        let y = configure s x in
        let (good, named) = valid s x unset in
        let rest = all accepted ss in
        let new = all_new (name s ∷ seen) (map name ss) in
        let known = among seen (name s) in
        let test =
          t.add-accepted y st
          ∙ (ap₂ (λ a b. a && not b) good (keys (key y) ∙ ap (among seen) named)) in
        elim (Bool-cases (add y st).1) [
          | inl added ↦
              let keys' =
                subst (λ n. Keys t (add y st).0 (n ∷ seen)) named
                  (add-Keys t y st seen keys added) in
              rw (added, fill)
                (fill-starts ss (clear y) (add y st).0 (name s ∷ seen) (cleared y) keys'
                  ∙ accepted_round (accepted s) known rest new (sym test ∙ added))
          | inr bad ↦ rw (bad, fill) (refused_round (accepted s) known rest new (sym test ∙ bad))
        ]
