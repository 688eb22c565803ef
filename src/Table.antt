-- ===== src/Table.antt =====
-- A table that refuses an item which is not valid and one whose key it has: what the context is for
-- profiles, and RTSPStream for streams.
use onvif_srvd_cmake.Prelude.{
  Text, Option, some, Bool, true, List, ◌∷◌, ◌≡◌, refl, not, ◌&&◌, arith, any, is_some, str_eq,
  str_eq_iff, Bool-cases, inl, inr, if◌then◌else◌,
}

pub record Table : Type 1 where
  pub Item : Type 0
  pub State : Type 0
  pub key : Item → Text
  pub is_valid : Item → Bool
  pub lookup : Text → State → Option Item
  pub add : Item → State → State × Bool
  pub add-accepted :
      (x : Item) (s : State) → (add x s).1 ≡ (is_valid x && not (is_some (lookup (key x) s)))
  pub lookup-add :
      (x : Item) (s : State) (k : Text)
      → lookup k (add x s).0 ≡ (if (add x s).1 && str_eq (key x) k then some x else lookup k s)

abbrev pub among : List Text → Text → Bool
among us t = any (λ u. str_eq u t) us

module _ (t : Table) where
  open t use {Item, State, key, lookup, add}

  -- Keys that are found stay found.
  abbrev pub IsLarger : State → State → Type 0
  IsLarger s s' = (k : Text) (x : Item) → lookup k s ≡ some x → lookup k s' ≡ some x

  pub add-IsLarger : (x : Item) (s : State) → (add x s).1 ≡ true → IsLarger s (add x s).0
  add-IsLarger x s added k y e =
      ground (arith, t.add-accepted x s, t.lookup-add x s k, added, e, str_eq_iff (key x) k)

  pub lookup-add_own :
      (x : Item) (s : State) → (add x s).1 ≡ true → lookup (key x) (add x s).0 ≡ some x
  lookup-add_own x s added =
      ground (arith, t.lookup-add x s (key x), added, str_eq_iff (key x) (key x))

  -- The keys of the table are those that were seen.
  abbrev pub Keys : State → List Text → Type 0
  Keys s seen = (k : Text) → is_some (lookup k s) ≡ among seen k

  pub add-Keys :
      (x : Item) (s : State) (seen : List Text)
      → Keys s seen
      → (add x s).1 ≡ true
      → Keys (add x s).0 (key x ∷ seen)
  add-Keys x s seen keys added k = elim (Bool-cases (str_eq (key x) k)) [
    | inl same ↦ rw (t.lookup-add x s k, added, same) refl
    | inr other ↦ rw (t.lookup-add x s k, added, other) (keys k)
  ]
