-- ===== src/Prelude/Substring/Laws.antt =====
-- What find and replace do to a text in which a pattern occurs, and in one where it does not.
use Prim.Native.Nat.{ℕ, zero, suc, ◌+◌, ◌≤◌}
use Prim.Native.Nat.add
use mathlib.Core.Path.{◌≡◌, refl, ap, sym}
use mathlib.Core.Logic.{◌≢◌, ◌⊎◌, inl, inr}
use mathlib.Core.Bool.{true, false}
use mathlib.Core.List.{[], ◌∷◌, ◌++◌}
use mathlib.Core.Option.{none, some}
use native.Mathlib.Nat.{zero-add}
use native.Mathlib.Omega.{arith}
use onvif_srvd_cmake.Prelude.Tests.{Bool-cases, Option-cases}
use onvif_srvd_cmake.Prelude.Lists.{length}
use onvif_srvd_cmake.Prelude.Strings.{Text}
use onvif_srvd_cmake.Prelude.Substring.{is_prefix, str_find, take, drop, str_replace}

-- The pattern occurs behind no shorter text than `pre`.
abbrev pub IsFirst : Text → Text → Text → Type 0
IsFirst pat s pre = (p q : Text) → s ≡ p ++ (pat ++ q) → length pre ≤ length p

-- The pattern occurs nowhere.
abbrev pub IsFree : Text → Text → Type 0
IsFree pat s = (p q : Text) → s ≢ p ++ (pat ++ q)

is_prefix_sound : (pat s : Text) → is_prefix pat s ≡ true → (q : Text) × (s ≡ pat ++ q)
unfolding is_prefix
is_prefix_sound [] s h = (s, refl)
is_prefix_sound (p ∷ pat) [] h = (([]), cc)
is_prefix_sound (p ∷ pat) (c ∷ s) h =
    let (q, e) = is_prefix_sound pat s (ground arith) in (q, ground arith)

is_prefix-append : (pat q : Text) → is_prefix pat (pat ++ q) ≡ true
unfolding is_prefix
is_prefix-append [] q = refl
is_prefix-append (p ∷ pat) q = ground (arith, is_prefix-append pat q)

not_prefix : (pat s q : Text) → is_prefix pat s ≡ false → s ≢ pat ++ q
not_prefix pat s q h e = cc (is_prefix-append pat q, ap (is_prefix pat) e)

-- Where find finds nothing the pattern occurs nowhere.
pub str_find-IsFree : (pat s : Text) → str_find pat s ≡ none → IsFree pat s
unfolding str_find
str_find-IsFree pat [] h [] q e = not_prefix pat [] q (ground arith) e
str_find-IsFree pat [] h (x ∷ p) q e = cc
str_find-IsFree pat (c ∷ s) h [] q e = not_prefix pat (c ∷ s) q (ground arith) e
str_find-IsFree pat (c ∷ s) h (x ∷ p) q e = str_find-IsFree pat s (ground arith) p q (cc)

find_later :
    (pat : Text) (c : ℕ) (s : Text) (i : ℕ)
    → is_prefix pat (c ∷ s) ≡ false
    → str_find pat (c ∷ s) ≡ some i
    → (j : ℕ) × (str_find pat s ≡ some j) × (suc j ≡ i)
unfolding str_find
find_later pat c s i missed h = elim (Option-cases (str_find pat s)) [
  | inl nowhere ↦ ground arith
  | inr (j, there) ↦ (j, there, ground arith)
]

IsFirst-cons :
    (pat : Text) (c : ℕ) (s pre : Text)
    → is_prefix pat (c ∷ s) ≡ false
    → IsFirst pat s pre
    → IsFirst pat (c ∷ s) (c ∷ pre)
IsFirst-cons pat c s pre missed first [] q e = absurd (not_prefix pat (c ∷ s) q missed e)
IsFirst-cons pat c s pre missed first (x ∷ p) q e =
    let shorter : length pre ≤ length p = first p q (cc) in omega arith

-- Where find finds a position, the pattern stands there for the first time.
pub str_find-IsFirst :
    (pat s : Text) (i : ℕ)
    → str_find pat s ≡ some i
    → (pre post : Text) × (s ≡ pre ++ (pat ++ post)) × (length pre ≡ i) × IsFirst pat s pre
unfolding str_find
str_find-IsFirst pat [] i h = elim (Bool-cases (is_prefix pat [])) [
  | inl found ↦
      let (q, e) = is_prefix_sound pat [] found in ([], q, e, ground arith, λ p r k. omega arith)
  | inr missed ↦ cc
]
str_find-IsFirst pat (c ∷ s) i h = elim (Bool-cases (is_prefix pat (c ∷ s))) [
  | inl found ↦
      let (q, e) = is_prefix_sound pat (c ∷ s) found in
      ([], q, e, ground arith, λ p r k. omega arith)
  | inr missed ↦
      let (j, at_j, next) = find_later pat c s i missed h in
      let (pre, post, e, len, first) = str_find-IsFirst pat s j at_j in
      (c ∷ pre, post, ap (λ t. c ∷ t) e, omega arith, IsFirst-cons pat c s pre missed first)
]

take-append : (s t : Text) → take (length s) (s ++ t) ≡ s
unfolding take
take-append [] t = refl
take-append (c ∷ s) t = ap (λ r. c ∷ r) (take-append s t)

drop-append : (s t : Text) → drop (length s) (s ++ t) ≡ t
unfolding drop
drop-append [] t = refl
drop-append (c ∷ s) t = drop-append s t

drop-nil : (n : ℕ) → drop n [] ≡ []
unfolding drop
drop-nil zero = refl
drop-nil (suc n) = refl

drop_add : (m n : ℕ) (s : Text) → drop (m + n) s ≡ drop n (drop m s)
unfolding drop
drop_add zero n s = rw zero-add
drop_add (suc m) n [] = rw add.suc (sym (drop-nil n))
drop_add (suc m) n (c ∷ s) = rw add.suc (drop_add m n s)

-- Replacing an occurrence keeps what stands before and behind it.
pub str_replace_at :
    (pre pat post by : Text)
    → str_replace (pre ++ (pat ++ post)) (length pre) (length pat) by ≡ pre ++ (by ++ post)
unfolding str_replace
str_replace_at pre pat post by =
    rw (take-append pre (pat ++ post), drop_add (length pre) (length pat))
      (rw (drop-append pre (pat ++ post), drop-append pat post))

-- `r` is `s` with the first occurrence of the pattern replaced.
abbrev pub Replaced : Text → Text → Text → Text → Type 0
Replaced pat by s r =
    (pre post : Text) × (s ≡ pre ++ (pat ++ post)) × IsFirst pat s pre × (r ≡ pre ++ (by ++ post))

-- `r` is `s` where the pattern does not occur in it, else `s` with its first occurrence replaced.
abbrev pub Expands : Text → Text → Text → Text → Type 0
Expands pat by s r = (IsFree pat s × (r ≡ s)) ⊎ Replaced pat by s r

-- Replacing at the position that find gives.
pub str_replace-Replaced :
    (pat by s : Text) (i : ℕ)
    → str_find pat s ≡ some i
    → Replaced pat by s (str_replace s i (length pat) by)
str_replace-Replaced pat by s i h =
    let (pre, post, e, at, first) = str_find-IsFirst pat s i h in
    (pre, post, e, first, rw (e, ← at) (str_replace_at pre pat post by))
