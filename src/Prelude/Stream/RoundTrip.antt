-- ===== src/Prelude/Stream/RoundTrip.antt =====
-- A number that is written in decimal is read back.
use Prim.Native.Nat.{ℕ, zero, suc, ◌+◌, ◌/◌, ◌%◌, ◌^◌, ◌≤◌, ◌<◌}
use mathlib.Core.Path.{◌≡◌}
use mathlib.Core.Logic.{inl, inr}
use mathlib.Core.List.{[], ◌∷◌}
use native.Mathlib.Omega.{arith}
use onvif_srvd_cmake.Prelude.Tests.{ltb, Bool-cases}
use onvif_srvd_cmake.Prelude.Int.{ℤ, pos, negsuc, pos_part, neg_part}
use onvif_srvd_cmake.Prelude.Strings.{Text}
use onvif_srvd_cmake.Prelude.Stream.{digits, extract_int, decimal_from, decimal, decimal_ℤ, skip_ws}

-- Reading on after the digits of `n` continues with `n`.
digits-decimal_from :
    (fuel n : ℕ) (rest : Text) → n < fuel → digits 0 (decimal_from fuel n rest) ≡ digits n rest
unfolding digits decimal_from
digits-decimal_from zero n rest h = elim h [ ]
digits-decimal_from (suc fuel) n rest h =
    ground (arith, digits-decimal_from fuel (n / 10) ((b'0' + n % 10) ∷ rest))

decimal_from_head :
    (fuel n : ℕ) (rest : Text)
    → n < fuel
    → (c : ℕ) × (t : Text) × (decimal_from fuel n rest ≡ c ∷ t) × (b'0' ≤ c) × (c ≤ b'9')
unfolding decimal_from
decimal_from_head zero n rest h = elim h [ ]
decimal_from_head (suc fuel) n rest h = elim (Bool-cases (ltb n 10)) [
  | inl small ↦ (b'0' + n, rest, rw small, omega arith, ground arith)
  | inr large ↦
      let ih = decimal_from_head fuel (n / 10) ((b'0' + n % 10) ∷ rest) (ground arith) in
      (ih.0, ih.1, rw large ih.2, ih.3, ih.4)
]

-- An int that is written in decimal is read back, whatever the variable held.
pub extract_int-decimal : (old : ℤ) (n : ℕ) → n < 2 ^ 31 → extract_int old (decimal n) ≡ pos n
unfolding extract_int decimal
extract_int-decimal old n h =
    let (c, t, e, lo, hi) = decimal_from_head (suc n) n [] (omega arith) in
    rw (e, extract_int) (ground (arith, e, digits-decimal_from (suc n) n []))

digits-decimal : (n : ℕ) → digits 0 (decimal n) ≡ n
unfolding decimal digits
digits-decimal n = digits-decimal_from (suc n) n [] (omega arith)

extract_minus :
    (old : ℤ) (t : Text) (n : ℕ)
    → digits 0 t ≡ suc n
    → suc n ≤ 2 ^ 31
    → extract_int old (b'-' ∷ t) ≡ negsuc n
unfolding extract_int skip_ws
extract_minus old t n e h = rw e (ground (arith, h))

-- The same with a sign.
pub extract_int-decimal_ℤ :
    (old z : ℤ) → pos_part z < 2 ^ 31 → neg_part z ≤ 2 ^ 31 → extract_int old (decimal_ℤ z) ≡ z
unfolding decimal_ℤ
extract_int-decimal_ℤ old (pos n) h g = extract_int-decimal old n h
extract_int-decimal_ℤ old (negsuc n) h g =
    extract_minus old (decimal (suc n)) n (digits-decimal (suc n)) g
