-- ===== src/Prelude/Stream.antt =====
-- Reading numbers from a std::istringstream and writing them to a std::ostringstream, in the
-- decimal base of a fresh stream and the classic locale.
pub mod RoundTrip
use Prim.Native.Nat.{ℕ, zero, suc, ◌+◌, ◌-◌, ◌*◌, ◌/◌, ◌%◌, ◌^◌}
use mathlib.Core.Bool.{Bool, true, false, ◌&&◌, ◌||◌}
use mathlib.Core.List.{List, [], ◌∷◌, ◌++◌}
use onvif_srvd_cmake.Prelude.Tests.{ltb, leb, ◌==◌, if◌then◌else◌}
use onvif_srvd_cmake.Prelude.Int.{ℤ, pos, negsuc, opposite, minus_one, eqb_ℤ}
use onvif_srvd_cmake.Prelude.Strings.{Text}

abbrev pub is_space : ℕ → Bool
is_space c = c == 32 || (leb 9 c && leb c 13)

abbrev pub is_digit : ℕ → Bool
is_digit c = leb b'0' c && leb c b'9'

unfoldable pub skip_ws : Text → Text
skip_ws [] = []
skip_ws (c ∷ s) = if is_space c then skip_ws s else c ∷ s

-- The value of the leading digits, after those that are worth `acc`.
unfoldable pub digits : ℕ → Text → ℕ
digits acc [] = acc
digits acc (c ∷ s) = if is_digit c then digits (acc * 10 + (c - b'0')) s else acc

abbrev pub int_max : ℕ
int_max = 2 ^ 31 - 1

-- A value out of range is replaced by the nearest int.
abbrev pub saturate : Bool → ℕ → ℤ
saturate false n = if leb n int_max then pos n else pos int_max
saturate true n = if leb n (2 ^ 31) then opposite n else negsuc int_max

abbrev pub wrap_unsigned : Bool → ℕ → ℕ
wrap_unsigned false n = if ltb n (2 ^ 32) then n else 2 ^ 32 - 1
wrap_unsigned true n = if ltb n (2 ^ 32) then (2 ^ 32 - n) % 2 ^ 32 else 2 ^ 32 - 1

-- The text after the sign, and the sign: true for a minus.
abbrev pub read_signed {ℓ} : {A : Type ℓ} → (Bool → ℕ → A) → Text → A
read_signed k [] = k false 0
read_signed k (c ∷ s) =
    if c == b'-'
    then k true (digits 0 s)
    else if c == b'+'
    then k false (digits 0 s)
    else k false (digits 0 (c ∷ s))

-- `int v; ss >> v;` with `old` the value of `v` before. On a stream with nothing but white space
-- the operator stops before it writes `v`; where there are no digits it writes 0.
unfoldable pub extract_int : ℤ → Text → ℤ
unfolding skip_ws digits
extract_int old s = elim (skip_ws s) [ [] ↦ old | c ∷ t ↦ read_signed saturate (c ∷ t) ]

-- `unsigned v; ss >> v;`
unfoldable pub extract_unsigned : ℕ → Text → ℕ
unfolding skip_ws digits
extract_unsigned old s = elim (skip_ws s) [ [] ↦ old | c ∷ t ↦ read_signed wrap_unsigned (c ∷ t) ]

-- The decimal digits of `n`, in front of `rest`; `fuel` above `n` suffices.
unfoldable pub decimal_from : ℕ → ℕ → Text → Text
decimal_from zero n rest = rest
decimal_from (suc fuel) n rest =
    let more = decimal_from fuel (n / 10) ((b'0' + n % 10) ∷ rest) in
    if ltb n 10 then (b'0' + n) ∷ rest else more

-- std::to_string of a number, and `os << n`.
unfoldable pub decimal : ℕ → Text
unfolding decimal_from
decimal n = decimal_from (suc n) n []

unfoldable pub decimal_ℤ : ℤ → Text
unfolding decimal
decimal_ℤ (pos n) = decimal n
decimal_ℤ (negsuc n) = b'-' ∷ decimal (suc n)
