-- ===== src/Prelude/TextOrder.antt =====
-- The order of std::string, by which std::map sorts its keys: lexicographic, byte by byte.
use mathlib.Core.Path.{◌≡◌, refl}
use mathlib.Core.Bool.{Bool, true, false, ◌&&◌, ◌||◌}
use mathlib.Core.List.{[], ◌∷◌}
use native.Mathlib.Omega.{arith}
use onvif_srvd_cmake.Prelude.Tests.{ltb, ◌==◌}
use onvif_srvd_cmake.Prelude.Strings.{Text, str_eq}

abbrev pub str_lt : Text → Text → Bool
str_lt [] [] = false
str_lt [] (b ∷ t) = true
str_lt (a ∷ s) [] = false
str_lt (a ∷ s) (b ∷ t) = ltb a b || (a == b && str_lt s t)

pub str_lt_irrefl : (s : Text) → str_lt s s ≡ false
str_lt_irrefl [] = refl
str_lt_irrefl (a ∷ s) = ground (arith, str_lt_irrefl s)

pub str_lt_trans : (s t u : Text) → str_lt s t ≡ true → str_lt t u ≡ true → str_lt s u ≡ true
str_lt_trans [] [] u h k = ground arith
str_lt_trans [] (b ∷ t) [] h k = ground arith
str_lt_trans [] (b ∷ t) (c ∷ u) h k = refl
str_lt_trans (a ∷ s) [] u h k = ground arith
str_lt_trans (a ∷ s) (b ∷ t) [] h k = ground arith
str_lt_trans (a ∷ s) (b ∷ t) (c ∷ u) h k = ground (arith, str_lt_trans s t u)

-- Of two different texts one comes first.
pub str_lt_total : (s t : Text) → str_eq s t ≡ false → str_lt s t ≡ false → str_lt t s ≡ true
str_lt_total [] [] h k = ground arith
str_lt_total [] (b ∷ t) h k = ground arith
str_lt_total (a ∷ s) [] h k = refl
str_lt_total (a ∷ s) (b ∷ t) h k = ground (arith, str_lt_total s t)
