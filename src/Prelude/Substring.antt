-- ===== src/Prelude/Substring.antt =====
-- std::string::find and std::string::replace.
pub mod Laws
use Prim.Native.Nat.{ℕ, zero, suc, ◌+◌}
use mathlib.Core.Bool.{Bool, true, false, ◌&&◌}
use mathlib.Core.List.{[], ◌∷◌, ◌++◌}
use mathlib.Core.Option
use mathlib.Core.Option.{Option, none, some}
use onvif_srvd_cmake.Prelude.Tests.{◌==◌, if◌then◌else◌}
use onvif_srvd_cmake.Prelude.Strings.{Text}

unfoldable pub is_prefix : Text → Text → Bool
is_prefix [] s = true
is_prefix (p ∷ pat) [] = false
is_prefix (p ∷ pat) (c ∷ s) = p == c && is_prefix pat s

-- s.find(pat, 0): none stands for npos.
unfoldable pub str_find : Text → Text → Option ℕ
unfolding is_prefix
str_find pat [] = if is_prefix pat [] then some 0 else none
str_find pat (c ∷ s) = if is_prefix pat (c ∷ s) then some 0 else Option.map suc (str_find pat s)

unfoldable pub take : ℕ → Text → Text
take zero s = []
take (suc n) [] = []
take (suc n) (c ∷ s) = c ∷ take n s

unfoldable pub drop : ℕ → Text → Text
drop zero s = s
drop (suc n) [] = []
drop (suc n) (c ∷ s) = drop n s

-- s.replace(at, n, by)
unfoldable pub str_replace : Text → ℕ → ℕ → Text → Text
unfolding take drop
str_replace s at n by = take at s ++ (by ++ drop (at + n) s)
