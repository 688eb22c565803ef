-- ===== src/Profile/Setters.antt =====
-- What the setters of a profile establish, and what a valid profile is.
use onvif_srvd_cmake.Prelude.{
  ◌≤◌, ◌<◌, ◌^◌, Text, ℤ, pos, negsuc, true, false, [], ◌≡◌, ◌⊎◌, refl, arith, minus_one, bytes,
  Bool, inl, inr, Bool-cases, ◌&&◌, ◌||◌, pos_part, neg_part, ltb_ℤ, leb_ℤ, if◌then◌else◌, ◌≢◌,
}
use onvif_srvd_cmake.Prelude.Stream.{extract_int, decimal_ℤ}
use onvif_srvd_cmake.Prelude.Stream.RoundTrip.{extract_int-decimal_ℤ}
use onvif_srvd_cmake.Profile.{StreamProfile, set_width, set_height, is_valid}

abbrev pub InRange : ℤ → Type 0
InRange z = (neg_part z ≡ 0) × (100 ≤ pos_part z) × (pos_part z < 10000)

-- A dimension is unset, or lies in the range that the setters accept.
abbrev pub IsDimension : ℤ → Type 0
IsDimension z = (z ≡ minus_one) ⊎ InRange z

-- The invariant of a profile: both dimensions are unset or in range.
pub record HasDimensions (p : StreamProfile) : Type 0 where
  pub width : IsDimension p.width
  pub height : IsDimension p.height

abbrev pub IsInt : ℤ → Type 0
IsInt z = (pos_part z < 2 ^ 31) × (neg_part z ≤ 2 ^ 31)

-- What a setter makes of the number z: the profile with it, or the one with the error text.
abbrev pub stored_or : ℤ → StreamProfile → StreamProfile → StreamProfile × Bool
stored_or z stored refused =
    if leb_ℤ (pos 100) z && ltb_ℤ z (pos 10000) then (stored, true) else (refused, false)

-- An int z that is written in decimal, with its sign, is stored as the width or the height exactly
-- when 100 ≤ z < 10000, and nothing else of the profile changes; otherwise it is refused, and only
-- the error text changes.
pub set_dimensions-decimal :
    (old z : ℤ) (p : StreamProfile)
    → IsInt z
    → (set_width old (decimal_ℤ z) p
        ≡ stored_or z
            (record p { width = z })
            (record p { str_err = bytes "width is bad, correct range: 100-10000" }))
      × (set_height old (decimal_ℤ z) p
          ≡ stored_or z
              (record p { height = z })
              (record p { str_err = bytes "height is bad, correct range: 100-10000" }))
unfolding set_width set_height
set_dimensions-decimal old z p (h, g) = (
  rw (extract_int-decimal_ℤ old z h g, set_width) (ground arith),
  rw (extract_int-decimal_ℤ old z h g, set_height) (ground arith),
)

-- The test of both setters passes in range only.
accepted : (z : ℤ) → (ltb_ℤ z (pos 100) || leb_ℤ (pos 10000) z) ≡ false → InRange z
accepted (pos n) h = (refl, ground arith, ground arith)
accepted (negsuc n) h = ground arith

module _ {p : StreamProfile} (d : HasDimensions p) where
  pub set_width-HasDimensions : (old : ℤ) (s : Text) → HasDimensions (set_width old s p).0
  unfolding set_width
  set_width-HasDimensions old s =
      elim (Bool-cases
        (ltb_ℤ (extract_int old s) (pos 100) || leb_ℤ (pos 10000) (extract_int old s))) [
          | inl bad ↦ rw (bad, set_width) (record { width = d.width; height = d.height })
          | inr good ↦
              rw (good, set_width)
                (record { width = inr (accepted (extract_int old s) good); height = d.height })
        ]

  pub set_height-HasDimensions : (old : ℤ) (s : Text) → HasDimensions (set_height old s p).0
  unfolding set_height
  set_height-HasDimensions old s =
      elim (Bool-cases
        (ltb_ℤ (extract_int old s) (pos 100) || leb_ℤ (pos 10000) (extract_int old s))) [
          | inl bad ↦ rw (bad, set_height) (record { width = d.width; height = d.height })
          | inr good ↦
              rw (good, set_height)
                (record { width = d.width; height = inr (accepted (extract_int old s) good) })
        ]

-- A valid profile whose dimensions are unset or in range has both in range.
pub is_valid-InRange :
    (p : StreamProfile)
    → HasDimensions p
    → is_valid p ≡ true
    → InRange p.width × InRange p.height × (p.name ≢ []) × (p.url ≢ [])
unfolding is_valid
is_valid-InRange p d v = (ground arith, ground arith, ground arith, ground arith)
