-- ===== src/Context/TimeZone/Offsets.antt =====
-- What the offset of the time zone becomes in the text.
use onvif_srvd_cmake.Prelude.{
  ℕ, zero, suc, ◌+◌, ◌*◌, ◌/◌, ◌%◌, ◌<◌, Text, ℤ, pos, negsuc, opposite, neg_ℤ, [], ◌∷◌, ◌++◌, ◌≡◌,
  refl, arith, ap, sym, ◌∙◌, bytes,
}
use onvif_srvd_cmake.Prelude.Stream.{decimal}
use onvif_srvd_cmake.Context.{
  TimeZoneFormat, tz_utc_offset, tz_gmt_offset, tz_utc, tz_gmt, tz_env, tz_onvif_env,
}
use onvif_srvd_cmake.Context.TimeZone.{
  Environment, hh_format, mm_format, hours, minutes, time_zone, padded,
}

neg_opposite : (n : ℕ) → neg_ℤ (opposite n) ≡ pos n
neg_opposite zero = refl
neg_opposite (suc n) = refl

hours_neg : (off : ℤ) → hours (neg_ℤ off) ≡ neg_ℤ (hours off)
unfolding hours
hours_neg (pos zero) = refl
hours_neg (pos (suc n)) = refl
hours_neg (negsuc n) = sym (neg_opposite (suc n / 3600))

minutes_neg : (off : ℤ) → minutes (neg_ℤ off) ≡ minutes off
unfolding minutes
minutes_neg (pos zero) = refl
minutes_neg (pos (suc n)) = omega arith
minutes_neg (negsuc n) = omega arith

-- The two formats of Greenwich are those of universal time for the opposite offset, as the comment
-- in the source has it; the formats with a prefix are those without, behind "UTC" and "GMT".
pub time_zone_signs :
    (env : Environment) (off : ℤ)
    → (time_zone env off tz_gmt_offset ≡ time_zone env (neg_ℤ off) tz_utc_offset)
      × (time_zone env off tz_utc ≡ bytes "UTC" ++ time_zone env off tz_utc_offset)
      × (time_zone env off tz_gmt ≡ bytes "GMT" ++ time_zone env (neg_ℤ off) tz_utc_offset)
unfolding time_zone
time_zone_signs env off =
    (rw (hours_neg off, minutes_neg off), refl, rw (hours_neg off, minutes_neg off))

-- The two digits of a number below 100.
abbrev pub two_digits : ℕ → Text
two_digits n = (b'0' + n / 10) ∷ (b'0' + n % 10) ∷ []

padded-decimal : (n : ℕ) → n < 100 → padded 2 (decimal n) ≡ two_digits n
unfolding decimal
padded-decimal zero h = refl
padded-decimal (suc n) h = ground arith

hours_east : (h m : ℕ) → m < 60 → hours (pos (h * 3600 + m * 60)) ≡ pos h
unfolding hours
hours_east h m b = ap pos (omega arith)

minutes_east : (h m : ℕ) → minutes (pos (h * 3600 + m * 60)) ≡ 0
unfolding minutes
minutes_east h m = omega arith

mm_format_zero : mm_format 0 ≡ bytes ":00"
unfolding mm_format decimal bytes
mm_format_zero = refl

hh_format_pos : (h : ℕ) → h < 100 → hh_format (pos h) ≡ b'+' ∷ two_digits h
unfolding hh_format
hh_format_pos h b = ap (λ t. b'+' ∷ t) (padded-decimal h b)

hh_format-opposite : (h : ℕ) → h < 100 → 0 < h → hh_format (opposite h) ≡ b'-' ∷ two_digits h
unfolding hh_format
hh_format-opposite zero b p = elim p [ ]
hh_format-opposite (suc h) b p = ap (λ t. b'-' ∷ t) (padded-decimal (suc h) b)

abbrev pub offset_text : ℕ → ℕ → Text
offset_text sign h = sign ∷ (two_digits h ++ bytes ":00")

-- The texts of an offset to the east and of that to the west, in the four formats that have one.
abbrev pub IsAnnounced : Environment → ℤ → ℤ → Text → Text → Type 0
IsAnnounced env east west ahead behind =
    (time_zone env east tz_utc_offset ≡ ahead)
    × (time_zone env west tz_utc_offset ≡ behind)
    × (time_zone env east tz_gmt_offset ≡ behind)
    × (time_zone env west tz_gmt_offset ≡ ahead)
    × (time_zone env east tz_utc ≡ bytes "UTC" ++ ahead)
    × (time_zone env west tz_utc ≡ bytes "UTC" ++ behind)
    × (time_zone env east tz_gmt ≡ bytes "GMT" ++ behind)
    × (time_zone env west tz_gmt ≡ bytes "GMT" ++ ahead)

neg_neg : (z : ℤ) → neg_ℤ (neg_ℤ z) ≡ z
neg_neg (pos zero) = refl
neg_neg (pos (suc n)) = refl
neg_neg (negsuc n) = refl

all_formats :
    (env : Environment) (east : ℤ) (ahead behind : Text)
    → time_zone env east tz_utc_offset ≡ ahead
    → time_zone env (neg_ℤ east) tz_utc_offset ≡ behind
    → IsAnnounced env east (neg_ℤ east) ahead behind
all_formats env east ahead behind p q =
    let (g, u, v) = time_zone_signs env east in
    let (g', u', v') = time_zone_signs env (neg_ℤ east) in
    let back : time_zone env (neg_ℤ (neg_ℤ east)) tz_utc_offset ≡ ahead =
      ap (λ z. time_zone env z tz_utc_offset) (neg_neg east) ∙ p in
    (
      p,
      q,
      g ∙ q,
      g' ∙ back,
      u ∙ ap (λ t. bytes "UTC" ++ t) p,
      u' ∙ ap (λ t. bytes "UTC" ++ t) q,
      v ∙ ap (λ t. bytes "GMT" ++ t) q,
      v' ∙ ap (λ t. bytes "GMT" ++ t) back,
    )

two_hours :
    (env : Environment) (h m : ℕ)
    → h < 99
    → m < 60
    → (time_zone env (pos ((h + 1) * 3600 + m * 60)) tz_utc_offset ≡ offset_text b'+' (h + 1))
      × (time_zone env (neg_ℤ (pos ((h + 1) * 3600 + m * 60))) tz_utc_offset
          ≡ offset_text b'-' (h + 1))
unfolding time_zone
two_hours env h m b b' =
    let off = pos ((h + 1) * 3600 + m * 60) in
    (
      rw (
        hours_east (h + 1) m b',
        minutes_east (h + 1) m,
        mm_format_zero,
        hh_format_pos (h + 1) (omega arith),
      ),
      rw
          (
            hours_neg off,
            minutes_neg off,
            hours_east (h + 1) m b',
            minutes_east (h + 1) m,
            mm_format_zero,
          )
          (rw (hh_format-opposite (h + 1) (omega arith) (omega arith))),
    )

less_than_hour :
    (env : Environment) (m : ℕ)
    → m < 60
    → (time_zone env (pos (0 * 3600 + m * 60)) tz_utc_offset ≡ offset_text b'+' 0)
      × (time_zone env (neg_ℤ (pos (0 * 3600 + m * 60))) tz_utc_offset ≡ offset_text b'+' 0)
unfolding time_zone
less_than_hour env m b' =
    let off = pos (0 * 3600 + m * 60) in
    (
      rw (hours_east 0 m b', minutes_east 0 m, mm_format_zero, hh_format_pos 0 (omega arith)),
      rw (hours_neg off, minutes_neg off, hours_east 0 m b', minutes_east 0 m, mm_format_zero)
          (rw (hh_format_pos 0 (omega arith))),
    )

-- An offset of 1 to 99 hours and m minutes is announced without its minutes: with the sign, the hours
-- in two digits and ":00", behind "UTC" and "GMT" in the formats of that name, "+" to the east and
-- "-" to the west in the two formats of universal time, and the other way round in the two of
-- Greenwich. One of less than an hour is announced as "+00:00", behind the same prefixes.
pub time_zone-two_digits :
    (env : Environment) (h m : ℕ)
    → h < 99
    → m < 60
    → IsAnnounced env
        (pos ((h + 1) * 3600 + m * 60))
        (neg_ℤ (pos ((h + 1) * 3600 + m * 60)))
        (offset_text b'+' (h + 1))
        (offset_text b'-' (h + 1))
      × IsAnnounced env
          (pos (0 * 3600 + m * 60))
          (neg_ℤ (pos (0 * 3600 + m * 60)))
          (offset_text b'+' 0)
          (offset_text b'+' 0)
time_zone-two_digits env h m b b' =
    let (east, west) = two_hours env h m b b' in
    let (little, other) = less_than_hour env m b' in
    (
      all_formats env (pos ((h + 1) * 3600 + m * 60)) _ _ east west,
      all_formats env (pos (0 * 3600 + m * 60)) _ _ little other,
    )

-- The text is made of the hours and the minutes alone.
time_zone_parts :
    (env : Environment) (a b : ℤ) (f : TimeZoneFormat)
    → hours a ≡ hours b
    → minutes a ≡ minutes b
    → time_zone env a f ≡ time_zone env b f
unfolding time_zone
time_zone_parts env a b tz_utc_offset p q = rw (p, q)
time_zone_parts env a b tz_gmt_offset p q = rw (p, q)
time_zone_parts env a b tz_utc p q = rw (p, q)
time_zone_parts env a b tz_gmt p q = rw (p, q)
time_zone_parts env a b tz_env p q = refl
time_zone_parts env a b tz_onvif_env p q = refl

-- The minutes of an offset to the east are lost in every format: the text is that of the whole hours
-- below it.
pub time_zone_loses_minutes :
    (env : Environment) (h m : ℕ) (f : TimeZoneFormat)
    → m < 60
    → time_zone env (pos (h * 3600 + m * 60)) f ≡ time_zone env (pos (h * 3600 + 0 * 60)) f
time_zone_loses_minutes env h m f b =
    time_zone_parts env (pos (h * 3600 + m * 60)) (pos (h * 3600 + 0 * 60)) f
      (hours_east h m b ∙ sym (hours_east h 0 (omega arith)))
      (minutes_east h m ∙ sym (minutes_east h 0))
