-- ===== src/Context/TimeZone.antt =====
-- The time of the device: get_time_zone, get_DateTime and get_SystemDateAndTime of
-- src/ServiceContext.cpp. The C library's clock, `struct tm` and environment are arguments.
pub mod Offsets
use onvif_srvd_cmake.Prelude.{
  ℕ, zero, suc, ◌+◌, ◌-◌, ◌/◌, ◌%◌, Text, ℤ, pos, negsuc, opposite, neg_ℤ, abs_ℤ, Option, none,
  some, Bool, List, [], ◌∷◌, ◌++◌, length, bytes, ltb_ℤ,
}
use onvif_srvd_cmake.Prelude.Stream.{decimal}
use onvif_srvd_cmake.Context.{
  TimeZoneFormat, tz_utc_offset, tz_gmt_offset, tz_utc, tz_gmt, tz_env, tz_onvif_env,
  ServiceContext,
}

-- What the program reads of `struct tm`; `tm_mon` counts from 0 and `tm_year` from 1900.
pub record Tm : Type 0 where
  pub tm_sec : ℕ
  pub tm_min : ℕ
  pub tm_hour : ℕ
  pub tm_mday : ℕ
  pub tm_mon : ℕ
  pub tm_year : ℕ
  pub tm_isdst : ℤ
  pub tm_gmtoff : ℤ

-- getenv("TZ") and getenv("TZ_ONVIF")
pub record Environment : Type 0 where
  pub tz : Option Text
  pub tz_onvif : Option Text

-- Division and remainder of C, which round towards zero; the remainder without its sign.
abbrev pub quot : ℤ → ℕ → ℤ
quot (pos n) d = pos (n / d)
quot (negsuc n) d = opposite (suc n / d)

abbrev pub abs_rem : ℤ → ℕ → ℕ
abs_rem z d = abs_ℤ z % d

abbrev pub zeros : ℕ → Text
zeros zero = []
zeros (suc n) = b'0' ∷ zeros n

-- setw(width) with setfill('0') and internal, on the digits behind a sign of one byte or none.
abbrev pub padded : ℕ → Text → Text
padded width t = zeros (width - length t) ++ t

-- HH_FORMAT << hh: always a sign, at least two digits.
unfoldable pub hh_format : ℤ → Text
hh_format (pos n) = b'+' ∷ padded 2 (decimal n)
hh_format (negsuc n) = b'-' ∷ padded 2 (decimal (suc n))

-- MM_FORMAT << mm
unfoldable pub mm_format : ℕ → Text
mm_format mm = b':' ∷ padded 2 (decimal mm)

abbrev pub or_default : Option Text → Text
or_default none = bytes "UTC+00"
or_default (some t) = t

unfoldable pub hours : ℤ → ℤ
hours gmtoff = quot gmtoff 3600

unfoldable pub minutes : ℤ → ℕ
minutes gmtoff = abs_rem gmtoff 60

unfoldable pub time_zone : Environment → ℤ → TimeZoneFormat → Text
time_zone env off tz_utc_offset = hh_format (hours off) ++ mm_format (minutes off)
time_zone env off tz_gmt_offset = hh_format (neg_ℤ (hours off)) ++ mm_format (minutes off)
time_zone env off tz_utc = bytes "UTC" ++ (hh_format (hours off) ++ mm_format (minutes off))
time_zone env off tz_gmt = bytes "GMT" ++ (hh_format (neg_ℤ (hours off)) ++ mm_format (minutes off))
time_zone env off tz_env = or_default env.tz
time_zone env off tz_onvif_env = or_default env.tz_onvif

-- get_time_zone, with `now` the local time
unfoldable pub get_time_zone : Environment → Tm → ServiceContext → Text
get_time_zone env now c = time_zone env now.tm_gmtoff c.tz_format

-- tt__DateTime
pub record DateTime : Type 0 where
  pub hour : ℕ
  pub minute : ℕ
  pub second : ℕ
  pub year : ℕ
  pub month : ℕ
  pub day : ℕ

unfoldable pub get_date_time : Tm → DateTime
get_date_time t = record {
  hour = t.tm_hour;
  minute = t.tm_min;
  second = t.tm_sec;
  year = t.tm_year + 1900;
  month = t.tm_mon + 1;
  day = t.tm_mday;
}

-- tt__SystemDateTime, its DateTimeType being Manual
pub record SystemDateTime : Type 0 where
  pub daylight_savings : Bool
  pub time_zone : Text
  pub local_date_time : DateTime
  pub utc_date_time : DateTime

-- get_SystemDateAndTime; none where the response cannot be allocated
unfoldable pub get_system_date_and_time :
    Bool → Environment → Tm → Tm → ServiceContext → Option SystemDateTime
get_system_date_and_time allocated env now utc c = elim allocated [
  | Bool.false ↦ none
  | Bool.true ↦ some (record {
    daylight_savings = ltb_ℤ (pos 0) now.tm_isdst;
    time_zone = get_time_zone env now c;
    local_date_time = get_date_time now;
    utc_date_time = get_date_time utc;
  })
]
