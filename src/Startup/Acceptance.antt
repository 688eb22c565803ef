-- ===== src/Startup/Acceptance.antt =====
-- Which settings the program starts with: a description of what processing_cfg accepts.
pub mod Loops
pub mod Runs
use onvif_srvd_cmake.Prelude.{
  all, ◌≤◌, Text, ℤ, pos, negsuc, some, none, Bool, true, false, not, List, [], ◌∷◌, ◌&&◌, ◌||◌,
  ◌≡◌, refl, c_str, bytes, is_empty, is_some, str_eq, leb, ltb, eqb_ℤ, ltb_ℤ, leb_ℤ, minus_one,
  arith, if◌then◌else◌, Bool-cases, inl, inr, map, any, ◌∙◌,
}
use onvif_srvd_cmake.Prelude.Stream.{extract_int}
use onvif_srvd_cmake.Profile
use onvif_srvd_cmake.Profile.{
  StreamProfile, set_name, set_width, set_height, set_url, set_snapurl, set_type,
}
use onvif_srvd_cmake.Startup.{ProfileSetting, StreamSetting, Configuration, configure_profile}

abbrev pub is_dimension : ℤ → Bool
is_dimension (pos n) = leb 100 n && ltb n 10000
is_dimension (negsuc n) = false

abbrev pub is_encoding : Text → Bool
is_encoding t = str_eq t (bytes "JPEG") || str_eq t (bytes "MPEG4") || str_eq t (bytes "H264")

-- A profile needs a name, a URL, two dimensions and an encoding.
abbrev pub profile_accepted : (ProfileSetting → ℤ × ℤ) → ProfileSetting → Bool
profile_accepted old s =
    not (is_empty (c_str s.name))
    && not (is_empty (c_str s.url))
    && is_dimension (extract_int (old s).0 (c_str s.width))
    && is_dimension (extract_int (old s).1 (c_str s.height))
    && is_encoding (c_str s.type)

-- A stream needs a pipeline, the two ports and a URL.
abbrev pub stream_accepted : StreamSetting → Bool
stream_accepted s =
    not (is_empty (c_str s.pipeline))
    && not (is_empty (c_str s.udp_port))
    && not (is_empty (c_str s.tcp_port))
    && not (is_empty (c_str s.rtsp_url))

-- The test that the two setters make.
abbrev is_bad : ℤ → Bool
is_bad v = ltb_ℤ v (pos 100) || leb_ℤ (pos 10000) v

is_bad-is_dimension : (v : ℤ) → is_bad v ≡ not (is_dimension v)
is_bad-is_dimension (pos n) = ground arith
is_bad-is_dimension (negsuc n) = ground arith

is_dimension-is_set : (v : ℤ) → is_dimension v ≡ true → not (eqb_ℤ v minus_one) ≡ true
is_dimension-is_set (pos n) h = ground (arith, h)
is_dimension-is_set (negsuc n) h = absurd cc

set_width-is_dimension :
    (z : ℤ) (t : Text) (p : StreamProfile)
    → p.width ≡ minus_one
    → not (eqb_ℤ (set_width z t p).0.width minus_one) ≡ is_dimension (extract_int z t)
unfolding set_width
set_width-is_dimension z t p h =
    let v : ℤ = extract_int z t in
    elim (Bool-cases (is_dimension v)) [
      | inl good ↦ rw (is_bad-is_dimension v, good, set_width) (is_dimension-is_set v good)
      | inr bad ↦ rw (is_bad-is_dimension v, bad, set_width) (rw h refl)
    ]

set_height-is_dimension :
    (z : ℤ) (t : Text) (p : StreamProfile)
    → p.height ≡ minus_one
    → not (eqb_ℤ (set_height z t p).0.height minus_one) ≡ is_dimension (extract_int z t)
unfolding set_height
set_height-is_dimension z t p h =
    let v : ℤ = extract_int z t in
    elim (Bool-cases (is_dimension v)) [
      | inl good ↦ rw (is_bad-is_dimension v, good, set_height) (is_dimension-is_set v good)
      | inr bad ↦ rw (is_bad-is_dimension v, bad, set_height) (rw h refl)
    ]

set_type-is_encoding :
    (t : Text) (p : StreamProfile) → p.type ≡ none → is_some (set_type t p).0.type ≡ is_encoding t
unfolding set_type
set_type-is_encoding t p h = ground (arith, h)

abbrev pub IsUnset : StreamProfile → Type 0
IsUnset p = (p.width ≡ minus_one) × (p.height ≡ minus_one) × (p.type ≡ none)

-- What the setters leave alone.
set_width_keeps :
    (z : ℤ) (t : Text) (p : StreamProfile)
    → ((set_width z t p).0.name ≡ p.name)
      × ((set_width z t p).0.url ≡ p.url)
      × ((set_width z t p).0.height ≡ p.height)
      × ((set_width z t p).0.type ≡ p.type)
unfolding set_width
set_width_keeps z t p = (ground arith, ground arith, ground arith, ground arith)

set_height_keeps :
    (z : ℤ) (t : Text) (p : StreamProfile)
    → ((set_height z t p).0.name ≡ p.name)
      × ((set_height z t p).0.url ≡ p.url)
      × ((set_height z t p).0.width ≡ p.width)
      × ((set_height z t p).0.type ≡ p.type)
unfolding set_height
set_height_keeps z t p = (ground arith, ground arith, ground arith, ground arith)

set_type_keeps :
    (t : Text) (p : StreamProfile)
    → ((set_type t p).0.name ≡ p.name)
      × ((set_type t p).0.url ≡ p.url)
      × ((set_type t p).0.width ≡ p.width)
      × ((set_type t p).0.height ≡ p.height)
unfolding set_type
set_type_keeps t p = (ground arith, ground arith, ground arith, ground arith)

-- The profile that a setting makes is valid exactly if the setting is accepted.
pub is_valid-configure_profile :
    (old : ProfileSetting → ℤ × ℤ) (s : ProfileSetting) (p : StreamProfile)
    → IsUnset p
    → (Profile.is_valid (configure_profile old s p) ≡ profile_accepted old s)
      × ((configure_profile old s p).name ≡ c_str s.name)
unfolding configure_profile set_name set_url set_snapurl Profile.is_valid
is_valid-configure_profile old s p (w, h, y) =
    let p1 = (set_name (some (c_str s.name)) p).0 in
    let p2 = (set_width (old s).0 (c_str s.width) p1).0 in
    let p3 = (set_height (old s).1 (c_str s.height) p2).0 in
    let p5 = (set_snapurl (some (c_str s.snap_url)) (set_url (some (c_str s.url)) p3).0).0 in
    let (wn, _, wh, wy) = set_width_keeps (old s).0 (c_str s.width) p1 in
    let (hn, _, hw, hy) = set_height_keeps (old s).1 (c_str s.height) p2 in
    let (tn, tu, tw, th) = set_type_keeps (c_str s.type) p5 in
    let name = tn ∙ (hn ∙ wn) in
    let width = set_width-is_dimension (old s).0 (c_str s.width) p1 w in
    let height = set_height-is_dimension (old s).1 (c_str s.height) p2 (wh ∙ h) in
    let type = set_type-is_encoding (c_str s.type) p5 (hy ∙ (wy ∙ y)) in
    (rw (tn, hn, wn, tu, tw, hw, th, width, height, type) refl, name)
