-- ===== src/Startup/Ready/Kept.antt =====
-- What each loop of processing_cfg, and set_tz_format, leave well formed.
use onvif_srvd_cmake.Prelude.{
  ℕ, Text, ℤ, some, true, List, [], ◌∷◌, ◌≡◌, refl, ◌∙◌, Option-cases, arith, c_str, Bool-cases,
  inl, inr,
}
use onvif_srvd_cmake.Eth.{EthDevParam}
use onvif_srvd_cmake.Profile.{
  StreamProfile, set_name, set_width, set_height, set_url, set_snapurl, set_type, clear,
}
use onvif_srvd_cmake.Profile.Setters.{
  HasDimensions, set_width-HasDimensions, set_height-HasDimensions,
}
use onvif_srvd_cmake.Context.{ServiceContext, add_profile, set_tz_format, tz_of}
use onvif_srvd_cmake.Prelude.Stream.{extract_unsigned}
use onvif_srvd_cmake.Context.Profiles.{IsWellFormed, add_profile-IsWellFormed}
use onvif_srvd_cmake.Rtsp
use onvif_srvd_cmake.Rtsp.{RtspStreamConfig, RtspStream, add_stream, new_config}
use onvif_srvd_cmake.Rtsp.Streams.{IsWellFormed as IsTable, add_stream-IsWellFormed}
use onvif_srvd_cmake.Daemon.{Daemon, DaemonInfo, is_valid, save_config}
use onvif_srvd_cmake.Startup.Filling.{Holds}
use onvif_srvd_cmake.Startup.{
  ProfileSetting, StreamSetting, configure_profile, configure_stream, profiles_loop, streams_loop,
}

-- Other fields than the dimensions do not matter.
pub clear-HasDimensions : (p : StreamProfile) → HasDimensions (clear p)
unfolding clear
clear-HasDimensions p = record { width = inl refl; height = inl refl }

same_dimensions :
    (p q : StreamProfile)
    → q.width ≡ p.width
    → q.height ≡ p.height
    → HasDimensions p
    → HasDimensions q
same_dimensions p q w h d = record { width = rw w d.width; height = rw h d.height }

set_type_width :
    (t : Text) (p : StreamProfile)
    → ((set_type t p).0.width ≡ p.width) × ((set_type t p).0.height ≡ p.height)
unfolding set_type
set_type_width t p = (ground arith, ground arith)

configure_profile-HasDimensions :
    (old : ProfileSetting → ℤ × ℤ) (s : ProfileSetting) (p : StreamProfile)
    → HasDimensions p
    → HasDimensions (configure_profile old s p)
unfolding configure_profile set_name set_url set_snapurl
configure_profile-HasDimensions old s p d =
    let p1 = (set_name (some (c_str s.name)) p).0 in
    let d1 : HasDimensions p1 = same_dimensions p p1 refl refl d in
    let p2 = (set_width (old s).0 (c_str s.width) p1).0 in
    let d2 : HasDimensions p2 = set_width-HasDimensions d1 (old s).0 (c_str s.width) in
    let p3 = (set_height (old s).1 (c_str s.height) p2).0 in
    let d3 : HasDimensions p3 = set_height-HasDimensions d2 (old s).1 (c_str s.height) in
    let p4 = (set_url (some (c_str s.url)) p3).0 in
    let p5 = (set_snapurl (some (c_str s.snap_url)) p4).0 in
    let (w, h) = set_type_width (c_str s.type) p5 in
    same_dimensions p3 (set_type (c_str s.type) p5).0 w h d3

add_profile_keeps :
    (q : StreamProfile) (c : ServiceContext)
    → ((add_profile q c).0.eth_ifs ≡ c.eth_ifs) × ((add_profile q c).0.scopes ≡ c.scopes)
unfolding add_profile
add_profile_keeps q c = (ground arith, ground arith)

-- A well-formed context with these interfaces and scopes.
abbrev pub IsKept : List EthDevParam → List Text → ServiceContext → Type 0
IsKept ifs scopes c = IsWellFormed c × (c.eth_ifs ≡ ifs) × (c.scopes ≡ scopes)

pub profiles_loop-IsKept :
    (old : ProfileSetting → ℤ × ℤ) (ss : List ProfileSetting) (p : StreamProfile)
    (c : ServiceContext) (ifs : List EthDevParam) (scopes : List Text)
    → HasDimensions p
    → IsKept ifs scopes c
    → Holds (IsKept ifs scopes) (profiles_loop old ss p c)
unfolding profiles_loop
profiles_loop-IsKept old [] p c ifs scopes d w = w
profiles_loop-IsKept old (s ∷ ss) p c ifs scopes d (w, e, u) =
    let q = configure_profile old s p in
    elim (Bool-cases (add_profile q c).1) [
      | inl added ↦
          rw (added, profiles_loop)
            (profiles_loop-IsKept old ss (clear q) (add_profile q c).0 ifs scopes
              (clear-HasDimensions q)
              (
                add_profile-IsWellFormed q c (configure_profile-HasDimensions old s p d) w,
                (add_profile_keeps q c).0 ∙ e,
                (add_profile_keeps q c).1 ∙ u,
              ))
      | inr refused ↦ rw (refused, profiles_loop) tt
    ]

pub set_tz_format-keeps :
    (o : ℕ) (t : Text) (c : ServiceContext) (ifs : List EthDevParam) (scopes : List Text)
    → IsKept ifs scopes c
    → IsKept ifs scopes (set_tz_format o t c).0
unfolding set_tz_format
set_tz_format-keeps o t c ifs scopes (w, e, u) =
    elim (Option-cases (tz_of (extract_unsigned o t))) [
      | inl bad ↦ rw (bad, set_tz_format) (record { sorted = w.sorted; stored = w.stored }, e, u)
      | inr (f, good) ↦
          rw (good, set_tz_format) (record { sorted = w.sorted; stored = w.stored }, e, u)
    ]

pub saved-is_valid :
    (i : DaemonInfo) (d : Daemon)
    → (save_config i d).1 ≡ true
    → is_valid (save_config i d).0.daemon_config ≡ true
unfolding save_config
saved-is_valid i d h = ground arith

pub streams_loop-IsWellFormed :
    (ss : List StreamSetting) (r : RtspStreamConfig) (t : RtspStream)
    → IsTable t
    → Holds IsTable (streams_loop ss r t)
unfolding streams_loop
streams_loop-IsWellFormed [] r t w = w
streams_loop-IsWellFormed (s ∷ ss) r t w =
    let q = configure_stream s r in
    elim (Bool-cases (add_stream q t).1) [
      | inl added ↦
          rw (added, streams_loop)
            (streams_loop-IsWellFormed ss (Rtsp.clear q) (add_stream q t).0
              (add_stream-IsWellFormed q t w))
      | inr refused ↦ rw (refused, streams_loop) tt
    ]
