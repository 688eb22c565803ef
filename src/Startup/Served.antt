-- ===== src/Startup/Served.antt =====
-- Every setting of a profile or a stream is served once its loop has ended.
use mathlib.Core.Path.{subst}
use onvif_srvd_cmake.Prelude.{
  Text, ℤ, some, List, [], ◌∷◌, ◌≡◌, ◌∙◌, arith, c_str, All, refl, sym, ap, not, if◌then◌else◌,
}
use onvif_srvd_cmake.Prelude.StdMap.{find}
use onvif_srvd_cmake.Profile.{
  StreamProfile, set_name, set_width, set_height, set_url, set_snapurl, set_type, clear,
}
use onvif_srvd_cmake.Context.{ServiceContext, add_profile}
use onvif_srvd_cmake.Context.Profiles.{profile_table}
use onvif_srvd_cmake.Startup.Filling.{Holds, Holds-map, fill, fill-Shows}
use onvif_srvd_cmake.Startup.{
  ProfileSetting, Setup, exits, cannot_add_profile, configure_profile, profiles_loop,
}

-- The profile is found under the name in the settings, with the URLs in them.
abbrev pub HasUrls : ProfileSetting → StreamProfile → Type 0
HasUrls s p = (p.url ≡ c_str s.url) × (p.snapurl ≡ c_str s.snap_url)

abbrev pub IsServed : ServiceContext → ProfileSetting → Type 0
IsServed c s = (p : StreamProfile) × (find (c_str s.name) c.profiles ≡ some p) × HasUrls s p

-- The texts that a profile has after its settings are read.
abbrev HasTexts : Text → Text → Text → StreamProfile → Type 0
HasTexts n u v p = (p.name ≡ n) × (p.url ≡ u) × (p.snapurl ≡ v)

dimensions_keep :
    (z : ℤ) (t : Text) (p : StreamProfile)
    → HasTexts p.name p.url p.snapurl (set_width z t p).0
      × HasTexts p.name p.url p.snapurl (set_height z t p).0
      × HasTexts p.name p.url p.snapurl (set_type t p).0
unfolding set_width set_height set_type
dimensions_keep z t p = (
  (ground arith, ground arith, ground arith),
  (ground arith, ground arith, ground arith),
  (ground arith, ground arith, ground arith),
)

configure_profile-HasTexts :
    (old : ProfileSetting → ℤ × ℤ) (s : ProfileSetting) (p : StreamProfile)
    → HasTexts (c_str s.name) (c_str s.url) (c_str s.snap_url) (configure_profile old s p)
unfolding configure_profile set_name set_url set_snapurl
configure_profile-HasTexts old s p =
    let p1 = (set_name (some (c_str s.name)) p).0 in
    let p2 = (set_width (old s).0 (c_str s.width) p1).0 in
    let p3 = (set_height (old s).1 (c_str s.height) p2).0 in
    let p5 = (set_snapurl (some (c_str s.snap_url)) (set_url (some (c_str s.url)) p3).0).0 in
    let (wn, _, _) = (dimensions_keep (old s).0 (c_str s.width) p1).0 in
    let (hn, _, _) = (dimensions_keep (old s).1 (c_str s.height) p2).1 in
    let (tn, tu, ts) = (dimensions_keep (old s).0 (c_str s.type) p5).2 in (tn ∙ hn ∙ wn, tu, ts)

abbrev fill_profiles :
    (ProfileSetting → ℤ × ℤ)
    → List ProfileSetting
    → StreamProfile
    → ServiceContext
    → Setup ServiceContext
fill_profiles old =
    fill profile_table (configure_profile old) clear (λ c. cannot_add_profile c.str_err)
      (λ s. c_str s.name)

pub profiles_loop-fill :
    (old : ProfileSetting → ℤ × ℤ) (ss : List ProfileSetting) (p : StreamProfile)
    (c : ServiceContext)
    → profiles_loop old ss p c ≡ fill_profiles old ss p c
unfolding profiles_loop fill
profiles_loop-fill old [] p c = refl
profiles_loop-fill old (s ∷ ss) p c =
    let q = configure_profile old s p in
    let (c', added) = add_profile q c in
    ap (λ rest. if not added then exits (cannot_add_profile c'.str_err) else rest)
      (profiles_loop-fill old ss (clear q) c')

pub profiles_loop-IsServed :
    (old : ProfileSetting → ℤ × ℤ) (ss : List ProfileSetting) (p : StreamProfile)
    (c : ServiceContext)
    → Holds (λ c'. All (IsServed c') ss) (profiles_loop old ss p c)
profiles_loop-IsServed old ss p c =
    subst (Holds (λ c'. All (IsServed c') ss)) (sym (profiles_loop-fill old ss p c)) (
      Holds-map _ (λ c'. All (IsServed c') ss) (fill_profiles old ss p c) (λ c' h. h.0)
        (fill-Shows profile_table (configure_profile old) clear _ (λ s. c_str s.name) HasUrls
          (λ s p. let (name, url, snap) = configure_profile-HasTexts old s p in (name, (url, snap)))
          ss p c))
