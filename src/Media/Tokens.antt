-- ===== src/Media/Tokens.antt =====
-- Which tokens the media service knows, and that its handlers agree on them.
use mathlib.Core.Path.{subst}
use onvif_srvd_cmake.Prelude.{
  ℕ, Text, Option, none, some, true, [], ◌∷◌, map, ◌≡◌, refl, arith, All, ap, is_some, Option-cases,
  inl, inr, str_eq_iff, length, length-map, suc, ◌∙◌, sym,
}
use onvif_srvd_cmake.Prelude.StdMap.{StdMap, find, IsSorted, IsAbove, Every}
use onvif_srvd_cmake.Prelude.TextOrder.{str_lt, str_lt_trans, str_lt_irrefl}
use onvif_srvd_cmake.Kernel.{Kernel}
use onvif_srvd_cmake.Profile.{StreamProfile}
use onvif_srvd_cmake.Profile.Soap.{MediaProfile, get_profile}
use onvif_srvd_cmake.Context.{ServiceContext}
use onvif_srvd_cmake.Context.Servers.{Junk}
use onvif_srvd_cmake.Context.Profiles.{IsWellFormed, IsStored}
use onvif_srvd_cmake.Soap.{SoapStatus, soap_ok, soap_fault}
use onvif_srvd_cmake.Media.{
  values, handle_get_profile, handle_get_profiles, handle_get_stream_uri, handle_get_snapshot_uri,
  handle_get_compatible_video_encoder_configurations,
  handle_get_compatible_video_source_configurations,
}

abbrev pub status_of : Option StreamProfile → SoapStatus
status_of none = soap_fault
status_of (some p) = soap_ok

module _ (k : Kernel) (junk : Junk) (ip : ℕ) (w : k.World) (token : Text) (c : ServiceContext) where
  -- The handlers that take a profile token agree on it: each returns SOAP_FAULT where no profile is
  -- stored under the token and SOAP_OK where one is, and GetProfile, GetStreamUri and GetSnapshotUri
  -- have a response exactly where one is.
  pub token_status :
      ((handle_get_profile token c).0 ≡ status_of (find token c.profiles))
      × (is_some (handle_get_profile token c).1 ≡ is_some (find token c.profiles))
      × ((handle_get_stream_uri k junk ip w token c).0 ≡ status_of (find token c.profiles))
      × (is_some (handle_get_stream_uri k junk ip w token c).1 ≡ is_some (find token c.profiles))
      × ((handle_get_snapshot_uri k junk ip w token c).0 ≡ status_of (find token c.profiles))
      × (is_some (handle_get_snapshot_uri k junk ip w token c).1 ≡ is_some (find token c.profiles))
      × ((handle_get_compatible_video_encoder_configurations token c).0
          ≡ status_of (find token c.profiles))
      × ((handle_get_compatible_video_source_configurations token c).0
          ≡ status_of (find token c.profiles))
  unfolding handle_get_profile handle_get_stream_uri handle_get_snapshot_uri
      handle_get_compatible_video_encoder_configurations
      handle_get_compatible_video_source_configurations
  token_status = elim (Option-cases (find token c.profiles)) [
    | inl e ↦ (
      rw (e, handle_get_profile),
      rw (e, handle_get_profile),
      rw (e, handle_get_stream_uri),
      rw (e, handle_get_stream_uri),
      rw (e, handle_get_snapshot_uri),
      rw (e, handle_get_snapshot_uri),
      rw (e, handle_get_compatible_video_encoder_configurations),
      rw (e, handle_get_compatible_video_source_configurations),
    )
    | inr (p, e) ↦ (
      rw (e, handle_get_profile),
      rw (e, handle_get_profile),
      rw (e, handle_get_stream_uri),
      rw (e, handle_get_stream_uri),
      rw (e, handle_get_snapshot_uri),
      rw (e, handle_get_snapshot_uri),
      rw (e, handle_get_compatible_video_encoder_configurations),
      rw (e, handle_get_compatible_video_source_configurations),
    )
  ]

IsAbove-trans :
    (k j : Text) (m : StdMap StreamProfile) → str_lt k j ≡ true → IsAbove j m → IsAbove k m
IsAbove-trans k j [] a b = tt
IsAbove-trans k j ((i, p) ∷ m) a b = str_lt_trans k j i a b

length-values : (m : StdMap StreamProfile) → length (values m) ≡ length m
length-values [] = refl
length-values ((k, p) ∷ m) = ap suc (length-values m)

-- In a sorted table every entry is found under its key, also behind smaller keys.
AllFound : StdMap StreamProfile → StdMap StreamProfile → Type 0
AllFound m [] = Unit
AllFound m ((k, p) ∷ rest) = (find k m ≡ some p) × AllFound m rest

AllFound-cons :
    (j : Text) (q : StreamProfile) (m rest : StdMap StreamProfile)
    → IsAbove j rest
    → IsSorted rest
    → AllFound m rest
    → AllFound ((j, q) ∷ m) rest
unfolding AllFound find
AllFound-cons j q m [] a s h = tt
AllFound-cons j q m ((k, p) ∷ rest) a (b, s) (here, later) = (
  ground (arith, here, str_lt_irrefl k, str_eq_iff j k),
  AllFound-cons j q m rest (IsAbove-trans j k rest a b) s later,
)

all_found : (m : StdMap StreamProfile) → IsSorted m → AllFound m m
unfolding AllFound find
all_found [] s = tt
all_found ((k, p) ∷ m) (a, s) =
    (ground (arith, str_eq_iff k k), AllFound-cons k p m m a s (all_found m s))

-- Each profile that GetProfiles lists is the one that GetProfile returns for its token.
abbrev pub IsConsistent : ServiceContext → MediaProfile → Type 0
IsConsistent c p = handle_get_profile p.token c ≡ (soap_ok, some p)

get_profile-find :
    (c : ServiceContext) (token : Text) (p : StreamProfile)
    → find token c.profiles ≡ some p
    → handle_get_profile token c ≡ (soap_ok, some (get_profile c.ptz_node.enable p))
unfolding handle_get_profile
get_profile-find c token p e = rw (e, handle_get_profile)

listed :
    (c : ServiceContext) (m : StdMap StreamProfile)
    → AllFound c.profiles m
    → Every IsStored m
    → All (IsConsistent c) (map (get_profile c.ptz_node.enable) (values m))
unfolding AllFound get_profile
listed c [] f s = tt
listed c ((k, p) ∷ m) (here, later) (st, ss) = (
  get_profile-find c p.name p (subst (λ t. find t c.profiles ≡ some p) (sym st.named) here),
  listed c m later ss,
)

-- On a well-formed context GetProfiles succeeds with as many profiles as are stored, and each that it
-- lists is the one that GetProfile returns for the token of that profile.
pub get_profiles-IsConsistent :
    (c : ServiceContext)
    → IsWellFormed c
    → ((handle_get_profiles c).0 ≡ soap_ok)
      × (length (handle_get_profiles c).1 ≡ length c.profiles)
      × All (IsConsistent c) (handle_get_profiles c).1
unfolding handle_get_profiles
get_profiles-IsConsistent c w = (
  refl,
  length-map (get_profile c.ptz_node.enable) (values c.profiles) ∙ length-values c.profiles,
  listed c c.profiles (all_found c.profiles w.sorted) w.stored,
)
