-- ===== src/Startup/Loading/Groups.antt =====
-- What the settings hold once the file is read.
use mathlib.Core.Path.{subst}
use onvif_srvd_cmake.Startup.Loading.Returns.{Returns, returned, Returns-bind, Returns-map, behind}
use onvif_srvd_cmake.Prelude.{Text, some, List, [], ◌∷◌, ◌≡◌, refl, sym, ◌∙◌, bytes, arith}
use onvif_srvd_cmake.Startup.{ProfileSetting, StreamSetting}
use onvif_srvd_cmake.Startup.Loading.{
  destroy_loader, Settings, profile_setting, scope_setting, stream_setting, load_daemon_info,
  load_service_options, load_all_settings, load_configuration, default_settings,
}
use onvif_srvd_cmake.Startup.Loading.Loader.{
  LibConfig, Loaded, loaded, ◌>>=◌, get_array, load_items, opened, config_loader,
}

module _ (l : LibConfig) where
  -- The group of a profile: what its name and its URLs are in the file.
  pub record IsGroupOf (s : l.Setting) (p : ProfileSetting) : Type 0 where
    pub name : l.text_value s (bytes "name") ≡ some p.name
    pub url : l.text_value s (bytes "url") ≡ some p.url
    pub snap_url : l.text_value s (bytes "snapUrl") ≡ some p.snap_url

  profile_setting-IsGroupOf :
      (s : l.Setting) (p : ProfileSetting) → profile_setting l s ≡ loaded p → IsGroupOf s p
  unfolding profile_setting ◌>>=◌
  profile_setting-IsGroupOf s p h = ground (arith)

  -- The three arrays, as load_all_settings reads them.
  abbrev pub scopes_of : l.Config → Settings → Loaded (List Text)
  scopes_of c s = get_array l (scope_setting l) c (bytes "scopes") s.configuration.scopes

  abbrev pub profiles_of : l.Config → Settings → Loaded (List ProfileSetting)
  profiles_of c s = get_array l (profile_setting l) c (bytes "profiles") s.configuration.profiles

  abbrev pub streams_of : l.Config → Settings → Loaded (List StreamSetting)
  streams_of c s =
      get_array l (stream_setting l) c (bytes "rtspStreams") s.configuration.rtsp_streams

  get_array_found :
      {A : Type 0} (convert : l.Setting → Loaded A) (c : l.Config) (key : Text) (var : List A)
      (g : l.Setting)
      → l.lookup c key ≡ some g
      → get_array l convert c key var ≡ load_items convert (l.items g)
  unfolding get_array
  get_array_found convert c key var g e = rw (e, get_array) refl

  -- The profiles are those of the groups in the file.
  abbrev pub FromGroups : l.Setting → Settings → Type 0
  FromGroups g r = load_items (profile_setting l) (l.items g) ≡ loaded r.configuration.profiles

  loaded_profiles :
      (c : l.Config) (s : Settings) (g : l.Setting)
      → l.lookup c (bytes "profiles") ≡ some g
      → Returns (FromGroups g) (load_all_settings l c s)
  unfolding load_all_settings
  loaded_profiles c s g e = Returns-bind (FromGroups g) (load_daemon_info l c s) _ (λ s1 _.
      Returns-bind (FromGroups g) (load_service_options l c s1) _ (λ s2 _.
        Returns-bind (FromGroups g) (scopes_of c s2) _ (λ scopes _.
          Returns-bind (FromGroups g) (profiles_of c s2) _ (λ profiles same.
            Returns-bind (FromGroups g) (streams_of c s2) _ (λ streams _.
              returned (FromGroups g) _ (
                sym (
                  get_array_found (profile_setting l) c (bytes "profiles") s2.configuration.profiles
                    g e)
                ∙ same))))))

  load_from :
      (path : Text) (c : l.Config)
      → l.read_file path ≡ opened c
      → load_configuration l (some path)
        ≡ (load_all_settings l c default_settings >>= (λ s. loaded (destroy_loader s)))
  unfolding load_configuration config_loader ◌>>=◌
  load_from path c e = rw (e, config_loader) refl

  pub Returns-load :
      (P : Settings → Type 0) (path : Text) (c : l.Config)
      → l.read_file path ≡ opened c
      → Returns (λ s. P (destroy_loader s)) (load_all_settings l c default_settings)
      → Returns P (load_configuration l (some path))
  Returns-load P path c e h = subst (Returns P) (sym (load_from path c e)) (
      Returns-bind P (load_all_settings l c default_settings) _ (λ s same.
        returned P (destroy_loader s)
          (behind (λ s. P (destroy_loader s)) (load_all_settings l c default_settings) s h same)))

  -- The profiles that are read from the groups, in their order.
  abbrev pub AllGroups : List l.Setting → List ProfileSetting → Type 0
  AllGroups [] [] = Unit
  AllGroups (s ∷ ss) (p ∷ ps) = IsGroupOf s p × AllGroups ss ps
  AllGroups _ _ = ⊥

  load_items-AllGroups :
      (ss : List l.Setting) → Returns (AllGroups ss) (load_items (profile_setting l) ss)
  unfolding load_items
  load_items-AllGroups [] = returned _ _ tt
  load_items-AllGroups (s ∷ ss) = Returns-bind (AllGroups (s ∷ ss)) (profile_setting l s) _ (λ p e.
      Returns-bind (AllGroups (s ∷ ss)) (load_items (profile_setting l) ss) _ (λ ps es.
        returned (AllGroups (s ∷ ss)) (p ∷ ps) (
          profile_setting-IsGroupOf s p e,
          behind (AllGroups ss) (load_items (profile_setting l) ss) ps (load_items-AllGroups ss) es,
        )))

  pub load_configuration-AllGroups :
      (path : Text) (c : l.Config) (g : l.Setting)
      → l.read_file path ≡ opened c
      → l.lookup c (bytes "profiles") ≡ some g
      → Returns
          (λ r. AllGroups (l.items g) r.configuration.profiles)
          (load_configuration l (some path))
  unfolding destroy_loader
  load_configuration-AllGroups path c g e found =
      Returns-load (λ r. AllGroups (l.items g) r.configuration.profiles) path c e
        (Returns-map (FromGroups g) (λ r. AllGroups (l.items g) r.configuration.profiles)
          (load_all_settings l c default_settings)
          (λ r same.
            behind (AllGroups (l.items g)) (load_items (profile_setting l) (l.items g))
              r.configuration.profiles (load_items-AllGroups (l.items g)) same)
          (loaded_profiles c default_settings g found))
