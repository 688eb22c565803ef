-- ===== src/Startup/Loading/Complete/Reads.antt =====
-- That the constructors accept the files that the description accepts.
use onvif_srvd_cmake.Prelude.{
  Text, Option, none, some, Bool, true, false, List, [], ◌∷◌, ◌&&◌, ◌≡◌, refl, ap, ◌∙◌, bytes,
  is_some, all, arith,
}
use onvif_srvd_cmake.Startup.Loading.{
  CString, in_loader, to_c_string, destroy_loader, Settings, profile_setting, scope_setting,
  stream_setting, load_daemon_info, load_service_options, load_all_settings, load_configuration,
  default_settings,
}
use onvif_srvd_cmake.Startup.Loading.Loader.{
  LibConfig, Loaded, throws, loaded, ◌>>=◌, or_throw, wrong_type, cannot_read, cannot_parse,
  get_setting, get_array, load_items, Read, opened, io_error, parse_error, config_loader,
}
use onvif_srvd_cmake.Startup.Loading.Complete.{
  is_loaded, Kind, daemon_keys, service_keys, is_of, absent_or, is_scope, is_profile, is_stream,
  file_accepted,
}

-- Where nothing that follows depends on the value that was loaded.
is_loaded-bind :
    {A B : Type 0} (x : Loaded A) (f : A → Loaded B) (b : Bool)
    → ((a : A) → is_loaded (f a) ≡ b)
    → is_loaded (x >>= f) ≡ (is_loaded x && b)
unfolding ◌>>=◌
is_loaded-bind (throws e) f b h = refl
is_loaded-bind (loaded a) f b h = h a

and_true : (b : Bool) → (b && true) ≡ b
and_true true = refl
and_true false = refl

load_items-all :
    {A B : Type 0} (f : A → Loaded B) (g : A → Bool)
    → ((a : A) → is_loaded (f a) ≡ g a)
    → (xs : List A) → is_loaded (load_items f xs) ≡ all g xs
unfolding load_items
load_items-all f g h [] = refl
load_items-all f g h (x ∷ xs) =
    is_loaded-bind (f x) _ (all g xs) (λ y.
      is_loaded-bind (load_items f xs) _ true (λ ys. refl)
      ∙ (and_true (is_loaded (load_items f xs)) ∙ load_items-all f g h xs))
    ∙ ap (λ b. b && all g xs) (h x)

regrouped : (a b c d e : Bool) → (a && (b && (c && (d && (e && true))))) ≡ (a && b && c && d && e)
regrouped a b c d e = ground arith

module _ (l : LibConfig) where
  open l use {Config, Setting}

  profile_setting_complete : (s : Setting) → is_loaded (profile_setting l s) ≡ is_profile l s
  unfolding profile_setting ◌>>=◌
  profile_setting_complete s = ground arith

  scope_setting_complete : (s : Setting) → is_loaded (scope_setting l s) ≡ is_scope l s
  unfolding scope_setting ◌>>=◌
  scope_setting_complete s = ground arith

  stream_setting_complete : (s : Setting) → is_loaded (stream_setting l s) ≡ is_stream l s
  unfolding stream_setting ◌>>=◌
  stream_setting_complete s = ground arith

  -- `good` says which settings are converted.
  converted-bind :
      {A B : Type 0} (convert : Setting → Option A) (good : Setting → Bool)
      → ((s : Setting) → is_some (convert s) ≡ good s)
      → (c : Config) (key : Text) (var : A) (f : A → Loaded B) (b : Bool)
      → ((a : A) → is_loaded (f a) ≡ b)
      → is_loaded (get_setting l convert c key var >>= f) ≡ (absent_or l good c key && b)
  unfolding get_setting
  converted-bind convert good same c key var f b h =
      is_loaded-bind (get_setting l convert c key var) f b h
      ∙ ap (λ x. x && b) (is_read (l.lookup c key))
    where
      is_read :
          (o : Option Setting)
          → is_loaded (elim o [ none ↦ loaded var | some s ↦ or_throw wrong_type (convert s) ])
            ≡ elim o [ none ↦ true | some s ↦ good s ]
      is_read none = refl
      is_read (some s) = or_throw_loaded (convert s) ∙ same s
        where
          or_throw_loaded :
              {A : Type 0} (o : Option A) → is_loaded (or_throw wrong_type o) ≡ is_some o
          or_throw_loaded none = refl
          or_throw_loaded (some a) = refl

  setting-bind :
      {A B : Type 0} (convert : Setting → Option A) (c : Config) (key : Text) (var : A)
      (f : A → Loaded B) (b : Bool)
      → ((a : A) → is_loaded (f a) ≡ b)
      → is_loaded (get_setting l convert c key var >>= f)
        ≡ (absent_or l (λ s. is_some (convert s)) c key && b)
  setting-bind convert = converted-bind convert (λ s. is_some (convert s)) (λ s. refl)

  -- A C string is read from the settings that are texts.
  c_string-bind :
      {B : Type 0} (c : Config) (key : Text) (var : CString) (f : CString → Loaded B) (b : Bool)
      → ((a : CString) → is_loaded (f a) ≡ b)
      → is_loaded (get_setting l (to_c_string l) c key var >>= f)
        ≡ (absent_or l (λ s. is_some (l.to_text s)) c key && b)
  c_string-bind =
      converted-bind (to_c_string l) (λ s. is_some (l.to_text s)) (λ s. go (l.to_text s))
    where
      go :
          (o : Option Text)
          → is_some (elim o [ none ↦ none | some t ↦ some (in_loader t) ]) ≡ is_some o
      go none = refl
      go (some t) = refl

  array-bind :
      {A B : Type 0} (convert : Setting → Loaded A) (good : Setting → Bool)
      → ((s : Setting) → is_loaded (convert s) ≡ good s)
      → (c : Config) (key : Text) (var : List A) (f : List A → Loaded B) (b : Bool)
      → ((xs : List A) → is_loaded (f xs) ≡ b)
      → is_loaded (get_array l convert c key var >>= f)
        ≡ (absent_or l (λ s. all good (l.items s)) c key && b)
  unfolding get_array
  array-bind convert good complete c key var f b h =
      is_loaded-bind (get_array l convert c key var) f b h
      ∙ ap (λ x. x && b) (is_read (l.lookup c key))
    where
      is_read :
          (o : Option Setting)
          → is_loaded (elim o [ none ↦ loaded var | some s ↦ load_items convert (l.items s) ])
            ≡ elim o [ none ↦ true | some s ↦ all good (l.items s) ]
      is_read none = refl
      is_read (some s) = load_items-all convert good complete (l.items s)

  abbrev entries_good : Config → List (Kind × Text) → Bool
  entries_good c = all (λ (kind, key). absent_or l (is_of l kind) c key)

  load_daemon_info-entries :
      (c : Config) (s : Settings) → is_loaded (load_daemon_info l c s) ≡ entries_good c daemon_keys
  unfolding load_daemon_info
  load_daemon_info-entries c s = c_string-bind c _ _ _ _ (λ pid_file.
      c_string-bind c _ _ _ _ (λ log_level. c_string-bind c _ _ _ _ (λ log_file.
        setting-bind l.to_int c _ _ _ _ (λ size_mb.
          setting-bind l.to_int c _ _ _ _
            (λ count. setting-bind l.to_bool c _ _ _ _ (λ log_async. refl))))))

  load_service_options-entries :
      (c : Config) (s : Settings)
      → is_loaded (load_service_options l c s) ≡ entries_good c service_keys
  unfolding load_service_options
  load_service_options-entries c s = setting-bind l.to_int c _ _ _ _ (λ port.
      setting-bind l.to_text c _ _ _ _ (λ user. setting-bind l.to_text c _ _ _ _ (λ password.
        setting-bind l.to_text c _ _ _ _ (λ manufacturer. setting-bind l.to_text c _ _ _ _ (λ model.
          setting-bind l.to_text c _ _ _ _ (λ firmware_version.
            setting-bind l.to_text c _ _ _ _ (λ serial_number.
              setting-bind l.to_text c _ _ _ _ (λ hardware_id.
                setting-bind l.to_text c _ _ _ _
                  (λ interfaces. setting-bind l.to_text c _ _ _ _ (λ tz_format. refl))))))))))

  load_all_settings-file_accepted :
      (c : Config) (s : Settings) → is_loaded (load_all_settings l c s) ≡ file_accepted l c
  unfolding load_all_settings
  load_all_settings-file_accepted c s =
      let daemon : Bool = entries_good c daemon_keys in
      let service : Bool = entries_good c service_keys in
      let scope : Bool = absent_or l (λ x. all (is_scope l) (l.items x)) c (bytes "scopes") in
      let profile : Bool = absent_or l (λ x. all (is_profile l) (l.items x)) c (bytes "profiles") in
      let stream : Bool =
        absent_or l (λ x. all (is_stream l) (l.items x)) c (bytes "rtspStreams") in
      let arrays : Bool = scope && (profile && (stream && true)) in
      is_loaded-bind (load_daemon_info l c s) _ (service && arrays) (λ s1.
        is_loaded-bind (load_service_options l c s1) _ arrays (λ s2.
          array-bind (scope_setting l) (is_scope l) scope_setting_complete c _ _ _ _ (λ scopes.
            array-bind (profile_setting l) (is_profile l) profile_setting_complete c _ _ _ _
              (λ profiles.
                array-bind (stream_setting l) (is_stream l) stream_setting_complete c _ _ _ _
                  (λ streams. refl))))
        ∙ ap (λ b. b && arrays) (load_service_options-entries c s1))
      ∙ (ap (λ b. b && (service && arrays)) (load_daemon_info-entries c s)
          ∙ regrouped daemon service scope profile stream)

  -- The constructor returns exactly if libconfig can read the file and the file is accepted: every
  -- key that it has is of its type, and every item of the three arrays is a group with all its
  -- values. Else an exception leaves it.
  pub load_configuration-file_accepted :
      (path : Text)
      → is_loaded (load_configuration l (some path)) ≡ elim (l.read_file path) [
        | opened c ↦ file_accepted l c
        | io_error ↦ false
        | parse_error ↦ false
      ]
  unfolding load_configuration config_loader ◌>>=◌
  load_configuration-file_accepted path = go (l.read_file path)
    where
      go :
          (r : Read Config)
          → is_loaded (
              elim r [
                | opened c ↦ loaded c
                | io_error ↦ throws cannot_read
                | parse_error ↦ throws cannot_parse
              ]
              >>= (λ c.
                  load_all_settings l c default_settings >>= (λ s. loaded (destroy_loader s))))
            ≡ elim r [ opened c ↦ file_accepted l c | io_error ↦ false | parse_error ↦ false ]
      go (opened c) =
          is_loaded-bind (load_all_settings l c default_settings) _ true (λ s. refl)
          ∙ (and_true _ ∙ load_all_settings-file_accepted c default_settings)
      go io_error = refl
      go parse_error = refl
