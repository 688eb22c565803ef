-- ===== src/Startup/Loading/Strings.antt =====
-- The three C strings of Configuration behind the constructor that reads a file: its loader owns the
-- texts and is destroyed at the end of its block.
use mathlib.Core.Path.{subst}
use onvif_srvd_cmake.Startup.Loading.Returns.{Returns, returned, Returns-bind, Returns-map, behind}
use onvif_srvd_cmake.Prelude.{Text, Option, none, some, [], ◌≡◌, refl, sym, ap, bytes}
use onvif_srvd_cmake.Startup.Loading.{
  CString, literal, in_loader, dangling, outlive_loader, destroy_loader, to_c_string, Settings,
  load_daemon_info, load_service_options, load_all_settings, load_configuration, default_settings,
}
use onvif_srvd_cmake.Startup.Loading.Loader.{
  LibConfig, loaded, or_throw, wrong_type, get_setting, opened,
}
use onvif_srvd_cmake.Startup.Defaults.{default_configuration}
use onvif_srvd_cmake.Startup.Loading.Groups.{scopes_of, profiles_of, streams_of, Returns-load}

module _ (l : LibConfig) where
  Keeps : Settings → Settings → Type 0
  Keeps s r = (r.pid_file ≡ s.pid_file) × (r.log_level ≡ s.log_level) × (r.log_file ≡ s.log_file)

  options_keep : (c : l.Config) (s : Settings) → Returns (Keeps s) (load_service_options l c s)
  unfolding load_service_options Keeps
  options_keep c s = Returns-bind (Keeps s) _ _ (λ port _. Returns-bind (Keeps s) _ _ (λ user _.
      Returns-bind (Keeps s) _ _ (λ password _. Returns-bind (Keeps s) _ _ (λ manufacturer _.
        Returns-bind (Keeps s) _ _ (λ model _. Returns-bind (Keeps s) _ _ (λ firmware_version _.
          Returns-bind (Keeps s) _ _ (λ serial_number _.
            Returns-bind (Keeps s) _ _ (λ hardware_id _. Returns-bind (Keeps s) _ _ (λ interfaces _.
              Returns-bind (Keeps s) _ _ (λ tz_format _. returned _ _ (refl, refl, refl)))))))))))

  -- What getSetting leaves in a C string: a pointer to the loader's copy of the text, or what it held.
  abbrev Borrowed : Option l.Setting → CString → CString → Type 0
  Borrowed none old now = now ≡ old
  Borrowed (some g) old now = (t : Text) × (l.to_text g ≡ some t) × (now ≡ in_loader t)

  get_setting-Borrowed :
      (c : l.Config) (key : Text) (old : CString)
      → Returns (Borrowed (l.lookup c key) old) (get_setting l (to_c_string l) c key old)
  unfolding get_setting Returns
  get_setting-Borrowed c key old = go (l.lookup c key)
    where
      go :
          (o : Option l.Setting)
          → Returns
              (Borrowed o old)
              (elim o [ none ↦ loaded old | some s ↦ or_throw wrong_type (to_c_string l s) ])
      go none = refl
      go (some g) = converted (l.to_text g) refl
        where
          converted :
              (o : Option Text)
              → l.to_text g ≡ o
              → Returns
                  (Borrowed (some g) old)
                  (or_throw wrong_type (elim o [ none ↦ none | some t ↦ some (in_loader t) ]))
          converted none e = tt
          converted (some t) e = (t, e, refl)

  -- The three C strings, each with its key.
  abbrev BorrowsFrom : l.Config → Settings → Settings → Type 0
  BorrowsFrom c s r =
      Borrowed (l.lookup c (bytes "pidFile")) s.pid_file r.pid_file
      × Borrowed (l.lookup c (bytes "log_level")) s.log_level r.log_level
      × Borrowed (l.lookup c (bytes "log_file")) s.log_file r.log_file

  borrowed :
      (c : l.Config) (key : Text) (old now : CString)
      → get_setting l (to_c_string l) c key old ≡ loaded now
      → Borrowed (l.lookup c key) old now
  borrowed c key old now =
      behind (Borrowed (l.lookup c key) old) (get_setting l (to_c_string l) c key old) now
        (get_setting-Borrowed c key old)

  daemon_info-BorrowsFrom :
      (c : l.Config) (s : Settings) → Returns (BorrowsFrom c s) (load_daemon_info l c s)
  unfolding load_daemon_info
  daemon_info-BorrowsFrom c s = Returns-bind (BorrowsFrom c s) _ _ (λ pid_file e1.
      Returns-bind (BorrowsFrom c s) _ _ (λ log_level e2.
        Returns-bind (BorrowsFrom c s) _ _ (λ log_file e3.
          Returns-bind (BorrowsFrom c s) _ _ (λ size_mb _.
            Returns-bind (BorrowsFrom c s) _ _ (λ count _.
              Returns-bind (BorrowsFrom c s) _ _ (λ async _. returned _ _ (
                borrowed c (bytes "pidFile") s.pid_file pid_file e1,
                borrowed c (bytes "log_level") s.log_level log_level e2,
                borrowed c (bytes "log_file") s.log_file log_file e3,
              )))))))

  both :
      (c : l.Config) (s s1 s2 : Settings)
      → load_daemon_info l c s ≡ loaded s1
      → load_service_options l c s1 ≡ loaded s2
      → BorrowsFrom c s s2
  unfolding Keeps
  both c s s1 s2 e1 e2 =
      let (a, b, d) =
        behind (BorrowsFrom c s) (load_daemon_info l c s) s1 (daemon_info-BorrowsFrom c s) e1 in
      let (a', b', d') =
        behind (Keeps s1) (load_service_options l c s1) s2 (options_keep c s1) e2 in
      (
        subst (Borrowed (l.lookup c (bytes "pidFile")) s.pid_file) (sym a') a,
        subst (Borrowed (l.lookup c (bytes "log_level")) s.log_level) (sym b') b,
        subst (Borrowed (l.lookup c (bytes "log_file")) s.log_file) (sym d') d,
      )

  load_all_settings-BorrowsFrom :
      (c : l.Config) (s : Settings) → Returns (BorrowsFrom c s) (load_all_settings l c s)
  unfolding load_all_settings Keeps
  load_all_settings-BorrowsFrom c s =
      Returns-bind (BorrowsFrom c s) (load_daemon_info l c s) _ (λ s1 e1.
        Returns-bind (BorrowsFrom c s) (load_service_options l c s1) _ (λ s2 e2.
          Returns-bind (BorrowsFrom c s) (scopes_of l c s2) _ (λ scopes _.
            Returns-bind (BorrowsFrom c s) (profiles_of l c s2) _ (λ profiles _.
              Returns-bind (BorrowsFrom c s) (streams_of l c s2) _
                (λ streams _. returned (BorrowsFrom c s) _ (both c s s1 s2 e1 e2))))))

  -- What a C string is behind the constructor: it points to where the text of the file's setting
  -- was, or it is the literal that it was made with.
  abbrev pub Dangles : Option l.Setting → Text → CString → Type 0
  Dangles none old now = now ≡ literal old
  Dangles (some g) old now = (t : Text) × (l.to_text g ≡ some t) × (now ≡ dangling t)

  outlive_loader-Dangles :
      (o : Option l.Setting) (old : Text) (now : CString)
      → Borrowed o (literal old) now
      → Dangles o old (outlive_loader now)
  unfolding outlive_loader
  outlive_loader-Dangles none old now h = ap outlive_loader h
  outlive_loader-Dangles (some g) old now (t, e, h) = (t, e, ap outlive_loader h)

  abbrev pub AllDangle : l.Config → Settings → Type 0
  AllDangle c r =
      Dangles (l.lookup c (bytes "pidFile")) (bytes "/tmp/onvif_svrd_debug.pid") r.pid_file
      × Dangles (l.lookup c (bytes "log_level")) (bytes "debug") r.log_level
      × Dangles (l.lookup c (bytes "log_file")) [] r.log_file

  destroyed-AllDangle :
      (c : l.Config) (s : Settings)
      → BorrowsFrom c default_settings s
      → AllDangle c (destroy_loader s)
  unfolding destroy_loader default_settings default_configuration
  destroyed-AllDangle c s (a, b, d) = (
    outlive_loader-Dangles (l.lookup c (bytes "pidFile")) _ s.pid_file a,
    outlive_loader-Dangles (l.lookup c (bytes "log_level")) _ s.log_level b,
    outlive_loader-Dangles (l.lookup c (bytes "log_file")) _ s.log_file d,
  )

  -- Without a file the settings are the defaults. Behind a file that libconfig can read, and if no
  -- exception leaves, the name of the pid file, the log level and the name of the log file are each
  -- the literal of the defaults if the file has no setting with the key "pidFile", "log_level" or
  -- "log_file", and if it has one, a pointer to where the destroyed loader had the text of that
  -- setting.
  pub load_configuration-AllDangle :
      (path : Text) (c : l.Config)
      → l.read_file path ≡ opened c
      → (load_configuration l none ≡ loaded default_settings)
        × Returns (AllDangle c) (load_configuration l (some path))
  unfolding load_configuration
  load_configuration-AllDangle path c e = (
    refl,
    Returns-load l (AllDangle c) path c e (
        Returns-map (BorrowsFrom c default_settings) (λ s. AllDangle c (destroy_loader s))
          (load_all_settings l c default_settings) (destroyed-AllDangle c)
          (load_all_settings-BorrowsFrom c default_settings)),
  )
