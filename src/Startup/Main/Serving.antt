-- ===== src/Startup/Main/Serving.antt =====
-- What the clients of a program that was started from a configuration file find.
use mathlib.Core.Path.{subst}
use native.Mathlib.Nat.{add-zero}
use onvif_srvd_cmake.Prelude.{
  ℕ, zero, suc, ◌+◌, ◌<◌, Text, ℤ, some, Bool, true, false, List, [], ◌∷◌, ◌≡◌, refl, sym, ap, ◌∙◌,
  All, bytes, c_str, arith,
}
use onvif_srvd_cmake.Prelude.StdMap.{find}
use onvif_srvd_cmake.Kernel.{Kernel}
use onvif_srvd_cmake.Eth.{Ifreq}
use onvif_srvd_cmake.Profile.{StreamProfile}
use onvif_srvd_cmake.Context.{ServiceContext, new_context}
use onvif_srvd_cmake.Context.Profiles.{new_context-IsWellFormed}
use onvif_srvd_cmake.Rtsp.Streams.{new_streams-IsWellFormed}
use onvif_srvd_cmake.Ptz.{Floats}
use onvif_srvd_cmake.Services.{Surroundings, Request, session}
use onvif_srvd_cmake.Services.History.{session-erase}
use onvif_srvd_cmake.Startup.{
  ProfileSetting, Configuration, Setup, exits, goes_on, Program, processing_cfg,
}
use onvif_srvd_cmake.Startup.Filling.{Holds, Holds-map}
use onvif_srvd_cmake.Startup.Served.{IsServed}
use onvif_srvd_cmake.Startup.Ready.{IsReady, processing_cfg-IsReady}
use onvif_srvd_cmake.Startup.Loading.{Settings, load_configuration}
use onvif_srvd_cmake.Startup.Loading.Loader.{LibConfig, Loaded, throws, loaded, opened}
use onvif_srvd_cmake.Startup.Loading.Returns.{Returns}
use onvif_srvd_cmake.Startup.Loading.Groups.{AllGroups, load_configuration-AllGroups}
use onvif_srvd_cmake.Startup.Main.{
  Run, uncaught, error_exit, running, start_threads, start_with, main_start, settings_read,
  new_program, watch_loop,
}

module _ (k : Kernel) (l : LibConfig) where
  -- A profile is found under the name that the group has in the file, with its URLs.
  pub record IsServedGroup (c : ServiceContext) (s : l.Setting) : Type 0 where
    pub name : Text
    pub url : Text
    pub snap_url : Text
    pub has_name : l.text_value s (bytes "name") ≡ some name
    pub has_url : l.text_value s (bytes "url") ≡ some url
    pub has_snap_url : l.text_value s (bytes "snapUrl") ≡ some snap_url
    pub profile : StreamProfile
    pub found : find (c_str name) c.profiles ≡ some profile
    pub same_url : profile.url ≡ c_str url
    pub same_snap_url : profile.snapurl ≡ c_str snap_url

  groups_found :
      (c c' : ServiceContext) (same : c'.profiles ≡ c.profiles) (ss : List l.Setting)
      (ps : List ProfileSetting)
      → AllGroups l ss ps
      → All (IsServed c) ps
      → All (IsServedGroup c') ss
  groups_found c c' same [] [] g h = tt
  groups_found c c' same [] (p ∷ ps) g h = elim g [ ]
  groups_found c c' same (s ∷ ss) [] g h = elim g [ ]
  groups_found c c' same (s ∷ ss) (p ∷ ps) (g, gs) ((q, found, (u, v)), hs) = (
    record {
      name = p.name;
      url = p.url;
      snap_url = p.snap_url;
      has_name = g.name;
      has_url = g.url;
      has_snap_url = g.snap_url;
      profile = q;
      found = ap (find (c_str p.name)) same ∙ found;
      same_url = u;
      same_snap_url = v;
    },
    groups_found c c' same ss ps gs hs,
  )

  -- What holds of a program that runs.
  abbrev pub WhileRunning : (Program k → Type 0) → Run k l → Type 0
  WhileRunning P (uncaught e) = Unit
  WhileRunning P (error_exit r) = Unit
  WhileRunning P (running p streams) = P p

  pub threads-WhileRunning :
      (P : Program k → Type 0) (r : Setup (Program k))
      → Holds P r
      → WhileRunning P (start_threads k l r)
  unfolding start_threads
  threads-WhileRunning P (exits e) h = tt
  threads-WhileRunning P (goes_on p) h = h

  module _ (f : Floats) (rs : List (Surroundings k f × Request k f)) where
    abbrev pub ServesGroups : l.Setting → Program k → Type 0
    ServesGroups g p = All (IsServedGroup (session k f rs p.service_ctx)) (l.items g)

    ready-ServesGroups :
        (cfg : Configuration) (g : l.Setting)
        → AllGroups l (l.items g) cfg.profiles
        → (p : Program k) → IsReady k cfg new_context p
        → ServesGroups g p
    ready-ServesGroups cfg g groups p ready =
        let unchanged = ap (λ c. c.profiles) (session-erase k f rs p.service_ctx) in
        groups_found p.service_ctx (session k f rs p.service_ctx) unchanged (l.items g) cfg.profiles
          groups ready.served

    module _ (junk : Ifreq) (old_tz : ℕ) (old : ProfileSetting → ℤ × ℤ) (freed : Text → Text)
        (w : k.World) where
      start_with-ServesGroups :
          (g : l.Setting) (x : Loaded Settings)
          → Returns (λ r. AllGroups l (l.items g) r.configuration.profiles) x
          → WhileRunning (ServesGroups g) (start_with k l junk old_tz old freed w x)
      unfolding start_with Returns settings_read new_context
      start_with-ServesGroups g (throws e) h = tt
      start_with-ServesGroups g (loaded s) h =
          let cfg : Configuration = settings_read freed s in
          let start : Setup (Program k) =
            processing_cfg k junk old_tz old cfg (new_program k l w) in
          threads-WhileRunning (ServesGroups g) start (
            Holds-map (IsReady k cfg new_context) (ServesGroups g) start
              (ready-ServesGroups cfg g h)
              (processing_cfg-IsReady k junk old_tz old cfg (new_program k l w)
                new_context-IsWellFormed new_streams-IsWellFormed))

      -- A program that runs on a configuration file with profiles serves all of them, behind any
      -- session: for each group of the file the profile is found under the name and with the URLs
      -- that the file has.
      pub main_start-ServesGroups :
          (path : Text) (c : l.Config) (g : l.Setting)
          → l.read_file path ≡ opened c
          → l.lookup c (bytes "profiles") ≡ some g
          → WhileRunning (ServesGroups g) (main_start k l junk old_tz old freed w (some path))
      unfolding main_start
      main_start-ServesGroups path c g e found =
          start_with-ServesGroups g (load_configuration l (some path))
            (load_configuration-AllGroups l path c g e found)

-- The loop of main ends behind the first round in which the warden reports a failure, and not
-- before it: with more fuel than that round it gives its number.
pub watch_loop-first :
    (fuel n : ℕ) (failed : ℕ → Bool) (round : ℕ)
    → n < fuel
    → failed (round + n) ≡ true
    → ((i : ℕ) → i < n → failed (round + i) ≡ false)
    → watch_loop fuel failed round ≡ some (round + n)
unfolding watch_loop
watch_loop-first zero n failed round h last earlier = absurd (omega arith)
watch_loop-first (suc fuel) zero failed round h last earlier =
    let here : round + 0 ≡ round = add-zero round in
    let now : failed round ≡ true = subst (λ r. failed r ≡ true) here last in rw (now, here) refl
watch_loop-first (suc fuel) (suc n) failed round h last earlier =
    let here : round + 0 ≡ round = add-zero round in
    let not_now : failed round ≡ false =
      subst (λ r. failed r ≡ false) here (earlier 0 (omega arith)) in
    let next : (i : ℕ) → round + 1 + i ≡ round + suc i = λ i. omega arith in
    rw (not_now, ← next n)
      (watch_loop-first fuel n failed (round + 1) (omega arith)
        (subst (λ r. failed r ≡ true) (sym (next n)) last)
        (λ i less. subst (λ r. failed r ≡ false) (sym (next i)) (earlier (suc i) (omega arith))))
