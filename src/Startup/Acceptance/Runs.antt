-- ===== src/Startup/Acceptance/Runs.antt =====
-- Whether the program starts: processing_cfg and main on any settings.
use onvif_srvd_cmake.Prelude.{
  all, ℕ, Text, ℤ, pos, Option, some, Bool, true, false, not, [], ◌∷◌, ◌++◌, ◌&&◌, ◌≡◌, refl, ap,
  ◌∙◌, c_str, is_some, is_empty, eqb_ℤ, arith, Option-cases, if◌then◌else◌, inl, inr,
}
use onvif_srvd_cmake.Prelude.StdMap.{find}
use onvif_srvd_cmake.Prelude.Stream.{extract_unsigned}
use onvif_srvd_cmake.Kernel.{Kernel}
use onvif_srvd_cmake.Eth.{Ifreq, new_eth, open_dev}
use onvif_srvd_cmake.Profile.{new_profile, clear}
use onvif_srvd_cmake.Context.{ServiceContext, new_context, set_tz_format, tz_of}
use onvif_srvd_cmake.Rtsp.{RtspStream, new_streams, new_config}
use onvif_srvd_cmake.Daemon.{
  Daemon, save_config, is_valid, set_pid_file, set_log_level, set_log_file, set_log_file_size_mb,
  set_log_file_count, set_log_async,
}
use onvif_srvd_cmake.Startup.{
  ProfileSetting, Configuration, Setup, exits, goes_on, Reason, cannot_save_daemon, cannot_open,
  cannot_set_tz, Program, processing_cfg, daemon_info, service_options, profiles_loop, streams_loop,
  add_streams, started,
}
use onvif_srvd_cmake.Startup.Acceptance.{profile_accepted, stream_accepted, IsUnset}
use onvif_srvd_cmake.Startup.Acceptance.Loops.{
  names, urls, profiles_loop-starts, streams_loop-starts,
}
use onvif_srvd_cmake.Startup.Filling.{starts, all_new}
use onvif_srvd_cmake.Table.{Keys}
use onvif_srvd_cmake.Context.Profiles.{profile_table}
use onvif_srvd_cmake.Rtsp.Streams.{stream_table}
use onvif_srvd_cmake.Rtsp.{get_stream}
use onvif_srvd_cmake.Startup.Loading.{Settings, load_configuration}
use onvif_srvd_cmake.Startup.Loading.Loader.{LibConfig, loaded}
use onvif_srvd_cmake.Startup.Main.{
  Run, uncaught, error_exit, running, start_threads, start_with, main_start, settings_read,
  new_program,
}

save_config-daemon_info :
    (cfg : Configuration) (d : Daemon)
    → (save_config (daemon_info cfg) d).1
      ≡ (not (is_empty cfg.pid_file) && not (is_empty cfg.log_level))
unfolding save_config daemon_info is_valid set_pid_file set_log_level set_log_file
    set_log_file_size_mb set_log_file_count set_log_async
save_config-daemon_info cfg d = ground arith

set_tz_format-known :
    (o : ℕ) (t : Text) (c : ServiceContext)
    → ((set_tz_format o t c).1 ≡ is_some (tz_of (extract_unsigned o t)))
      × ((set_tz_format o t c).0.profiles ≡ c.profiles)
unfolding set_tz_format
set_tz_format-known o t c = elim (Option-cases (tz_of (extract_unsigned o t))) [
  | inl bad ↦ rw (bad, set_tz_format) (refl, refl)
  | inr (f, good) ↦ rw (good, set_tz_format) (refl, refl)
]

guarded :
    {A : Type 0} (a b c : Bool) (e f g : Reason) (x : Setup A)
    → starts (if not a then exits e else if not b then exits f else if not c then exits g else x)
      ≡ (a && (b && (c && starts x)))
guarded false b c e f g x = refl
guarded true false c e f g x = refl
guarded true true false e f g x = refl
guarded true true true e f g x = refl

regrouped :
    (pid level eth tz ps ns ss us : Bool)
    → ((pid && level) && (eth && (tz && ((ps && ns) && (ss && us)))))
      ≡ (eth && (pid && level && tz && ps && ns && ss && us))
regrouped pid level eth tz ps ns ss us = ground arith

-- What processing_cfg accepts.
abbrev pub accepted : ℕ → (ProfileSetting → ℤ × ℤ) → Configuration → Bool
accepted old_tz old cfg =
    not (is_empty cfg.pid_file)
    && not (is_empty cfg.log_level)
    && is_some (tz_of (extract_unsigned old_tz (c_str cfg.tz_format)))
    && all (profile_accepted old) cfg.profiles
    && all_new [] (names cfg.profiles)
    && all stream_accepted cfg.rtsp_streams
    && all_new [] (urls cfg.rtsp_streams)

no_profiles-Keys : (c : ServiceContext) → c.profiles ≡ [] → Keys profile_table c []
unfolding find
no_profiles-Keys c empty t = rw empty refl

no_streams-Keys : (t : RtspStream) → t.streams ≡ [] → Keys stream_table t []
unfolding find get_stream
no_streams-Keys t empty u = rw empty refl

new_profile-IsUnset : IsUnset new_profile
unfolding new_profile clear
new_profile-IsUnset = (refl, refl, refl)

module _ (k : Kernel) where
  started-starts :
      (c : ServiceContext) (d : Daemon) (w : k.World) (r : Setup RtspStream)
      → starts (started k c d w r) ≡ starts r
  started-starts c d w (exits e) = refl
  started-starts c d w (goes_on t) = refl

  add_streams-starts :
      (cfg : Configuration) (d : Daemon) (t : RtspStream) (w : k.World) (r : Setup ServiceContext)
      → starts (add_streams k cfg d t w r)
        ≡ (starts r && starts (streams_loop cfg.rtsp_streams new_config t))
  unfolding add_streams
  add_streams-starts cfg d t w (exits e) = refl
  add_streams-starts cfg d t w (goes_on c) = started-starts c d w _

  pub processing_cfg-starts :
      (junk : Ifreq) (old_tz : ℕ) (old : ProfileSetting → ℤ × ℤ) (cfg : Configuration)
      (p : Program k)
      → p.service_ctx.profiles ≡ []
      → p.rtsp_streams.streams ≡ []
      → starts (processing_cfg k junk old_tz old cfg p) ≡ (
          eqb_ℤ (open_dev k (some (c_str cfg.interfaces)) (new_eth junk) p.world).0 (pos 0)
          && accepted old_tz old cfg)
  unfolding processing_cfg service_options
  processing_cfg-starts junk old_tz old cfg p no_profiles no_streams =
      let d = save_config (daemon_info cfg) p.onvif_daemon in
      let c1 = service_options cfg p.service_ctx in
      let eth = open_dev k (some (c_str cfg.interfaces)) (new_eth junk) p.world in
      let c2 = record c1 { eth_ifs = c1.eth_ifs ++ (eth.1 ∷ []) } in
      let c3 = (set_tz_format old_tz (c_str cfg.tz_format) c2).0 in
      let (known, same) = set_tz_format-known old_tz (c_str cfg.tz_format) c2 in
      let profiles =
        profiles_loop-starts old cfg.profiles new_profile c3 [] new_profile-IsUnset
          (no_profiles-Keys c3 (same ∙ no_profiles)) in
      let streams =
        streams_loop-starts cfg.rtsp_streams new_config p.rtsp_streams []
          (no_streams-Keys p.rtsp_streams no_streams) in
      let loaded_profiles = profiles_loop old cfg.profiles new_profile c3 in
      let behind = add_streams-starts cfg d.0 p.rtsp_streams eth.2 loaded_profiles in
      guarded d.1 (eqb_ℤ eth.0 (pos 0)) (set_tz_format old_tz (c_str cfg.tz_format) c2).1
        (cannot_save_daemon p.service_ctx.str_err) (cannot_open (c_str cfg.interfaces))
        (cannot_set_tz c3.str_err) (add_streams k cfg d.0 p.rtsp_streams eth.2 loaded_profiles)
      ∙ (rw (save_config-daemon_info cfg p.onvif_daemon, known, behind, profiles, streams)
          (regrouped (not (is_empty cfg.pid_file)) (not (is_empty cfg.log_level))
            (eqb_ℤ eth.0 (pos 0)) (is_some (tz_of (extract_unsigned old_tz (c_str cfg.tz_format))))
            (all (profile_accepted old) cfg.profiles) (all_new [] (names cfg.profiles))
            (all stream_accepted cfg.rtsp_streams) (all_new [] (urls cfg.rtsp_streams))))

abbrev pub is_running : {k : Kernel} {l : LibConfig} → Run k l → Bool
is_running (uncaught e) = false
is_running (error_exit r) = false
is_running (running p streams) = true

start_threads-running :
    (k : Kernel) (l : LibConfig) (r : Setup (Program k))
    → is_running (start_threads k l r) ≡ starts r
unfolding start_threads
start_threads-running k l (exits e) = refl
start_threads-running k l (goes_on p) = refl

module _ (k : Kernel) (l : LibConfig) (junk : Ifreq) (old_tz : ℕ) (old : ProfileSetting → ℤ × ℤ)
    (freed : Text → Text) (w : k.World) where
  -- Where the settings can be loaded, from a file or without one, the program runs exactly if the
  -- interface can be opened and the settings, as main reads them, are accepted: the pid file and the
  -- log level are not empty, the format of the time zone is known, each profile has a name, a URL,
  -- an encoding and dimensions in range, each stream a pipeline, two ports and a URL, and no two
  -- profiles have one name and no two streams one URL.
  pub main_start-accepted :
      (file : Option Text) (s : Settings)
      → load_configuration l file ≡ loaded s
      → is_running (main_start k l junk old_tz old freed w file) ≡ (
          eqb_ℤ
            (open_dev k (some (c_str (settings_read freed s).interfaces)) (new_eth junk) w).0
            (pos 0)
          && accepted old_tz old (settings_read freed s))
  unfolding main_start start_with new_context new_streams
  main_start-accepted file s read =
      let cfg = settings_read freed s in
      let p = new_program k l w in
      ap (λ x. is_running (start_with k l junk old_tz old freed w x)) read
      ∙ (start_threads-running k l (processing_cfg k junk old_tz old cfg p)
          ∙ processing_cfg-starts k junk old_tz old cfg p refl refl)
