-- ===== src/Startup/Defaults/Starts.antt =====
-- The program starts with its default settings.
use onvif_srvd_cmake.Prelude.{
  ℕ, ℤ, pos, Option, none, some, true, false, [], ◌∷◌, ◌++◌, ◌≡◌, refl, bytes, c_str, length,
}
use onvif_srvd_cmake.Prelude.StdMap.{find, assign}
use onvif_srvd_cmake.Prelude.Stream.{extract_int, extract_unsigned}
use onvif_srvd_cmake.Kernel.{Kernel}
use onvif_srvd_cmake.Eth.{Ifreq, new_eth, open_dev}
use onvif_srvd_cmake.Profile
use onvif_srvd_cmake.Profile.{
  StreamProfile, h264, new_profile, set_name, set_width, set_height, set_url, set_snapurl, set_type,
}
use onvif_srvd_cmake.Context.{
  ServiceContext, new_context, add_profile, set_tz_format, tz_of, tz_utc_offset,
}
use onvif_srvd_cmake.Rtsp
use onvif_srvd_cmake.Rtsp.{
  RtspStream, new_streams, new_config, set_pipeline, set_udp_port, set_tcp_port, set_rtsp_url,
  set_test_stream, set_test_stream_src, add_stream,
}
use onvif_srvd_cmake.Daemon.{
  Daemon, new_daemon_info, save_config, is_valid, set_pid_file, set_log_level, set_log_file,
  set_log_file_size_mb, set_log_file_count, set_log_async,
}
use onvif_srvd_cmake.Startup.{
  ProfileSetting, Setup, exits, goes_on, Program, processing_cfg, configure_profile, profiles_loop,
  streams_loop, daemon_info, add_streams, service_options, configure_stream,
}
use onvif_srvd_cmake.Startup.Defaults.{
  default_configuration, default_profile, default_stream, default_pipeline,
}

abbrev right : StreamProfile
right = record {
  name = bytes "Right_Monitor";
  width = pos 1024;
  height = pos 768;
  url = bytes "rtsp://%s:554/right";
  snapurl = [];
  type = some h264;
  str_err = [];
}

abbrev left : StreamProfile
left = record {
  name = bytes "Left_Monitor";
  width = pos 1024;
  height = pos 768;
  url = bytes "rtsp://%s:8554/left";
  snapurl = [];
  type = some h264;
  str_err = [];
}

module _ (old : ProfileSetting → ℤ × ℤ) where
  configure_right : configure_profile old (default_profile 0) new_profile ≡ right
  unfolding configure_profile default_profile set_name set_url set_snapurl set_width set_height
      set_type new_profile extract_int bytes c_str
  configure_right = refl

  configure_left : configure_profile old (default_profile 1) (Profile.clear right) ≡ left
  unfolding configure_profile default_profile set_name set_url set_snapurl set_width set_height
      set_type Profile.clear extract_int bytes c_str
  configure_left = refl

  add_right :
      (c : ServiceContext)
      → c.profiles ≡ []
      → add_profile right c ≡ (record c { profiles = (right.name, right) ∷ [] }, true)
  unfolding add_profile Profile.is_valid find assign bytes
  add_right c e = rw e refl

  add_left :
      (c : ServiceContext)
      → c.profiles ≡ (right.name, right) ∷ []
      → add_profile left c
        ≡ (record c { profiles = (left.name, left) ∷ (right.name, right) ∷ [] }, true)
  unfolding add_profile Profile.is_valid find assign bytes
  add_left c e = rw e refl

  both_added :
      (c : ServiceContext)
      → c.profiles ≡ []
      → profiles_loop old (default_profile 0 ∷ default_profile 1 ∷ []) new_profile c
        ≡ goes_on (record c { profiles = (left.name, left) ∷ (right.name, right) ∷ [] })
  unfolding profiles_loop
  both_added c e =
      rw (configure_right, add_right c e, configure_left, profiles_loop)
        (rw (add_left (record c { profiles = (right.name, right) ∷ [] }) refl) refl)

abbrev two_streams : RtspStream
two_streams = record {
  streams =
      (
        bytes "/left",
        record {
          pipeline = default_pipeline;
          udp_port = bytes "5001";
          tcp_port = bytes "8554";
          rtsp_url = bytes "/left";
          test_stream = false;
          test_stream_src = bytes "videotestsrc pattern=ball";
          str_err = [];
        },
      )
      ∷ (
        bytes "/right",
        record {
          pipeline = default_pipeline;
          udp_port = bytes "5000";
          tcp_port = bytes "554";
          rtsp_url = bytes "/right";
          test_stream = false;
          test_stream_src = bytes "videotestsrc";
          str_err = [];
        },
      )
      ∷ [];
  str_err = [];
}

streams_added :
    streams_loop (default_stream 0 ∷ default_stream 1 ∷ []) new_config new_streams
    ≡ goes_on two_streams
unfolding streams_loop default_stream new_config new_streams configure_stream set_pipeline
    set_udp_port set_tcp_port set_rtsp_url set_test_stream set_test_stream_src add_stream
    Rtsp.is_valid Rtsp.clear find assign bytes c_str
streams_added = refl

saved : (d : Daemon) → (save_config (daemon_info default_configuration) d).1 ≡ true
unfolding save_config daemon_info default_configuration is_valid set_pid_file set_log_level
    set_log_file set_log_file_size_mb set_log_file_count set_log_async bytes
saved d = refl

known :
    (o : ℕ) (c : ServiceContext)
    → set_tz_format o (c_str default_configuration.tz_format) c
      ≡ (record c { tz_format = tz_utc_offset }, true)
unfolding set_tz_format default_configuration tz_of extract_unsigned bytes c_str
known o c = refl

module _ (k : Kernel) where
  -- The program before processing_cfg.
  abbrev pub fresh : k.World → Program k
  fresh w = record {
    service_ctx = new_context;
    rtsp_streams = new_streams;
    onvif_daemon = record { daemon_config = new_daemon_info; str_err = [] };
    world = w;
  }

  -- How many profiles, streams and scopes a program has that started.
  abbrev pub counts : Setup (Program k) → Option (ℕ × ℕ × ℕ)
  counts (exits r) = none
  counts (goes_on p) =
      some
        (length p.service_ctx.profiles, length p.rtsp_streams.streams, length p.service_ctx.scopes)

  added_counts :
      (old : ProfileSetting → ℤ × ℤ) (d : Daemon) (w : k.World) (c : ServiceContext)
      → c.profiles ≡ []
      → counts (
          add_streams k default_configuration d new_streams w
            (profiles_loop old default_configuration.profiles new_profile c))
        ≡ some (2, 2, length c.scopes)
  unfolding default_configuration add_streams
  added_counts old d w c e =
      rw (both_added old c e, add_streams) (rw (streams_added, add_streams) refl)

  -- With the default settings processing_cfg goes on as soon as the interface can be opened, with
  -- both profiles, both streams and the four scopes.
  pub processing_cfg-default :
      (junk : Ifreq) (old_tz : ℕ) (old : ProfileSetting → ℤ × ℤ) (w : k.World)
      → (open_dev k (some (c_str default_configuration.interfaces)) (new_eth junk) w).0 ≡ pos 0
      → counts (processing_cfg k junk old_tz old default_configuration (fresh w)) ≡ some (2, 2, 4)
  unfolding processing_cfg service_options new_context default_configuration
  processing_cfg-default junk old_tz old w opened =
      let eth = open_dev k (some (c_str default_configuration.interfaces)) (new_eth junk) w in
      let c = service_options default_configuration new_context in
      rw (saved, opened, known, processing_cfg)
        (added_counts old (save_config (daemon_info default_configuration) (fresh w).onvif_daemon).0
          eth.2 (record c { eth_ifs = c.eth_ifs ++ (eth.1 ∷ []); tz_format = tz_utc_offset }) refl)
