-- ===== src/Startup.antt =====
-- The start of the program: processing_cfg of src/onvif_srvd.cpp with the settings of
-- src/Configuration.hpp. daemon_error_exit ends the process; what it would print is the reason,
-- without the text that the C library has for an error number.
pub mod Defaults
pub mod Loading
pub mod Main
pub mod Acceptance
pub mod Filling
pub mod Served
pub mod Published
pub mod Ready
pub mod Untouched
use onvif_srvd_cmake.Prelude.{
  ℕ, ◌-◌, ◌^◌, Text, ℤ, pos, negsuc, Option, none, some, Bool, true, false, not, List, [], ◌∷◌,
  ◌++◌, map, bytes, c_str, eqb_ℤ, if◌then◌else◌,
}
use onvif_srvd_cmake.Kernel.{Kernel}
use onvif_srvd_cmake.Eth.{Ifreq, new_eth, open_dev}
use onvif_srvd_cmake.Profile
use onvif_srvd_cmake.Profile.{
  StreamProfile, set_name, set_width, set_height, set_url, set_snapurl, set_type, new_profile,
}
use onvif_srvd_cmake.Context.{ServiceContext, set_tz_format, add_profile}
use onvif_srvd_cmake.Rtsp
use onvif_srvd_cmake.Rtsp.{
  RtspStreamConfig, RtspStream, set_pipeline, set_udp_port, set_tcp_port, set_rtsp_url,
  set_test_stream, set_test_stream_src, new_config, add_stream,
}
use onvif_srvd_cmake.Daemon.{
  Daemon, DaemonInfo, new_daemon_info, set_pid_file, set_log_level, set_log_file,
  set_log_file_size_mb, set_log_file_count, set_log_async, save_config,
}

-- Profiles
pub record ProfileSetting : Type 0 where
  pub name : Text
  pub width : Text
  pub height : Text
  pub url : Text
  pub snap_url : Text
  pub type : Text

-- RTSPStreams
pub record StreamSetting : Type 0 where
  pub pipeline : Text
  pub udp_port : Text
  pub tcp_port : Text
  pub rtsp_url : Text
  pub test_stream : Bool
  pub test_stream_src : Text

-- Configuration; of a scope the program reads the URI only.
pub record Configuration : Type 0 where
  pub pid_file : Text
  pub log_level : Text
  pub log_file : Text
  pub log_file_size_mb : ℤ
  pub log_file_count : ℤ
  pub log_async : Bool
  pub port : ℤ
  pub user : Text
  pub password : Text
  pub manufacturer : Text
  pub model : Text
  pub firmware_version : Text
  pub serial_number : Text
  pub hardware_id : Text
  pub interfaces : Text
  pub tz_format : Text
  pub scopes : List Text
  pub profiles : List ProfileSetting
  pub rtsp_streams : List StreamSetting

-- Why the process ends.
pub data Reason : Type 0 where
  cannot_save_daemon cannot_open cannot_set_tz cannot_add_profile cannot_add_stream : Text → Reason

pub data Setup (A : Type 0) : Type 0 where
  exits : Reason → Setup A
  goes_on : A → Setup A

-- The conversion of an int to size_t.
abbrev pub to_size : ℤ → ℕ
to_size (pos n) = n
to_size (negsuc n) = 2 ^ 64 - 1 - n

unfoldable pub daemon_info : Configuration → DaemonInfo
daemon_info cfg =
    let i1 = (set_pid_file cfg.pid_file new_daemon_info).0 in
    let i2 = (set_log_level cfg.log_level i1).0 in
    let i3 = (set_log_file cfg.log_file i2).0 in
    let i4 = (set_log_file_size_mb (to_size cfg.log_file_size_mb) i3).0 in
    let i5 = (set_log_file_count (to_size cfg.log_file_count) i4).0 in
    (set_log_async cfg.log_async i5).0

unfoldable pub service_options : Configuration → ServiceContext → ServiceContext
service_options cfg c = record c {
  port = cfg.port;
  user = c_str cfg.user;
  password = c_str cfg.password;
  manufacturer = c_str cfg.manufacturer;
  model = c_str cfg.model;
  firmware_version = c_str cfg.firmware_version;
  serial_number = c_str cfg.serial_number;
  hardware_id = c_str cfg.hardware_id;
  scopes = c.scopes ++ cfg.scopes;
}

-- `old` gives what the variables that the setters read a setting into hold before.
unfoldable pub configure_profile :
    (ProfileSetting → ℤ × ℤ) → ProfileSetting → StreamProfile → StreamProfile
configure_profile old s p =
    let p1 = (set_name (some (c_str s.name)) p).0 in
    let p2 = (set_width (old s).0 (c_str s.width) p1).0 in
    let p3 = (set_height (old s).1 (c_str s.height) p2).0 in
    let p4 = (set_url (some (c_str s.url)) p3).0 in
    let p5 = (set_snapurl (some (c_str s.snap_url)) p4).0 in (set_type (c_str s.type) p5).0

unfoldable pub profiles_loop :
    (ProfileSetting → ℤ × ℤ)
    → List ProfileSetting
    → StreamProfile
    → ServiceContext
    → Setup ServiceContext
unfolding configure_profile
profiles_loop old [] p c = goes_on c
profiles_loop old (s ∷ ss) p c =
    let q = configure_profile old s p in
    let (c', added) = add_profile q c in
    let rest = profiles_loop old ss (Profile.clear q) c' in
    if not added then exits (cannot_add_profile c'.str_err) else rest

abbrev pub int_of : Bool → ℤ
int_of false = pos 0
int_of true = pos 1

unfoldable pub configure_stream : StreamSetting → RtspStreamConfig → RtspStreamConfig
configure_stream s r =
    let r1 = (set_pipeline (some (c_str s.pipeline)) r).0 in
    let r2 = (set_udp_port (some (c_str s.udp_port)) r1).0 in
    let r3 = (set_tcp_port (some (c_str s.tcp_port)) r2).0 in
    let r4 = (set_rtsp_url (some (c_str s.rtsp_url)) r3).0 in
    let r5 = (set_test_stream (int_of s.test_stream) r4).0 in
    (set_test_stream_src (some (c_str s.test_stream_src)) r5).0

unfoldable pub streams_loop : List StreamSetting → RtspStreamConfig → RtspStream → Setup RtspStream
unfolding configure_stream
streams_loop [] r t = goes_on t
streams_loop (s ∷ ss) r t =
    let q = configure_stream s r in
    let (t', added) = add_stream q t in
    let rest = streams_loop ss (Rtsp.clear q) t' in
    if not added then exits (cannot_add_stream t'.str_err) else rest

module _ (k : Kernel) where
  open k use {World}

  -- What the start works on.
  pub record Program : Type 0 where
    pub service_ctx : ServiceContext
    pub rtsp_streams : RtspStream
    pub onvif_daemon : Daemon
    pub world : World

  -- What is left behind the loop over the streams.
  abbrev pub started : ServiceContext → Daemon → World → Setup RtspStream → Setup Program
  started c d w (exits r) = exits r
  started c d w (goes_on t) =
      goes_on (record { service_ctx = c; rtsp_streams = t; onvif_daemon = d; world = w })

  -- The last part of processing_cfg, behind the loop over the profiles.
  unfoldable pub add_streams :
      Configuration → Daemon → RtspStream → World → Setup ServiceContext → Setup Program
  unfolding streams_loop
  add_streams cfg d t w (exits r) = exits r
  add_streams cfg d t w (goes_on c) = started c d w (streams_loop cfg.rtsp_streams new_config t)

  -- `junk` is what the request of a fresh interface holds, `old_tz` the variable of set_tz_format.
  unfoldable pub processing_cfg :
      Ifreq → ℕ → (ProfileSetting → ℤ × ℤ) → Configuration → Program → Setup Program
  unfolding add_streams profiles_loop daemon_info service_options
  processing_cfg junk old_tz old cfg p =
      let (d, saved) = save_config (daemon_info cfg) p.onvif_daemon in
      let c1 = service_options cfg p.service_ctx in
      let (ret, eth, w) = open_dev k (some (c_str cfg.interfaces)) (new_eth junk) p.world in
      let c2 = record c1 { eth_ifs = c1.eth_ifs ++ (eth ∷ []) } in
      let (c3, known) = set_tz_format old_tz (c_str cfg.tz_format) c2 in
      if not saved
      then exits (cannot_save_daemon p.service_ctx.str_err)
      else if not (eqb_ℤ ret (pos 0))
      then exits (cannot_open (c_str cfg.interfaces))
      else if not known
      then exits (cannot_set_tz c3.str_err)
      else add_streams cfg d p.rtsp_streams w (profiles_loop old cfg.profiles new_profile c3)
