-- ===== src/Startup/Loading.antt =====
-- The configuration file: the constructors of src/Configuration.hpp and src/Configuration.cpp that
-- read their members from it.
pub mod Loader
pub mod Arrays
pub mod Complete
pub mod Returns
pub mod Groups
pub mod Strings
use onvif_srvd_cmake.Prelude.{
  ℕ, Text, ℤ, Option, none, some, Bool, true, false, not, ◌||◌, List, [], ◌∷◌, bytes, is_some,
  if◌then◌else◌,
}
use onvif_srvd_cmake.Startup.{ProfileSetting, StreamSetting, Configuration}
use onvif_srvd_cmake.Startup.Defaults.{default_configuration}
use Loader.{
  LibConfig, Loaded, throws, loaded, ◌>>=◌, or_throw, Exception, runtime_error, get_setting,
  get_array, config_loader, load_items,
}

-- A member of the type `const char *`, by what it points to: a literal of the program, libconfig's
-- copy of a text of the file, which the loader owns, or where that copy was.
pub data CString : Type 0 where
  literal in_loader dangling : Text → CString

-- What the destruction of the loader makes of a pointer.
unfoldable pub outlive_loader : CString → CString
outlive_loader (literal t) = literal t
outlive_loader (in_loader t) = dangling t
outlive_loader (dangling t) = dangling t

-- What is read through a pointer, where `freed` is what stands in place of a text.
abbrev pub read_c_string : (Text → Text) → CString → Text
read_c_string freed (literal t) = t
read_c_string freed (in_loader t) = t
read_c_string freed (dangling t) = freed t

-- The members of Configuration; its three C strings stand apart, as pointers.
pub record Settings : Type 0 where
  pub configuration : Configuration
  pub pid_file : CString
  pub log_level : CString
  pub log_file : CString

unfoldable pub default_settings : Settings
unfolding default_configuration
default_settings = record {
  configuration = default_configuration;
  pid_file = literal default_configuration.pid_file;
  log_level = literal default_configuration.log_level;
  log_file = literal default_configuration.log_file;
}

-- The end of the block that the loader is declared in.
unfoldable pub destroy_loader : Settings → Settings
unfolding outlive_loader
destroy_loader s = record s {
  pid_file = outlive_loader s.pid_file;
  log_level = outlive_loader s.log_level;
  log_file = outlive_loader s.log_file;
}

module _ (l : LibConfig) where
  open l use {Config, Setting}

  -- The values of a group; the exception is the same whichever of them is missing.
  abbrev group : Text → Setting → Loaded Unit
  group message s = if l.is_group s then loaded tt else throws (runtime_error message)

  abbrev text_of : Text → Setting → Text → Loaded Text
  text_of message s key = or_throw (runtime_error message) (l.text_value s key)

  abbrev int_of : Text → Setting → Text → Loaded ℤ
  int_of message s key = or_throw (runtime_error message) (l.int_value s key)

  abbrev bool_of : Text → Setting → Text → Loaded Bool
  bool_of message s key = or_throw (runtime_error message) (l.bool_value s key)

  abbrev pub scope_message : Text
  scope_message = bytes "scopes config parse error"

  abbrev pub group_message : Text
  group_message = bytes "waveform config parse error"

  -- Scopes(Setting), of which the program reads the URI.
  unfoldable pub scope_setting : Setting → Loaded Text
  scope_setting s = do
    _ ← group scope_message s
    _ ← int_of scope_message s (bytes "scopes_id")
    text_of scope_message s (bytes "scopeUri")

  -- Profiles(Setting)
  unfoldable pub profile_setting : Setting → Loaded ProfileSetting
  profile_setting s = do
    _ ← group group_message s
    _ ← int_of group_message s (bytes "profile_id")
    name ← text_of group_message s (bytes "name")
    width ← text_of group_message s (bytes "width")
    height ← text_of group_message s (bytes "height")
    url ← text_of group_message s (bytes "url")
    snap_url ← text_of group_message s (bytes "snapUrl")
    type ← text_of group_message s (bytes "type")
    loaded (record {
      name = name;
      width = width;
      height = height;
      url = url;
      snap_url = snap_url;
      type = type;
    })

  -- RTSPStreams(Setting)
  unfoldable pub stream_setting : Setting → Loaded StreamSetting
  stream_setting s = do
    _ ← group group_message s
    _ ← int_of group_message s (bytes "rtspstream_id")
    pipeline ← text_of group_message s (bytes "pipeline")
    udp_port ← text_of group_message s (bytes "udpPort")
    tcp_port ← text_of group_message s (bytes "tcpPort")
    rtsp_url ← text_of group_message s (bytes "rtspUrl")
    test_stream ← bool_of group_message s (bytes "testStream")
    test_stream_src ← text_of group_message s (bytes "testStreamSrc")
    loaded (record {
      pipeline = pipeline;
      udp_port = udp_port;
      tcp_port = tcp_port;
      rtsp_url = rtsp_url;
      test_stream = test_stream;
      test_stream_src = test_stream_src;
    })

  -- The conversion of a setting to `const char *`.
  abbrev pub to_c_string : Setting → Option CString
  to_c_string s = elim (l.to_text s) [ none ↦ none | some t ↦ some (in_loader t) ]

  -- The first part of Configuration::loadAllSettings.
  unfoldable pub load_daemon_info : Config → Settings → Loaded Settings
  unfolding get_setting
  load_daemon_info c s = do
    pid_file ← get_setting l to_c_string c (bytes "pidFile") s.pid_file
    log_level ← get_setting l to_c_string c (bytes "log_level") s.log_level
    log_file ← get_setting l to_c_string c (bytes "log_file") s.log_file
    log_file_size_mb ←
        get_setting l l.to_int c (bytes "log_file_size_mb") s.configuration.log_file_size_mb
    log_file_count ←
        get_setting l l.to_int c (bytes "log_file_count") s.configuration.log_file_count
    log_async ← get_setting l l.to_bool c (bytes "log_async") s.configuration.log_async
    loaded (record {
      configuration = record s.configuration {
        log_file_size_mb = log_file_size_mb;
        log_file_count = log_file_count;
        log_async = log_async;
      };
      pid_file = pid_file;
      log_level = log_level;
      log_file = log_file;
    })

  -- The second part.
  unfoldable pub load_service_options : Config → Settings → Loaded Settings
  unfolding get_setting
  load_service_options c s = do
    port ← get_setting l l.to_int c (bytes "port") s.configuration.port
    user ← get_setting l l.to_text c (bytes "user") s.configuration.user
    password ← get_setting l l.to_text c (bytes "password") s.configuration.password
    manufacturer ← get_setting l l.to_text c (bytes "manufacturer") s.configuration.manufacturer
    model ← get_setting l l.to_text c (bytes "model") s.configuration.model
    firmware_version ←
        get_setting l l.to_text c (bytes "firmware_ver") s.configuration.firmware_version
    serial_number ← get_setting l l.to_text c (bytes "serial_num") s.configuration.serial_number
    hardware_id ← get_setting l l.to_text c (bytes "hardware_id") s.configuration.hardware_id
    interfaces ← get_setting l l.to_text c (bytes "interfaces") s.configuration.interfaces
    tz_format ← get_setting l l.to_text c (bytes "tz_format") s.configuration.tz_format
    loaded (record s {
      configuration = record s.configuration {
        port = port;
        user = user;
        password = password;
        manufacturer = manufacturer;
        model = model;
        firmware_version = firmware_version;
        serial_number = serial_number;
        hardware_id = hardware_id;
        interfaces = interfaces;
        tz_format = tz_format;
      };
    })

  -- Configuration::loadAllSettings
  unfoldable pub load_all_settings : Config → Settings → Loaded Settings
  unfolding load_daemon_info load_service_options get_array
  load_all_settings c s = do
    s1 ← load_daemon_info c s
    s2 ← load_service_options c s1
    scopes ← get_array l scope_setting c (bytes "scopes") s2.configuration.scopes
    profiles ← get_array l profile_setting c (bytes "profiles") s2.configuration.profiles
    streams ← get_array l stream_setting c (bytes "rtspStreams") s2.configuration.rtsp_streams
    loaded (record s2 {
      configuration = record s2.configuration {
        scopes = scopes;
        profiles = profiles;
        rtsp_streams = streams;
      };
    })

  -- Configuration(configFile)
  unfoldable pub load_configuration : Option Text → Loaded Settings
  unfolding load_all_settings config_loader destroy_loader
  load_configuration none = loaded default_settings
  load_configuration (some path) = do
    c ← config_loader l path
    s ← load_all_settings c default_settings
    loaded (destroy_loader s)
