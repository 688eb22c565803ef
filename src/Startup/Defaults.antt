-- ===== src/Startup/Defaults.antt =====
-- The settings that src/Configuration.hpp has without a configuration file.
pub mod Starts
use onvif_srvd_cmake.Prelude.{ℕ, zero, suc, Text, pos, false, [], ◌∷◌, bytes}
use onvif_srvd_cmake.Startup.{ProfileSetting, StreamSetting, Configuration}

-- Scopes(id), of which the program reads the URI.
unfoldable pub default_scope : ℕ → Text
default_scope zero = bytes "onvif://www.onvif.org/name/Combiner-Feed"
default_scope (suc zero) = bytes "onvif://www.onvif.org/location/[PLATFORM ID]"
default_scope (suc (suc zero)) = bytes "onvif://www.onvif.org/Profile/Streaming"
default_scope (suc (suc (suc zero))) = bytes "onvif://www.onvif.org/Profile/S"
default_scope (suc (suc (suc (suc n)))) = []

-- Profiles(id)
unfoldable pub default_profile : ℕ → ProfileSetting
default_profile zero = record {
  name = bytes "Right_Monitor";
  width = bytes "1024";
  height = bytes "768";
  url = bytes "rtsp://%s:554/right";
  snap_url = [];
  type = bytes "H264";
}
default_profile (suc zero) = record {
  name = bytes "Left_Monitor";
  width = bytes "1024";
  height = bytes "768";
  url = bytes "rtsp://%s:8554/left";
  snap_url = [];
  type = bytes "H264";
}
default_profile (suc (suc n)) = record {
  name = [];
  width = [];
  height = [];
  url = [];
  snap_url = [];
  type = [];
}

abbrev pub default_pipeline : Text
default_pipeline =
    bytes
      " ! application/x-rtp,clock-rate=90000,payload=96 ! rtph264depay ! rtph264pay name=pay0 pt=96 )\""

-- RTSPStreams(id)
unfoldable pub default_stream : ℕ → StreamSetting
default_stream zero = record {
  pipeline = default_pipeline;
  udp_port = bytes "5001";
  tcp_port = bytes "8554";
  rtsp_url = bytes "/left";
  test_stream = false;
  test_stream_src = bytes "videotestsrc pattern=ball";
}
default_stream (suc zero) = record {
  pipeline = default_pipeline;
  udp_port = bytes "5000";
  tcp_port = bytes "554";
  rtsp_url = bytes "/right";
  test_stream = false;
  test_stream_src = bytes "videotestsrc";
}
default_stream (suc (suc n)) = record {
  pipeline = [];
  udp_port = [];
  tcp_port = [];
  rtsp_url = [];
  test_stream = false;
  test_stream_src = [];
}

unfoldable pub default_configuration : Configuration
unfolding default_scope default_profile default_stream
default_configuration = record {
  pid_file = bytes "/tmp/onvif_svrd_debug.pid";
  log_level = bytes "debug";
  log_file = [];
  log_file_size_mb = pos 0;
  log_file_count = pos 0;
  log_async = false;
  port = pos 1000;
  user = bytes "admin";
  password = bytes "admin";
  manufacturer = bytes "Rinicom";
  model = bytes "Watchman";
  firmware_version = bytes "UNKNOWN";
  serial_number = bytes "UNKNOWN";
  hardware_id = bytes "UNKNOWN";
  interfaces = bytes "enp5s0";
  tz_format = bytes "0";
  scopes = default_scope 0 ∷ default_scope 1 ∷ default_scope 2 ∷ default_scope 3 ∷ [];
  profiles = default_profile 0 ∷ default_profile 1 ∷ [];
  rtsp_streams = default_stream 0 ∷ default_stream 1 ∷ [];
}
