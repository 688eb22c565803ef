-- ===== src/Tests/Reach.antt =====
-- Clients of a program with the default settings: the way to a stream, and to the camera.
use onvif_srvd_cmake.Prelude.{none, true, List, [], ◌∷◌, pos, bytes, c_str, ◌≡◌, refl}
use onvif_srvd_cmake.Eth.{empty_ifreq}
use onvif_srvd_cmake.Rtsp.{RtspStreamConfig}
use onvif_srvd_cmake.Services.{Surroundings, session, to_ptz, stop}
use onvif_srvd_cmake.Startup.{Program}
use onvif_srvd_cmake.Startup.Defaults.{default_configuration, default_profile, default_stream}
use onvif_srvd_cmake.Startup.Loading.{default_settings, load_configuration}
use onvif_srvd_cmake.Startup.Main.{main_start, running, settings_read}
use onvif_srvd_cmake.Startup.Main.Reach.{Reaches, main_start-Reaches}
use onvif_srvd_cmake.Startup.Main.Motionless.{StaysMotionless, main_start-StaysMotionless}
use onvif_srvd_cmake.Startup.Main.Serving.{WhileRunning}
use onvif_srvd_cmake.Startup.Acceptance.Runs.{accepted}
use onvif_srvd_cmake.Context.{tz_of}
use onvif_srvd_cmake.Prelude.Stream.{extract_int, extract_unsigned}
use onvif_srvd_cmake.Tests.Fixtures.{junk, whole}
use onvif_srvd_cmake.Tests.Sessions.{noon}
use onvif_srvd_cmake.Tests.Starts.{lenient, file, opens}

defaults_accepted :
    accepted 7 (λ s. (pos 0, pos 0)) (settings_read (λ t. t) default_settings) ≡ true
unfolding settings_read default_settings default_configuration default_profile default_stream bytes
    c_str tz_of extract_int extract_unsigned
defaults_accepted = refl

abbrev around : Surroundings lenient whole
around = record {
  world = 3;
  junk = junk;
  soap_ip = 5;
  allocated = true;
  environment = record { tz = none; tz_onvif = none };
  now = noon;
  utc = noon;
  debug = true;
}

-- The right monitor is the first profile and the second stream.
main_start-Reaches_example :
    (p : Program lenient) × (streams : List RtspStreamConfig) × (main_start lenient file empty_ifreq
        7
        (λ s. (pos 0, pos 0))
        (λ t. t)
        3
        none
      ≡ running p streams)
    × Reaches lenient whole around
        (session lenient whole [] p.service_ctx)
        streams
        (default_profile 0)
        (default_stream 1)
unfolding load_configuration default_settings default_configuration default_profile default_stream
    bytes c_str
main_start-Reaches_example =
    main_start-Reaches lenient whole around file empty_ifreq 7 (λ s. (pos 0, pos 0)) (λ t. t) 3 none
      default_settings [] 0 1 (default_profile 0) (default_stream 1) refl opens defaults_accepted
      refl refl refl

-- A session that moves the camera first.
main_start-StaysMotionless_example :
    WhileRunning lenient file
      (StaysMotionless lenient whole around file
        ((around, to_ptz stop) ∷ [])
        empty_ifreq
        7
        (λ s. (pos 0, pos 0))
        (λ t. t)
        3)
      (main_start lenient file empty_ifreq 7 (λ s. (pos 0, pos 0)) (λ t. t) 3 none)
main_start-StaysMotionless_example =
    main_start-StaysMotionless lenient whole around file ((around, to_ptz stop) ∷ []) empty_ifreq 7
      (λ s. (pos 0, pos 0)) (λ t. t) 3 none
