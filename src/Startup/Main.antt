-- ===== src/Startup/Main.antt =====
-- main of src/onvif_srvd.cpp: the start, the threads and the loop that watches the service.
pub mod Serving
pub mod Service
pub mod Threads
pub mod Reach
pub mod Motionless
use onvif_srvd_cmake.Prelude.{
  ℕ, zero, suc, ◌+◌, Text, ℤ, Option, none, some, Bool, true, false, List, [], ◌∷◌, if◌then◌else◌,
}
use onvif_srvd_cmake.Prelude.StdMap.{StdMap}
use onvif_srvd_cmake.Kernel.{Kernel}
use onvif_srvd_cmake.Eth.{Ifreq}
use onvif_srvd_cmake.Context.{new_context}
use onvif_srvd_cmake.Daemon.{new_daemon_info}
use onvif_srvd_cmake.Rtsp.{RtspStreamConfig, new_streams}
use onvif_srvd_cmake.Startup.{
  ProfileSetting, Configuration, Setup, exits, goes_on, Reason, Program, processing_cfg,
}
use onvif_srvd_cmake.Startup.Loading.{Settings, read_c_string, load_configuration}
use onvif_srvd_cmake.Startup.Loading.Loader.{LibConfig, Exception, Loaded, throws, loaded}

-- The settings as main reads them, the three C strings through their pointers, where `freed` is what
-- the memory of the destroyed loader holds in place of a text.
unfoldable pub settings_read : (Text → Text) → Settings → Configuration
settings_read freed s = record s.configuration {
  pid_file = read_c_string freed s.pid_file;
  log_level = read_c_string freed s.log_level;
  log_file = read_c_string freed s.log_file;
}

-- The configurations that the threads of listOfStreams are made from, in the order of the map.
unfoldable pub thread_streams : StdMap RtspStreamConfig → List RtspStreamConfig
thread_streams [] = []
thread_streams ((url, stream) ∷ rest) = stream ∷ thread_streams rest

module _ (k : Kernel) (l : LibConfig) where
  -- What processing_cfg is called on.
  abbrev pub new_program : k.World → Program k
  new_program w = record {
    service_ctx = new_context;
    rtsp_streams = new_streams;
    onvif_daemon = record { daemon_config = new_daemon_info; str_err = [] };
    world = w;
  }

  -- An exception ends the program, processing_cfg ends it, or it runs.
  pub data Run : Type 0 where
    uncaught : Exception → Run
    error_exit : Reason → Run
    running : Program k → List RtspStreamConfig → Run

  -- Behind processing_cfg: a thread for each stream.
  unfoldable pub start_threads : Setup (Program k) → Run
  unfolding thread_streams
  start_threads (exits r) = error_exit r
  start_threads (goes_on p) = running p (thread_streams p.rtsp_streams.streams)

  module _ (junk : Ifreq) (old_tz : ℕ) (old : ProfileSetting → ℤ × ℤ) (freed : Text → Text)
      (w : k.World) where
    -- Behind the settings.
    unfoldable pub start_with : Loaded Settings → Run
    unfolding settings_read start_threads
    start_with (throws e) = uncaught e
    start_with (loaded s) =
        start_threads (processing_cfg k junk old_tz old (settings_read freed s) (new_program w))

    -- The part of main before its loop. `file` is what findConfigFile gives.
    unfoldable pub main_start : Option Text → Run
    unfolding start_with
    main_start file = start_with (load_configuration l file)

-- The loop of main: `failed` is what checkAndRestartOnFailure answers in each round. It gives the
-- round behind which the loop ends, and main returns EXIT_FAILURE; none where the fuel runs out.
unfoldable pub watch_loop : ℕ → (ℕ → Bool) → ℕ → Option ℕ
watch_loop zero failed round = none
watch_loop (suc fuel) failed round =
    let rest = watch_loop fuel failed (round + 1) in if failed round then some round else rest
