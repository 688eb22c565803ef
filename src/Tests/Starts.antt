-- ===== src/Tests/Starts.antt =====
-- A start of the program.
use onvif_srvd_cmake.Prelude.{
  ℕ, Text, Option, none, str_eq, if◌then◌else◌, [], ◌∷◌, pos, bytes, c_str, some, true, ◌≡◌, refl,
  eqb_ℤ, ◌&&◌,
}
use onvif_srvd_cmake.Kernel.{Kernel}
use onvif_srvd_cmake.Context.{new_context}
use onvif_srvd_cmake.Context.Profiles.{new_context-IsWellFormed}
use onvif_srvd_cmake.Eth.{empty_ifreq, new_eth, open_dev, open_on}
use onvif_srvd_cmake.Rtsp.Streams.{new_streams-IsWellFormed}
use onvif_srvd_cmake.Startup.{Configuration, processing_cfg}
use onvif_srvd_cmake.Startup.Defaults.{default_configuration}
use onvif_srvd_cmake.Startup.Filling.{Holds}
use onvif_srvd_cmake.Startup.Ready.{IsReady, processing_cfg-IsReady}
use onvif_srvd_cmake.Startup.Defaults.Starts.{fresh}
use onvif_srvd_cmake.Startup.Loading.{default_settings, load_configuration}
use onvif_srvd_cmake.Startup.Loading.Loader.{LibConfig, opened, loaded}
use onvif_srvd_cmake.Startup.Loading.Complete.{is_loaded, file_accepted}
use onvif_srvd_cmake.Startup.Loading.Complete.Reads.{load_configuration-file_accepted}
use onvif_srvd_cmake.Startup.Loading.Returns.{Returns}
use onvif_srvd_cmake.Startup.Loading.Strings.{AllDangle, load_configuration-AllDangle}
use onvif_srvd_cmake.Startup.Main.{main_start, settings_read}
use onvif_srvd_cmake.Startup.Acceptance.Runs.{accepted, is_running, main_start-accepted}
use onvif_srvd_cmake.Startup.Main.Service.{IsServing, main_start-IsServing}
use onvif_srvd_cmake.Startup.Main.Serving.{WhileRunning, ServesGroups, main_start-ServesGroups}
use onvif_srvd_cmake.Tests.Fixtures.{toy, whole}

-- The default settings on the interface that the small kernel has.
abbrev settings : Configuration
settings = record default_configuration { interfaces = bytes "eth0" }

processing_cfg-IsReady_example :
    Holds
      (IsReady toy settings new_context)
      (processing_cfg toy empty_ifreq 7 (λ s. (pos 0, pos 0)) settings (fresh toy 3))
processing_cfg-IsReady_example =
    processing_cfg-IsReady toy empty_ifreq 7 (λ s. (pos 0, pos 0)) settings (fresh toy 3)
      new_context-IsWellFormed new_streams-IsWellFormed

-- The small kernel with flags for every interface.
abbrev pub lenient : Kernel
lenient = record toy { get_flags = λ fd name w. true }

pub opens :
    (open_dev lenient (some (c_str default_configuration.interfaces)) (new_eth empty_ifreq) 3).0
    ≡ pos 0
unfolding open_dev open_on default_configuration c_str bytes
opens = refl

-- A file with one profile, which is setting 1 in the array 0, and a name of the pid file.
abbrev front : Text → Option Text
front key =
    if str_eq key (bytes "name")
    then some (bytes "front")
    else if str_eq key (bytes "width")
    then some (bytes "640")
    else if str_eq key (bytes "height")
    then some (bytes "480")
    else if str_eq key (bytes "url")
    then some (bytes "rtsp://%s/front")
    else if str_eq key (bytes "snapUrl")
    then some []
    else if str_eq key (bytes "type")
    then some (bytes "H264")
    else none

abbrev pub file : LibConfig
file = record {
  Config = Unit;
  Setting = ℕ;
  read_file = λ path. opened tt;
  lookup = λ c key.
      if str_eq key (bytes "profiles")
      then some 0
      else if str_eq key (bytes "pidFile")
      then some 2
      else none;
  to_text = λ s. some (bytes "/run/onvif.pid");
  to_int = λ s. none;
  to_bool = λ s. none;
  is_group = λ s. true;
  items = λ s. 1 ∷ [];
  text_value = λ s key. front key;
  int_value = λ s key. some (pos 0);
  bool_value = λ s key. none;
}

abbrev path : Text
path = bytes "/etc/onvif_srvd/config.cfg"

load_configuration-AllDangle_example :
    (load_configuration file none ≡ loaded default_settings)
    × Returns (AllDangle file tt) (load_configuration file (some path))
load_configuration-AllDangle_example = load_configuration-AllDangle file path tt refl

load_configuration-file_accepted_example :
    is_loaded (load_configuration file (some path)) ≡ file_accepted file tt
load_configuration-file_accepted_example = load_configuration-file_accepted file path

main_start-ServesGroups_example :
    WhileRunning lenient file
      (ServesGroups lenient file whole [] 0)
      (main_start lenient file empty_ifreq 7 (λ s. (pos 0, pos 0)) (λ t. t) 3 (some path))
unfolding bytes
main_start-ServesGroups_example =
    main_start-ServesGroups lenient file whole [] empty_ifreq 7 (λ s. (pos 0, pos 0)) (λ t. t) 3
      path tt 0 refl refl

-- The whole start with the defaults, on a host where every port can be bound.
main_start-IsServing_example :
    WhileRunning lenient file
      (IsServing lenient file (λ port. true))
      (main_start lenient file empty_ifreq 7 (λ s. (pos 0, pos 0)) (λ t. t) 3 none)
unfolding load_configuration default_settings default_configuration
main_start-IsServing_example =
    main_start-IsServing lenient file (λ port. true) empty_ifreq 7 (λ s. (pos 0, pos 0)) (λ t. t) 3
      none default_settings (λ port. refl) refl (λ e. cc) (λ e. cc)

-- The same start runs, as the defaults are accepted and the interface can be opened.
main_start-accepted_example :
    is_running (main_start lenient file empty_ifreq 7 (λ s. (pos 0, pos 0)) (λ t. t) 3 none) ≡ (
      eqb_ℤ
        (open_dev lenient
          (some (c_str (settings_read (λ t. t) default_settings).interfaces))
          (new_eth empty_ifreq)
          3).0
        (pos 0)
      && accepted 7 (λ s. (pos 0, pos 0)) (settings_read (λ t. t) default_settings))
unfolding load_configuration
main_start-accepted_example =
    main_start-accepted lenient file empty_ifreq 7 (λ s. (pos 0, pos 0)) (λ t. t) 3 none
      default_settings refl
