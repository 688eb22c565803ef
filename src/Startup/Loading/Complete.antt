-- ===== src/Startup/Loading/Complete.antt =====
-- Which files the settings can be read from: a description of what the constructors accept.
pub mod Reads
use onvif_srvd_cmake.Prelude.{
  Text, Option, none, some, Bool, true, false, List, [], ◌∷◌, ◌&&◌, ◌≡◌, refl, ap, ◌∙◌, bytes,
  is_some, all, arith,
}
use onvif_srvd_cmake.Startup.Loading.{
  Settings, profile_setting, scope_setting, stream_setting, load_daemon_info, load_service_options,
  load_all_settings, load_configuration, default_settings,
}
use onvif_srvd_cmake.Startup.Loading.Loader.{
  LibConfig, Loaded, throws, loaded, ◌>>=◌, or_throw, wrong_type, cannot_read, cannot_parse,
  get_setting, get_array, load_items, Read, opened, io_error, parse_error, config_loader,
}

abbrev pub is_loaded : {A : Type 0} → Loaded A → Bool
is_loaded (throws e) = false
is_loaded (loaded a) = true

-- The types of the settings that are no arrays.
pub data Kind : Type 0 where
  text int bool : Kind

-- The keys that are read, in their order.
abbrev pub daemon_keys : List (Kind × Text)
daemon_keys =
    (text, bytes "pidFile")
    ∷ (text, bytes "log_level")
    ∷ (text, bytes "log_file")
    ∷ (int, bytes "log_file_size_mb")
    ∷ (int, bytes "log_file_count")
    ∷ (bool, bytes "log_async")
    ∷ []

abbrev pub service_keys : List (Kind × Text)
service_keys =
    (int, bytes "port")
    ∷ (text, bytes "user")
    ∷ (text, bytes "password")
    ∷ (text, bytes "manufacturer")
    ∷ (text, bytes "model")
    ∷ (text, bytes "firmware_ver")
    ∷ (text, bytes "serial_num")
    ∷ (text, bytes "hardware_id")
    ∷ (text, bytes "interfaces")
    ∷ (text, bytes "tz_format")
    ∷ []

module _ (l : LibConfig) where
  open l use {Config, Setting}

  abbrev pub is_of : Kind → Setting → Bool
  is_of text s = is_some (l.to_text s)
  is_of int s = is_some (l.to_int s)
  is_of bool s = is_some (l.to_bool s)

  -- The file has no such key, or what it has there is good.
  abbrev pub absent_or : (Setting → Bool) → Config → Text → Bool
  absent_or good c key = elim (l.lookup c key) [ none ↦ true | some s ↦ good s ]

  abbrev pub all_texts : Setting → List Text → Bool
  all_texts s keys = all (λ key. is_some (l.text_value s key)) keys

  abbrev pub is_scope : Setting → Bool
  is_scope s =
      l.is_group s
      && is_some (l.int_value s (bytes "scopes_id"))
      && all_texts s (bytes "scopeUri" ∷ [])

  abbrev pub is_profile : Setting → Bool
  is_profile s =
      l.is_group s
      && is_some (l.int_value s (bytes "profile_id"))
      && all_texts s (
          bytes "name"
          ∷ bytes "width"
          ∷ bytes "height"
          ∷ bytes "url"
          ∷ bytes "snapUrl"
          ∷ bytes "type"
          ∷ [])

  abbrev pub is_stream : Setting → Bool
  is_stream s =
      l.is_group s
      && is_some (l.int_value s (bytes "rtspstream_id"))
      && is_some (l.bool_value s (bytes "testStream"))
      && all_texts s (
          bytes "pipeline"
          ∷ bytes "udpPort"
          ∷ bytes "tcpPort"
          ∷ bytes "rtspUrl"
          ∷ bytes "testStreamSrc"
          ∷ [])

  -- Every key that the file has is of its type, and every item of the three arrays is a complete
  -- group.
  abbrev pub file_accepted : Config → Bool
  file_accepted c =
      all (λ (kind, key). absent_or (is_of kind) c key) daemon_keys
      && all (λ (kind, key). absent_or (is_of kind) c key) service_keys
      && absent_or (λ s. all is_scope (l.items s)) c (bytes "scopes")
      && absent_or (λ s. all is_profile (l.items s)) c (bytes "profiles")
      && absent_or (λ s. all is_stream (l.items s)) c (bytes "rtspStreams")
