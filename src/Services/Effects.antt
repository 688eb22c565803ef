-- ===== src/Services/Effects.antt =====
-- What the handlers of the media and the PTZ service do outside the process.
use onvif_srvd_cmake.Prelude.{
  ◌⊎◌, Text, Option, none, some, Bool, true, false, List, [], ◌∷◌, ◌≡◌, refl, inl, inr, All,
  All-append, bytes, c_str, Bool-cases, is_empty, if◌then◌else◌,
}
use onvif_srvd_cmake.Kernel.{Kernel}
use onvif_srvd_cmake.PtzNode.{PtzNode}
use onvif_srvd_cmake.Context.{ServiceContext}
use onvif_srvd_cmake.Soap.{Effect, system, usleep, publish}
use onvif_srvd_cmake.Media
use onvif_srvd_cmake.Ptz
use onvif_srvd_cmake.Ptz.{fill_preset}
use onvif_srvd_cmake.Services.{
  MediaRequest, PtzRequest, to_media, to_ptz, Surroundings, handle_media, handle_ptz, handle,
  get_media_capabilities, get_video_sources, get_profiles, start_multicast_streaming,
  stop_multicast_streaming, get_profile, get_compatible_video_encoder_configurations,
  get_compatible_video_source_configurations, get_stream_uri, get_snapshot_uri, media_empty,
  get_presets, stop, get_nodes, get_node, goto_preset, goto_home_position, continuous_move,
  relative_move, ptz_empty,
}

-- A command of the configuration: a move, or the preset command with some token filled in.
pub data IsConfigured (n : PtzNode) : Text → Type 0 where
  move_left : IsConfigured n (c_str n.move_left)
  move_right : IsConfigured n (c_str n.move_right)
  move_up : IsConfigured n (c_str n.move_up)
  move_down : IsConfigured n (c_str n.move_down)
  move_stop : IsConfigured n (c_str n.move_stop)
  preset : (token : Text) → IsConfigured n (c_str (fill_preset (c_str n.move_preset) token))

-- A move: a configured command, or a pause of 0.3 seconds.
abbrev pub IsMove : PtzNode → Effect → Type 0
IsMove n (system command) = IsConfigured n command
IsMove n (usleep time) = time ≡ 300000
IsMove n (publish topic msg) = ⊥

-- A message to the topic watchman_command_json or, if the build defines DEBUG, to the topic Test.
abbrev pub IsMessage : Bool → Effect → Type 0
IsMessage debug (publish topic msg) =
    (topic ≡ bytes "watchman_command_json") ⊎ ((debug ≡ true) × (topic ≡ bytes "Test"))
IsMessage _ _ = ⊥

-- The commands of one axis: forward, backward or none.
axis-IsMove :
    (n : PtzNode) (forward backward : Bool) (xs ys : List Effect)
    → All (IsMove n) xs
    → All (IsMove n) ys
    → All (IsMove n) (if forward then xs else if backward then ys else [])
axis-IsMove n true b xs ys h g = h
axis-IsMove n false true xs ys h g = g
axis-IsMove n false false xs ys h g = tt

module _ (n : PtzNode) where
  goto_preset-IsMove :
      (request : Option Ptz.GotoPreset) → All (IsMove n) (Ptz.goto_preset request n).1
  unfolding Ptz.goto_preset
  goto_preset-IsMove none = tt
  goto_preset-IsMove (some request) = elim (Bool-cases (is_empty n.move_preset)) [
    | inl unset ↦ rw unset tt
    | inr set ↦ rw set (preset (c_str request.preset_token), tt)
  ]

  goto_home_position-IsMove :
      (request : Option Text) → All (IsMove n) (Ptz.goto_home_position request n).1
  unfolding Ptz.goto_home_position
  goto_home_position-IsMove none = tt
  goto_home_position-IsMove (some token) = elim (Bool-cases (is_empty n.move_preset)) [
    | inl unset ↦ rw unset tt
    | inr set ↦ rw set (preset (b'1' ∷ []), tt)
  ]

  module _ (f : Ptz.Floats) where
    continuous_move-IsMove :
        (request : Option (Option (Option (Ptz.Vector f))))
        → All (IsMove n) (Ptz.continuous_move f request n).1
    unfolding Ptz.continuous_move
    continuous_move-IsMove none = tt
    continuous_move-IsMove (some none) = tt
    continuous_move-IsMove (some (some none)) = tt
    continuous_move-IsMove (some (some (some v))) =
        All-append (IsMove n) _ _
          (axis-IsMove n (f.is_positive v.x) (f.is_negative v.x) (system (c_str n.move_right) ∷ [])
            (system (c_str n.move_left) ∷ []) (move_right, tt) (move_left, tt))
          (axis-IsMove n (f.is_positive v.y) (f.is_negative v.y) (system (c_str n.move_up) ∷ [])
            (system (c_str n.move_down) ∷ []) (move_up, tt) (move_down, tt))

    relative_move-IsMove :
        (request : Option (Option (Option (Ptz.Vector f))))
        → All (IsMove n) (Ptz.relative_move f request n).1
    unfolding Ptz.relative_move
    relative_move-IsMove none = tt
    relative_move-IsMove (some none) = tt
    relative_move-IsMove (some (some none)) = tt
    relative_move-IsMove (some (some (some v))) =
        All-append (IsMove n) _ _
          (axis-IsMove n (f.is_positive v.x) (f.is_negative v.x) (and_stop n.move_right)
            (and_stop n.move_left) (move_right, (refl, (move_stop, tt)))
            (move_left, (refl, (move_stop, tt))))
          (axis-IsMove n (f.is_positive v.y) (f.is_negative v.y) (and_stop n.move_up)
            (and_stop n.move_down) (move_up, (refl, (move_stop, tt)))
            (move_down, (refl, (move_stop, tt))))
      where
        and_stop : Text → List Effect
        and_stop command = system (c_str command) ∷ usleep 300000 ∷ system (c_str n.move_stop) ∷ []

send_mqtt_msg-IsMessage :
    (debug : Bool) (msg : Text) → All (IsMessage debug) (Media.send_mqtt_msg debug msg)
unfolding Media.send_mqtt_msg
send_mqtt_msg-IsMessage true msg = (inr (refl, refl), (inl refl, tt))
send_mqtt_msg-IsMessage false msg = (inl refl, tt)

module _ (k : Kernel) (f : Ptz.Floats) (s : Surroundings k f) (c : ServiceContext) where
  ptz-IsMove : (r : PtzRequest k f) → All (IsMove c.ptz_node) (handle_ptz k f s c r).effects
  unfolding handle_ptz Ptz.stop
  ptz-IsMove get_presets = tt
  ptz-IsMove stop = (move_stop, tt)
  ptz-IsMove get_nodes = tt
  ptz-IsMove get_node = tt
  ptz-IsMove (goto_preset request) = goto_preset-IsMove c.ptz_node request
  ptz-IsMove (goto_home_position request) = goto_home_position-IsMove c.ptz_node request
  ptz-IsMove (continuous_move request) = continuous_move-IsMove c.ptz_node f request
  ptz-IsMove (relative_move request) = relative_move-IsMove c.ptz_node f request
  ptz-IsMove (ptz_empty e) = tt

  media-IsMessage : (r : MediaRequest) → All (IsMessage s.debug) (handle_media k f s c r).effects
  unfolding handle_media Media.handle_start_multicast_streaming
      Media.handle_stop_multicast_streaming
  media-IsMessage get_media_capabilities = tt
  media-IsMessage get_video_sources = tt
  media-IsMessage get_profiles = tt
  media-IsMessage start_multicast_streaming = send_mqtt_msg-IsMessage s.debug _
  media-IsMessage stop_multicast_streaming = send_mqtt_msg-IsMessage s.debug _
  media-IsMessage (get_profile token) = tt
  media-IsMessage (get_compatible_video_encoder_configurations token) = tt
  media-IsMessage (get_compatible_video_source_configurations token) = tt
  media-IsMessage (get_stream_uri token) = tt
  media-IsMessage (get_snapshot_uri token) = tt
  media-IsMessage (media_empty e) = tt

  -- What a request to the media service and one to the PTZ service do outside the process: the first
  -- at most publishes messages, to the topic watchman_command_json and, where the build defines
  -- DEBUG, to the topic Test; the second runs shell commands and pauses for 0.3 seconds, and every
  -- command is one of the five configured moves or the configured preset command with a token filled
  -- in.
  pub handle-Permitted :
      (m : MediaRequest) (p : PtzRequest k f)
      → All (IsMessage s.debug) (handle k f s c (to_media m)).effects
        × All (IsMove c.ptz_node) (handle k f s c (to_ptz p)).effects
  unfolding handle
  handle-Permitted m p = (media-IsMessage m, ptz-IsMove p)
