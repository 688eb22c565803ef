-- ===== src/Ptz.antt =====
-- PTZBindingService, src/ServicePTZ.cpp: the handlers that move the camera by shell commands, and
-- those that describe its presets and its node. A handler returns the status with the effects that
-- it has, or with its response. A request that may be NULL is an Option.
pub mod Moves
pub mod Nodes
pub mod Presets
pub mod Empty
use onvif_srvd_cmake.Prelude.{
  ℕ, zero, suc, ◌+◌, Text, ℤ, pos, negsuc, Option, none, some, Bool, true, false, List, [], ◌∷◌,
  ◌++◌, ◌≡◌, length, is_empty, bytes, c_str, if◌then◌else◌,
}
use onvif_srvd_cmake.Prelude.Stream.{decimal}
use onvif_srvd_cmake.Prelude.Substring.{str_find, str_replace}
use onvif_srvd_cmake.Profile.Soap.{Limit, tenths, FloatRange}
use onvif_srvd_cmake.PtzNode.{PtzNode}
use onvif_srvd_cmake.Soap.{SoapStatus, soap_ok, Effect, system, usleep}

-- The floats of a request and the comparisons `x > 0` and `x < 0`, which never both hold.
pub record Floats : Type 1 where
  pub Float : Type 0
  pub is_positive : Float → Bool
  pub is_negative : Float → Bool
  pub exclusive : (x : Float) → is_positive x ≡ true → is_negative x ≡ false

-- The tokens of a request for a preset.
pub record GotoPreset : Type 0 where
  pub profile_token : Text
  pub preset_token : Text

-- "%t"
abbrev pub template_str_t : Text
template_str_t = b'%' ∷ b't' ∷ []

-- The command with the token in place of the first "%t", if there is one.
abbrev pub fill_preset : Text → Text → Text
fill_preset preset_cmd token = elim (str_find template_str_t preset_cmd) [
  | none ↦ preset_cmd
  | some it ↦ str_replace preset_cmd it (length template_str_t) token
]

-- GotoPreset. The tests of `c_str() == NULL` never hold, and are left out.
unfoldable pub goto_preset : Option GotoPreset → PtzNode → SoapStatus × List Effect
goto_preset none n = (soap_ok, [])
goto_preset (some request) n = if is_empty n.move_preset then (soap_ok, []) else (
  soap_ok,
  system (c_str (fill_preset (c_str n.move_preset) (c_str request.preset_token))) ∷ [],
)

-- GotoHomePosition; the request holds a profile token.
unfoldable pub goto_home_position : Option Text → PtzNode → SoapStatus × List Effect
goto_home_position none n = (soap_ok, [])
goto_home_position (some profile_token) n =
    if is_empty n.move_preset
    then (soap_ok, [])
    else (soap_ok, system (c_str (fill_preset (c_str n.move_preset) (b'1' ∷ []))) ∷ [])

module _ (f : Floats) where
  open f use {Float, is_positive, is_negative}

  -- A vector of speeds or distances; PanTilt may be NULL.
  pub record Vector : Type 0 where
    pub x : Float
    pub y : Float

  -- ContinuousMove: the request, its Velocity and the PanTilt in that may be NULL.
  unfoldable pub continuous_move :
      Option (Option (Option Vector)) → PtzNode → SoapStatus × List Effect
  continuous_move none n = (soap_ok, [])
  continuous_move (some none) n = (soap_ok, [])
  continuous_move (some (some none)) n = (soap_ok, [])
  continuous_move (some (some (some v))) n = (
    soap_ok,
    (if is_positive v.x
          then system (c_str n.move_right) ∷ []
          else if is_negative v.x
          then system (c_str n.move_left) ∷ []
          else [])
        ++ (if is_positive v.y
            then system (c_str n.move_up) ∷ []
            else if is_negative v.y
            then system (c_str n.move_down) ∷ []
            else []),
  )

  -- RelativeMove: as above, with a Translation.
  unfoldable pub relative_move :
      Option (Option (Option Vector)) → PtzNode → SoapStatus × List Effect
  relative_move none n = (soap_ok, [])
  relative_move (some none) n = (soap_ok, [])
  relative_move (some (some none)) n = (soap_ok, [])
  relative_move (some (some (some v))) n = (
    soap_ok,
    (if is_positive v.x
          then system (c_str n.move_right) ∷ usleep 300000 ∷ system (c_str n.move_stop) ∷ []
          else if is_negative v.x
          then system (c_str n.move_left) ∷ usleep 300000 ∷ system (c_str n.move_stop) ∷ []
          else [])
        ++ (if is_positive v.y
            then system (c_str n.move_up) ∷ usleep 300000 ∷ system (c_str n.move_stop) ∷ []
            else if is_negative v.y
            then system (c_str n.move_down) ∷ usleep 300000 ∷ system (c_str n.move_stop) ∷ []
            else []),
  )

-- Stop
unfoldable pub stop : PtzNode → SoapStatus × List Effect
stop n = (soap_ok, system (c_str n.move_stop) ∷ [])

-- tt__PTZPreset: its position is (pan, tilt, zoom), counted in tenths.
pub record PtzPreset : Type 0 where
  pub token : Text
  pub name : Text
  pub pan : Limit
  pub tilt : Limit
  pub zoom : Limit

-- GetPTZPreset
unfoldable pub get_ptz_preset : ℕ → PtzPreset
get_ptz_preset number = record {
  token = decimal number;
  name = decimal number;
  pan = tenths (pos 0);
  tilt = tenths (pos 0);
  zoom = tenths (pos 10);
}

-- The loop of GetPresets, with `rounds` to go.
unfoldable pub presets_loop : ℕ → ℕ → List PtzPreset
presets_loop zero i = []
presets_loop (suc rounds) i = get_ptz_preset i ∷ presets_loop rounds (i + 1)

unfoldable pub get_presets : SoapStatus × List PtzPreset
unfolding presets_loop
get_presets = (soap_ok, presets_loop 8 0)
