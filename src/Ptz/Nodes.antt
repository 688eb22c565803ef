-- ===== src/Ptz/Nodes.antt =====
-- GetNodes and GetNode of src/ServicePTZ.cpp, with GetPTZNode.
use onvif_srvd_cmake.Prelude.{
  ℕ, Text, pos, negsuc, Option, none, some, Bool, true, List, [], ◌∷◌, bytes,
}
use onvif_srvd_cmake.Profile.Soap.{tenths, FloatRange}
use onvif_srvd_cmake.Soap.{SoapStatus, soap_ok}

-- A space of positions, translations or speeds with its ranges; the second only in the plane.
pub record Space : Type 0 where
  pub uri : Text
  pub x_range : FloatRange
  pub y_range : Option FloatRange

-- tt__PTZNode; each kind of space has one entry.
pub record Node : Type 0 where
  pub token : Text
  pub name : Text
  pub relative_pan_tilt : List Space
  pub relative_zoom : List Space
  pub continuous_pan_tilt : List Space
  pub continuous_zoom : List Space
  pub pan_tilt_speed : List Space
  pub zoom_speed : List Space
  pub maximum_number_of_presets : ℕ
  pub home_supported : Bool
  pub fixed_home_position : Bool

abbrev pub symmetric : FloatRange
symmetric = record { min = tenths (negsuc 9); max = tenths (pos 10) }

abbrev pub speeds : FloatRange
speeds = record { min = tenths (pos 0); max = tenths (pos 10) }

-- GetPTZNode
unfoldable pub get_ptz_node : Node
get_ptz_node = record {
  token = bytes "PTZNodeToken";
  name = bytes "PTZ";
  relative_pan_tilt =
      record {
        uri = bytes "http://www.onvif.org/ver10/tptz/PanTiltSpaces/TranslationGenericSpace";
        x_range = symmetric;
        y_range = some symmetric;
      }
      ∷ [];
  relative_zoom =
      record {
        uri = bytes "http://www.onvif.org/ver10/tptz/ZoomSpaces/TranslationGenericSpace";
        x_range = symmetric;
        y_range = none;
      }
      ∷ [];
  continuous_pan_tilt =
      record {
        uri = bytes "http://www.onvif.org/ver10/tptz/PanTiltSpaces/VelocityGenericSpace";
        x_range = symmetric;
        y_range = some symmetric;
      }
      ∷ [];
  continuous_zoom =
      record {
        uri = bytes "http://www.onvif.org/ver10/tptz/ZoomSpaces/VelocityGenericSpace";
        x_range = symmetric;
        y_range = none;
      }
      ∷ [];
  pan_tilt_speed =
      record {
        uri = bytes "http://www.onvif.org/ver10/tptz/PanTiltSpaces/GenericSpeedSpace";
        x_range = speeds;
        y_range = none;
      }
      ∷ [];
  zoom_speed =
      record {
        uri = bytes "http://www.onvif.org/ver10/tptz/ZoomSpaces/ZoomGenericSpeedSpace";
        x_range = speeds;
        y_range = none;
      }
      ∷ [];
  maximum_number_of_presets = 8;
  home_supported = true;
  fixed_home_position = true;
}

-- GetNodes and GetNode
unfoldable pub get_nodes : SoapStatus × List Node
get_nodes = (soap_ok, get_ptz_node ∷ [])

unfoldable pub get_node : SoapStatus × Node
get_node = (soap_ok, get_ptz_node)
