-- ===== src/Profile/Soap.antt =====
-- The SOAP views of a profile: get_video_src_cnf, get_video_enc_cfg, get_ptz_cfg, get_profile and
-- get_video_src of src/ServiceContext.cpp. An optional element is an Option; an element that the
-- code leaves at its default is no field. A float constant is counted in tenths.
use onvif_srvd_cmake.Prelude.{ℕ, Text, ℤ, pos, Option, none, some, Bool, bytes, if◌then◌else◌}
use onvif_srvd_cmake.Profile.{VideoEncoding, StreamProfile}

pub record IntRectangle : Type 0 where
  pub x : ℤ
  pub y : ℤ
  pub width : ℤ
  pub height : ℤ

pub record VideoResolution : Type 0 where
  pub width : ℤ
  pub height : ℤ

pub record VideoSourceConfiguration : Type 0 where
  pub token : Text
  pub source_token : Text
  pub bounds : IntRectangle

-- The rate control: frame rate limit, encoding interval, bitrate limit.
pub record VideoRateControl : Type 0 where
  pub frame_rate_limit : ℤ
  pub encoding_interval : ℤ
  pub bitrate_limit : ℤ

pub record VideoEncoderConfiguration : Type 0 where
  pub name : Text
  pub token : Text
  pub resolution : VideoResolution
  pub rate_control : VideoRateControl
  pub encoding : Option VideoEncoding

pub data Limit : Type 0 where
  minus_infinity infinity : Limit
  tenths : ℤ → Limit

pub record FloatRange : Type 0 where
  pub min : Limit
  pub max : Limit

pub record PtzConfiguration : Type 0 where
  pub name : Text
  pub token : Text
  pub node_token : Text
  pub absolute_pan_tilt_space : Text
  pub absolute_zoom_space : Text
  pub relative_pan_tilt_space : Text
  pub relative_zoom_space : Text
  pub continuous_pan_tilt_space : Text
  pub continuous_zoom_space : Text
  pub speed_x : Limit
  pub speed_y : Limit
  pub speed_zoom : Limit
  pub default_timeout : ℕ
  pub pan_tilt_uri : Text
  pub pan_tilt_x : FloatRange
  pub pan_tilt_y : FloatRange
  pub zoom_uri : Text
  pub zoom_x : FloatRange

pub record MediaProfile : Type 0 where
  pub name : Text
  pub token : Text
  pub video_source : VideoSourceConfiguration
  pub video_encoder : VideoEncoderConfiguration
  pub ptz : Option PtzConfiguration

pub record VideoSource : Type 0 where
  pub token : Text
  pub resolution : VideoResolution

unfoldable pub get_video_src_cnf : StreamProfile → VideoSourceConfiguration
get_video_src_cnf p = record {
  token = p.name;
  source_token = p.name;
  bounds = record { x = pos 0; y = pos 0; width = p.width; height = p.height };
}

unfoldable pub get_video_enc_cfg : StreamProfile → VideoEncoderConfiguration
get_video_enc_cfg p = record {
  name = p.name;
  token = p.name;
  resolution = record { width = p.width; height = p.height };
  rate_control = record {
    frame_rate_limit = pos 0;
    encoding_interval = pos 0;
    bitrate_limit = pos 0;
  };
  encoding = p.type;
}

abbrev pub unbounded : FloatRange
unbounded = record { min = minus_infinity; max = infinity }

unfoldable pub get_ptz_cfg : PtzConfiguration
get_ptz_cfg = record {
  name = bytes "PTZ";
  token = bytes "PTZToken";
  node_token = bytes "PTZNodeToken";
  absolute_pan_tilt_space =
      bytes "http://www.onvif.org/ver10/tptz/PanTiltSpaces/PositionGenericSpace";
  absolute_zoom_space = bytes "http://www.onvif.org/ver10/tptz/ZoomSpaces/PositionGenericSpace";
  relative_pan_tilt_space =
      bytes "http://www.onvif.org/ver10/tptz/PanTiltSpaces/TranslationGenericSpace";
  relative_zoom_space = bytes "http://www.onvif.org/ver10/tptz/ZoomSpaces/TranslationGenericSpace";
  continuous_pan_tilt_space =
      bytes "http://www.onvif.org/ver10/tptz/PanTiltSpaces/VelocityGenericSpace";
  continuous_zoom_space = bytes "http://www.onvif.org/ver10/tptz/ZoomSpaces/VelocityGenericSpace";
  speed_x = tenths (pos 1);
  speed_y = tenths (pos 1);
  speed_zoom = tenths (pos 10);
  default_timeout = 1000;
  pan_tilt_uri = bytes "http://www.onvif.org/ver10/tptz/PanTiltSpaces/PositionGenericSpace";
  pan_tilt_x = unbounded;
  pan_tilt_y = unbounded;
  zoom_uri = bytes "http://www.onvif.org/ver10/tptz/ZoomSpaces/PositionGenericSpace";
  zoom_x = unbounded;
}

-- `ptz_enable` is the flag of the context's PTZ node.
unfoldable pub get_profile : Bool → StreamProfile → MediaProfile
get_profile ptz_enable p = record {
  name = p.name;
  token = p.name;
  video_source = get_video_src_cnf p;
  video_encoder = get_video_enc_cfg p;
  ptz = if ptz_enable then some get_ptz_cfg else none;
}

unfoldable pub get_video_src : StreamProfile → VideoSource
get_video_src p = record {
  token = p.name;
  resolution = record { width = p.width; height = p.height };
}
