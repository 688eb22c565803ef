-- ===== src/Rtsp/Settings.antt =====
-- StreamSettings of src/rtsp-streams.hpp: its default values and its JSON form. The JSON library is
-- the parameter Json: addMember and updateValue, of which nothing is assumed.
use onvif_srvd_cmake.Prelude.{Text, bytes}

-- `update_value d name old` is what is in a member of the class after the call, if `old` was in it.
pub record Json : Type 1 where
  pub Dom : Type 0
  pub add_member : Dom → Text → Text → Dom
  pub update_value : Dom → Text → Text → Text

pub record StreamSettings : Type 0 where
  pub name : Text
  pub width : Text
  pub height : Text
  pub url : Text
  pub type : Text

unfoldable pub new_settings : StreamSettings
new_settings = record {
  name = bytes "";
  width = bytes "1024";
  height = bytes "768";
  url = bytes "rtsp://%s";
  type = bytes "H264";
}

module _ (j : Json) where
  open j use {Dom, add_member, update_value}

  unfoldable pub to_json : StreamSettings → Dom → Dom
  to_json s d =
      let d1 = add_member d (bytes "name") s.name in
      let d2 = add_member d1 (bytes "width") s.width in
      let d3 = add_member d2 (bytes "height") s.height in
      let d4 = add_member d3 (bytes "url") s.url in add_member d4 (bytes "type") s.type

  unfoldable pub from_json : Dom → StreamSettings → StreamSettings
  from_json d s = record {
    name = update_value d (bytes "name") s.name;
    width = update_value d (bytes "width") s.width;
    height = update_value d (bytes "height") s.height;
    url = update_value d (bytes "url") s.url;
    type = update_value d (bytes "type") s.type;
  }
