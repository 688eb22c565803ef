-- ===== src/Context.antt =====
-- ServiceContext of src/ServiceContext.h and src/ServiceContext.cpp: the state that all services
-- share. The broker client `mosq` is no field: what is sent to it is an effect of a handler.
pub mod Profiles
pub mod Servers
pub mod Uris
pub mod TimeZone
use onvif_srvd_cmake.Prelude.{
  ℕ, zero, suc, ◌+◌, Text, ℤ, pos, Option, none, some, Bool, true, false, not, List, [], ◌∷◌, ◌++◌,
  leb, is_some, bytes, if◌then◌else◌,
}
use onvif_srvd_cmake.Prelude.StdMap.{StdMap, find, assign}
use onvif_srvd_cmake.Prelude.Stream.{extract_unsigned}
use onvif_srvd_cmake.Eth.{EthDevParam}
use onvif_srvd_cmake.Profile.{StreamProfile, is_valid}
use onvif_srvd_cmake.PtzNode.{PtzNode, new_ptz_node}

-- TimeZoneForamt, without the counter of its values.
pub data TimeZoneFormat : Type 0 where
  tz_utc_offset tz_gmt_offset tz_utc tz_gmt tz_env tz_onvif_env : TimeZoneFormat

pub record ServiceContext : Type 0 where
  pub port : ℤ
  pub user : Text
  pub password : Text
  pub manufacturer : Text
  pub model : Text
  pub firmware_version : Text
  pub serial_number : Text
  pub hardware_id : Text
  pub scopes : List Text
  pub eth_ifs : List EthDevParam
  pub profiles : StdMap StreamProfile
  pub ptz_node : PtzNode
  pub tz_format : TimeZoneFormat
  pub str_err : Text

-- The constructor.
unfoldable pub new_context : ServiceContext
unfolding bytes new_ptz_node
new_context = record {
  port = pos 1000;
  user = bytes "admin";
  password = bytes "admin";
  manufacturer = bytes "Rinicom";
  model = bytes "Watchman";
  firmware_version = bytes "0.0.1";
  serial_number = bytes "000001";
  hardware_id = bytes "000002";
  scopes = [];
  eth_ifs = [];
  profiles = [];
  ptz_node = new_ptz_node;
  tz_format = tz_utc_offset;
  str_err = [];
}

-- static_cast<TimeZoneForamt> of a number below TZ_CNT_FORMATS.
unfoldable pub tz_of : ℕ → Option TimeZoneFormat
tz_of zero = some tz_utc_offset
tz_of (suc zero) = some tz_gmt_offset
tz_of (suc (suc zero)) = some tz_utc
tz_of (suc (suc (suc zero))) = some tz_gmt
tz_of (suc (suc (suc (suc zero)))) = some tz_env
tz_of (suc (suc (suc (suc (suc zero))))) = some tz_onvif_env
tz_of (suc (suc (suc (suc (suc (suc n)))))) = none

-- `old` is what the variable that is read into holds before, which the code does not set.
unfoldable pub set_tz_format : ℕ → Text → ServiceContext → ServiceContext × Bool
unfolding tz_of
set_tz_format old new_val c = elim (tz_of (extract_unsigned old new_val)) [
  | none ↦ (record c { str_err = bytes "tz_format is not supported" }, false)
  | some f ↦ (record c { tz_format = f }, true)
]

unfoldable pub add_profile : StreamProfile → ServiceContext → ServiceContext × Bool
add_profile p c =
    if not (is_valid p)
    then (record c { str_err = bytes "profile has unset parameters" }, false)
    else if is_some (find p.name c.profiles)
    then (record c { str_err = bytes "profile: " ++ (p.name ++ bytes " already exist") }, false)
    else (record c { profiles = assign p.name p c.profiles }, true)
