-- ===== src/Media.antt =====
-- MediaBindingService, src/ServiceMedia.cpp: the handlers that do more than answer, and the media
-- capabilities of src/ServiceContext.cpp. A handler returns the status, what it put into the
-- response, and the state or the effects where it has any.
pub mod Tokens
pub mod Empty
pub mod Capabilities
use onvif_srvd_cmake.Prelude.{
  ◌++◌, ℕ, Text, Option, none, some, Bool, true, false, not, List, [], ◌∷◌, map, is_empty, bytes,
  any, if◌then◌else◌,
}
use onvif_srvd_cmake.Prelude.StdMap.{StdMap, find}
use onvif_srvd_cmake.Kernel.{Kernel}
use onvif_srvd_cmake.Eth.Address.{ntohl}
use onvif_srvd_cmake.Profile.{StreamProfile}
use onvif_srvd_cmake.Profile.Soap.{
  MediaProfile, VideoSource, VideoSourceConfiguration, VideoEncoderConfiguration, get_profile,
  get_video_src,
}
use onvif_srvd_cmake.Context.{ServiceContext}
use onvif_srvd_cmake.Context.Servers.{Junk}
use onvif_srvd_cmake.Context.Uris.{get_stream_uri, get_snapshot_uri}
use onvif_srvd_cmake.Soap.{SoapStatus, soap_ok, soap_fault, Effect, publish}

-- trt__Capabilities: the optional flag SnapshotUri, the maximum of profiles and RTPMulticast.
pub record MediaCapabilities : Type 0 where
  pub snapshot_uri : Option Bool
  pub maximum_number_of_profiles : ℕ
  pub rtp_multicast : Bool

-- The loop over the profiles; the flag is set at most once.
unfoldable pub snapshot_loop : Option Bool → StdMap StreamProfile → Option Bool
snapshot_loop found [] = found
snapshot_loop (some b) ((k, p) ∷ m) = snapshot_loop (some b) m
snapshot_loop none ((k, p) ∷ m) =
    snapshot_loop (if not (is_empty p.snapurl) then some true else none) m

-- getMediaServiceCapabilities
unfoldable pub get_media_service_capabilities : ServiceContext → MediaCapabilities
get_media_service_capabilities c = record {
  snapshot_uri = snapshot_loop none c.profiles;
  maximum_number_of_profiles = 1;
  rtp_multicast = false;
}

unfoldable pub handle_get_service_capabilities : ServiceContext → SoapStatus × MediaCapabilities
handle_get_service_capabilities c = (soap_ok, get_media_service_capabilities c)

abbrev pub values : StdMap StreamProfile → List StreamProfile
values [] = []
values ((k, p) ∷ m) = p ∷ values m

unfoldable pub handle_get_video_sources : ServiceContext → SoapStatus × List VideoSource
handle_get_video_sources c = (soap_ok, map get_video_src (values c.profiles))

unfoldable pub handle_get_profile : Text → ServiceContext → SoapStatus × Option MediaProfile
handle_get_profile token c = elim (find token c.profiles) [
  | none ↦ (soap_fault, none)
  | some p ↦ (soap_ok, some (get_profile c.ptz_node.enable p))
]

unfoldable pub handle_get_profiles : ServiceContext → SoapStatus × List MediaProfile
handle_get_profiles c = (soap_ok, map (get_profile c.ptz_node.enable) (values c.profiles))

unfoldable pub handle_get_compatible_video_encoder_configurations :
    Text → ServiceContext → SoapStatus × List VideoEncoderConfiguration
handle_get_compatible_video_encoder_configurations token c = elim (find token c.profiles) [
  | none ↦ (soap_fault, [])
  | some p ↦ (soap_ok, (get_profile c.ptz_node.enable p).video_encoder ∷ [])
]

unfoldable pub handle_get_compatible_video_source_configurations :
    Text → ServiceContext → SoapStatus × List VideoSourceConfiguration
handle_get_compatible_video_source_configurations token c = elim (find token c.profiles) [
  | none ↦ (soap_fault, [])
  | some p ↦ (soap_ok, (get_profile c.ptz_node.enable p).video_source ∷ [])
]

-- `soap_ip` is the client's address in host byte order.
module _ (k : Kernel) (junk : Junk) (soap_ip : ℕ) (w : k.World) where
  unfoldable pub handle_get_stream_uri :
      Text → ServiceContext → SoapStatus × Option Text × ServiceContext
  handle_get_stream_uri token c = elim (find token c.profiles) [
    | none ↦ (soap_fault, none, c)
    | some p ↦
        let (uri, c') = get_stream_uri k junk (ntohl soap_ip) w p.url c in (soap_ok, some uri, c')
  ]

  unfoldable pub handle_get_snapshot_uri :
      Text → ServiceContext → SoapStatus × Option Text × ServiceContext
  handle_get_snapshot_uri token c = elim (find token c.profiles) [
    | none ↦ (soap_fault, none, c)
    | some p ↦
        let (uri, c') = get_snapshot_uri k junk (ntohl soap_ip) w p.snapurl c in
        (soap_ok, some uri, c')
  ]

-- ServiceContext::SendMqttMsg, without its print-outs; `debug` says that the build defines DEBUG.
unfoldable pub send_mqtt_msg : Bool → Text → List Effect
send_mqtt_msg debug msg =
    (if debug then publish (bytes "Test") msg ∷ [] else [])
    ++ (publish (bytes "watchman_command_json") msg ∷ [])

unfoldable pub handle_start_multicast_streaming : Bool → SoapStatus × List Effect
handle_start_multicast_streaming debug =
    (soap_ok, send_mqtt_msg debug (bytes "{\"start_multicast\": true}"))

unfoldable pub handle_stop_multicast_streaming : Bool → SoapStatus × List Effect
handle_stop_multicast_streaming debug =
    (soap_ok, send_mqtt_msg debug (bytes "{\"start_multicast\": false}"))
