-- ===== src/Services.antt =====
-- A client's requests to the three services. gSOAP calls the handler that a request names and sends
-- what it returns; the handlers of one process share the context, and each sees the state in which
-- the one before it left it.
pub mod Effects
pub mod Erasure
pub mod History
pub mod Stateless
pub mod Serving
use onvif_srvd_cmake.Prelude.{ℕ, Text, Option, Bool, List, [], ◌∷◌, ◌++◌}
use onvif_srvd_cmake.Kernel.{Kernel}
use onvif_srvd_cmake.Profile.Soap.{
  MediaProfile, VideoSource, VideoSourceConfiguration, VideoEncoderConfiguration,
}
use onvif_srvd_cmake.Context.{ServiceContext}
use onvif_srvd_cmake.Context.Servers.{Junk}
use onvif_srvd_cmake.Context.TimeZone.{Tm, Environment, SystemDateTime}
use onvif_srvd_cmake.Soap.{SoapStatus, soap_ok, Effect}
use onvif_srvd_cmake.Device
use onvif_srvd_cmake.Device.Features.{DeviceServiceCapabilities, get_device_service_capabilities}
use onvif_srvd_cmake.Device.Empty as DeviceEmpty
use onvif_srvd_cmake.Device.Interfaces
use onvif_srvd_cmake.Media
use onvif_srvd_cmake.Media.Empty as MediaEmpty
use onvif_srvd_cmake.Ptz
use onvif_srvd_cmake.Ptz.Nodes
use onvif_srvd_cmake.Ptz.Empty as PtzEmpty

-- DeviceBindingService
pub data DeviceRequest : Type 0 where
  get_services : Bool → DeviceRequest
  get_service_capabilities get_device_information get_system_date_and_time get_scopes get_users
        get_network_interfaces :
      DeviceRequest
  get_capabilities : List Device.CapabilityCategory → DeviceRequest
  device_empty : DeviceEmpty.EmptyRequest → DeviceRequest

-- MediaBindingService; a text is the token of a profile.
pub data MediaRequest : Type 0 where
  get_media_capabilities get_video_sources get_profiles start_multicast_streaming
        stop_multicast_streaming :
      MediaRequest
  get_profile get_compatible_video_encoder_configurations get_compatible_video_source_configurations
        get_stream_uri get_snapshot_uri :
      Text → MediaRequest
  media_empty : MediaEmpty.EmptyRequest → MediaRequest

-- What a handler puts into its response.
pub data Response : Type 0 where
  unset : Response
  services : List Device.Service → Response
  capabilities : Device.Capabilities → Response
  device_capabilities : DeviceServiceCapabilities → Response
  media_capabilities : Media.MediaCapabilities → Response
  device_information : Device.DeviceInformation → Response
  date_and_time : Option SystemDateTime → Response
  texts : List Text → Response
  interfaces : List Interfaces.NetworkInterface → Response
  video_sources : List VideoSource → Response
  profile : Option MediaProfile → Response
  profiles : List MediaProfile → Response
  encoders : List VideoEncoderConfiguration → Response
  sources : List VideoSourceConfiguration → Response
  uri : Option Text → Response
  presets : List Ptz.PtzPreset → Response
  nodes : List Nodes.Node → Response
  node : Nodes.Node → Response

-- What a client and the world see of a request, and the context behind it.
pub record Outcome : Type 0 where
  pub status : SoapStatus
  pub response : Response
  pub effects : List Effect
  pub context : ServiceContext

-- A handler that only answers.
abbrev pub answers : ServiceContext → SoapStatus × Response → Outcome
answers c (s, r) = record { status = s; response = r; effects = []; context = c }

-- A handler that acts and leaves its response as it is.
abbrev pub acts : ServiceContext → SoapStatus × List Effect → Outcome
acts c (s, es) = record { status = s; response = unset; effects = es; context = c }

abbrev pub answers_with {ℓ} :
    {A : Type ℓ} → (A → Response) → SoapStatus × A × ServiceContext → Outcome
answers_with f (s, a, c) = record { status = s; response = f a; effects = []; context = c }

module _ (k : Kernel) (f : Ptz.Floats) where
  -- PTZBindingService; the handlers say what a request that may be NULL holds.
  pub data PtzRequest : Type 0 where
    get_presets stop get_nodes get_node : PtzRequest
    goto_preset : Option Ptz.GotoPreset → PtzRequest
    goto_home_position : Option Text → PtzRequest
    continuous_move relative_move : Option (Option (Option (Ptz.Vector f))) → PtzRequest
    ptz_empty : PtzEmpty.EmptyRequest → PtzRequest

  pub data Request : Type 0 where
    to_device : DeviceRequest → Request
    to_media : MediaRequest → Request
    to_ptz : PtzRequest → Request

  -- What is around the process when a request comes: the world that the kernel answers from, what
  -- variables hold that the code does not set, the client's address, whether the response can be
  -- allocated, and the clock.
  pub record Surroundings : Type 0 where
    pub world : k.World
    pub junk : Junk
    pub soap_ip : ℕ
    pub allocated : Bool
    pub environment : Environment
    pub now : Tm
    pub utc : Tm
    -- whether the build defines DEBUG
    pub debug : Bool

  module _ (s : Surroundings) (c : ServiceContext) where
    open s use {world, junk, soap_ip}

    unfoldable pub handle_device : DeviceRequest → Outcome
    handle_device (get_services include) =
        answers_with services (Device.handle_get_services k junk soap_ip world include c)
    handle_device get_service_capabilities =
        let (st, r) = Device.handle_get_service_capabilities in
        answers c (st, device_capabilities r)
    handle_device get_device_information =
        let (st, r) = Device.handle_get_device_information c in answers c (st, device_information r)
    handle_device get_system_date_and_time =
        let (st, r) =
          Device.handle_get_system_date_and_time s.allocated s.environment s.now s.utc c in
        answers c (st, date_and_time r)
    handle_device get_scopes = let (st, r) = Device.handle_get_scopes c in answers c (st, texts r)
    handle_device get_users = let (st, r) = Device.handle_get_users c in answers c (st, texts r)
    handle_device get_network_interfaces =
        answers_with interfaces (Interfaces.handle_get_network_interfaces k junk world c)
    handle_device (get_capabilities categories) =
        answers_with capabilities (Device.handle_get_capabilities k junk soap_ip world categories c)
    handle_device (device_empty e) = answers c (DeviceEmpty.handle_empty e, unset)

    unfoldable pub handle_media : MediaRequest → Outcome
    handle_media get_media_capabilities =
        let (st, r) = Media.handle_get_service_capabilities c in
        answers c (st, media_capabilities r)
    handle_media get_video_sources =
        let (st, r) = Media.handle_get_video_sources c in answers c (st, video_sources r)
    handle_media get_profiles =
        let (st, r) = Media.handle_get_profiles c in answers c (st, profiles r)
    handle_media start_multicast_streaming = acts c (Media.handle_start_multicast_streaming s.debug)
    handle_media stop_multicast_streaming = acts c (Media.handle_stop_multicast_streaming s.debug)
    handle_media (get_profile token) =
        let (st, r) = Media.handle_get_profile token c in answers c (st, profile r)
    handle_media (get_compatible_video_encoder_configurations token) =
        let (st, r) = Media.handle_get_compatible_video_encoder_configurations token c in
        answers c (st, encoders r)
    handle_media (get_compatible_video_source_configurations token) =
        let (st, r) = Media.handle_get_compatible_video_source_configurations token c in
        answers c (st, sources r)
    handle_media (get_stream_uri token) =
        answers_with uri (Media.handle_get_stream_uri k junk soap_ip world token c)
    handle_media (get_snapshot_uri token) =
        answers_with uri (Media.handle_get_snapshot_uri k junk soap_ip world token c)
    handle_media (media_empty e) = answers c (MediaEmpty.handle_empty e, unset)

    unfoldable pub handle_ptz : PtzRequest → Outcome
    handle_ptz get_presets = let (st, r) = Ptz.get_presets in answers c (st, presets r)
    handle_ptz stop = acts c (Ptz.stop c.ptz_node)
    handle_ptz get_nodes = let (st, r) = Nodes.get_nodes in answers c (st, nodes r)
    handle_ptz get_node = let (st, r) = Nodes.get_node in answers c (st, node r)
    handle_ptz (goto_preset request) = acts c (Ptz.goto_preset request c.ptz_node)
    handle_ptz (goto_home_position request) = acts c (Ptz.goto_home_position request c.ptz_node)
    handle_ptz (continuous_move request) = acts c (Ptz.continuous_move f request c.ptz_node)
    handle_ptz (relative_move request) = acts c (Ptz.relative_move f request c.ptz_node)
    handle_ptz (ptz_empty e) = answers c (PtzEmpty.handle_empty e, unset)

    unfoldable pub handle : Request → Outcome
    unfolding handle_device handle_media handle_ptz
    handle (to_device r) = handle_device r
    handle (to_media r) = handle_media r
    handle (to_ptz r) = handle_ptz r

  -- A session: the requests of all clients, one after the other as work() serves them.
  unfoldable pub session : List (Surroundings × Request) → ServiceContext → ServiceContext
  session [] c = c
  session ((s, r) ∷ rest) c = session rest (handle s c r).context
