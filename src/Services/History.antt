-- ===== src/Services/History.antt =====
-- What a request finds of those before it.
use onvif_srvd_cmake.Prelude.{
  ℕ, Text, List, [], ◌∷◌, ◌≡◌, refl, sym, ap, ◌∙◌, Option-cases, inl, inr,
}
use mathlib.Core.Path.{ap₂}
use onvif_srvd_cmake.Kernel.{Kernel}
use onvif_srvd_cmake.Prelude.StdMap.{find}
use onvif_srvd_cmake.Prelude.Substring.{str_find}
use onvif_srvd_cmake.Eth.Address.{ntohl}
use onvif_srvd_cmake.Context.{ServiceContext}
use onvif_srvd_cmake.Context.Servers.{Junk, get_server_ip_from_client_ip, get_x_addr}
use onvif_srvd_cmake.Context.TimeZone
use onvif_srvd_cmake.Context.Uris
use onvif_srvd_cmake.Soap.{SoapStatus, soap_ok, Effect}
use onvif_srvd_cmake.Device
use onvif_srvd_cmake.Device.Features.{get_device_service_capabilities}
use onvif_srvd_cmake.Device.Interfaces
use onvif_srvd_cmake.Media
use onvif_srvd_cmake.Media.{get_media_service_capabilities}
use onvif_srvd_cmake.Ptz
use onvif_srvd_cmake.Services.{
  DeviceRequest, MediaRequest, PtzRequest, Request, to_device, to_media, to_ptz, Response, Outcome,
  Surroundings, handle_device, handle_media, handle_ptz, handle, session, get_services,
  get_service_capabilities, get_device_information, get_system_date_and_time, get_scopes, get_users,
  get_network_interfaces, get_capabilities, device_empty, get_media_capabilities, get_video_sources,
  get_profiles, start_multicast_streaming, stop_multicast_streaming, get_profile,
  get_compatible_video_encoder_configurations, get_compatible_video_source_configurations,
  get_stream_uri, get_snapshot_uri, media_empty, get_presets, stop, get_nodes, get_node,
  goto_preset, goto_home_position, continuous_move, relative_move, ptz_empty, services, interfaces,
  capabilities,
}
use onvif_srvd_cmake.Services.Erasure.{erase, erase-erase, server_of-erase, interfaces_loop-erase}

-- What leaves the process.
abbrev pub seen : Outcome → SoapStatus × Response × List Effect
seen o = (o.status, o.response, o.effects)

-- A function that answers from a context and leaves a context.
abbrev Forgets {ℓ} : {A : Type ℓ} → (ServiceContext → A × ServiceContext) → ServiceContext → Type ℓ
Forgets f c = ((f c).0 ≡ (f (erase c)).0) × (erase (f c).1 ≡ erase c)

module _ (k : Kernel) (junk : Junk) (w : k.World) where
  server_ip-erase :
      (client : ℕ) (c : ServiceContext) → Forgets (get_server_ip_from_client_ip k junk client w) c
  unfolding get_server_ip_from_client_ip
  server_ip-erase client c =
      let (same, alike) = server_of-erase k w junk client c.eth_ifs in
      (same, ap (λ ds. record c { eth_ifs = ds }) alike)

  x_addr-erase : (soap_ip : ℕ) (c : ServiceContext) → Forgets (get_x_addr k junk soap_ip w) c
  unfolding get_x_addr
  x_addr-erase soap_ip c =
      let (same, alike) = server_ip-erase (ntohl soap_ip) c in rw same (refl, alike)

  stream_uri-erase :
      (client : ℕ) (url : Text) (c : ServiceContext)
      → Forgets (Uris.get_stream_uri k junk client w url) c
  unfolding Uris.get_stream_uri
  stream_uri-erase client url c = elim (Option-cases (str_find Uris.template_str url)) [
    | inl nowhere ↦ rw (nowhere, Uris.get_stream_uri) (refl, refl)
    | inr (it, there) ↦
        let (same, alike) = server_ip-erase client c in
        rw (there, Uris.get_stream_uri) (rw same (refl, alike))
  ]

  snapshot_uri-erase :
      (client : ℕ) (url : Text) (c : ServiceContext)
      → Forgets (Uris.get_snapshot_uri k junk client w url) c
  unfolding Uris.get_snapshot_uri
  snapshot_uri-erase client url c = elim (Option-cases (str_find Uris.template_str url)) [
    | inl nowhere ↦ rw (nowhere, Uris.get_snapshot_uri) (refl, refl)
    | inr (it, there) ↦
        let (same, alike) = server_ip-erase client c in
        rw (there, Uris.get_snapshot_uri) (rw same (refl, alike))
  ]

  -- What is made of the address and of the settings behind it.
  through_x_addr {ℓ} :
      {A : Type ℓ} (g : Text → ServiceContext → A) (soap_ip : ℕ) (c : ServiceContext)
      → ((x : Text) (c : ServiceContext) → g x c ≡ g x (erase c))
      → g (get_x_addr k junk soap_ip w c).0 (get_x_addr k junk soap_ip w c).1
        ≡ g (get_x_addr k junk soap_ip w (erase c)).0 (get_x_addr k junk soap_ip w (erase c)).1
  through_x_addr g soap_ip c settings =
      let (same, alike) = x_addr-erase soap_ip c in
      let (_, alike') = x_addr-erase soap_ip (erase c) in
      settings _ _ ∙ (ap₂ g same (alike ∙ (sym (erase-erase c) ∙ sym alike')) ∙ sym (settings _ _))

module _ (k : Kernel) (f : Ptz.Floats) (s : Surroundings k f) where
  -- Erasing what the interfaces hold changes nothing that leaves the process, and a request changes
  -- nothing but that.
  abbrev Erases : (ServiceContext → Outcome) → ServiceContext → Type 0
  Erases h c = (seen (h c) ≡ seen (h (erase c))) × (erase (h c).context ≡ erase c)

  device-erase : (c : ServiceContext) (r : DeviceRequest) → Erases (λ x. handle_device k f s x r) c
  unfolding handle_device Device.handle_get_services Device.services get_media_service_capabilities
      Device.handle_get_device_information Device.handle_get_system_date_and_time
      TimeZone.get_system_date_and_time TimeZone.get_time_zone Device.handle_get_scopes
      Device.handle_get_users Interfaces.handle_get_network_interfaces
      Device.handle_get_capabilities get_device_service_capabilities
  device-erase c (get_services include) =
      let (_, alike) = x_addr-erase k s.junk s.world s.soap_ip c in
      (
        ap (λ r. (soap_ok, services r, []))
            (through_x_addr k s.junk s.world (Device.services include) s.soap_ip c (λ x c. refl)),
        alike,
      )
  device-erase c get_service_capabilities = (refl, refl)
  device-erase c get_device_information = (refl, refl)
  device-erase c get_system_date_and_time = (refl, refl)
  device-erase c get_scopes = (refl, refl)
  device-erase c get_users = (refl, refl)
  device-erase c get_network_interfaces =
      let (same, alike) = interfaces_loop-erase k s.world s.junk c.eth_ifs in
      (ap (λ r. (soap_ok, interfaces r, [])) same, ap (λ ds. record c { eth_ifs = ds }) alike)
  device-erase c (get_capabilities categories) =
      let (_, alike) = x_addr-erase k s.junk s.world s.soap_ip c in
      let described : Text → ServiceContext → Device.Capabilities = λ x c.
        Device.categories_loop c.ptz_node.enable x (Device.or_all categories)
          Device.no_capabilities in
      (
        ap (λ r. (soap_ok, capabilities r, []))
            (through_x_addr k s.junk s.world described s.soap_ip c (λ x c. refl)),
        alike,
      )
  device-erase c (device_empty e) = (refl, refl)

  uri-erase :
      (token : Text) (c : ServiceContext)
      → Erases (λ x. handle_media k f s x (get_stream_uri token)) c
        × Erases (λ x. handle_media k f s x (get_snapshot_uri token)) c
  unfolding handle_media Media.handle_get_stream_uri Media.handle_get_snapshot_uri
  uri-erase token c = elim (Option-cases (find token c.profiles)) [
    | inl unknown ↦
        rw (unknown, Media.handle_get_stream_uri, Media.handle_get_snapshot_uri)
          ((refl, refl), (refl, refl))
    | inr (p, found) ↦
        let (same, alike) = stream_uri-erase k s.junk s.world (ntohl s.soap_ip) p.url c in
        let (same', alike') = snapshot_uri-erase k s.junk s.world (ntohl s.soap_ip) p.snapurl c in
        rw (found, Media.handle_get_stream_uri, Media.handle_get_snapshot_uri)
          (rw (same, same') ((refl, alike), (refl, alike')))
  ]

  media-erase : (c : ServiceContext) (r : MediaRequest) → Erases (λ x. handle_media k f s x r) c
  unfolding handle_media Media.handle_get_service_capabilities get_media_service_capabilities
      Media.handle_get_video_sources Media.handle_get_profiles Media.handle_get_profile
      Media.handle_get_compatible_video_encoder_configurations
      Media.handle_get_compatible_video_source_configurations
  media-erase c get_media_capabilities = (refl, refl)
  media-erase c get_video_sources = (refl, refl)
  media-erase c get_profiles = (refl, refl)
  media-erase c start_multicast_streaming = (refl, refl)
  media-erase c stop_multicast_streaming = (refl, refl)
  media-erase c (get_profile token) = (refl, refl)
  media-erase c (get_compatible_video_encoder_configurations token) = (refl, refl)
  media-erase c (get_compatible_video_source_configurations token) = (refl, refl)
  media-erase c (get_stream_uri token) = (uri-erase token c).0
  media-erase c (get_snapshot_uri token) = (uri-erase token c).1
  media-erase c (media_empty e) = (refl, refl)

  ptz-erase : (c : ServiceContext) (r : PtzRequest k f) → Erases (λ x. handle_ptz k f s x r) c
  unfolding handle_ptz
  ptz-erase c get_presets = (refl, refl)
  ptz-erase c stop = (refl, refl)
  ptz-erase c get_nodes = (refl, refl)
  ptz-erase c get_node = (refl, refl)
  ptz-erase c (goto_preset request) = (refl, refl)
  ptz-erase c (goto_home_position request) = (refl, refl)
  ptz-erase c (continuous_move request) = (refl, refl)
  ptz-erase c (relative_move request) = (refl, refl)
  ptz-erase c (ptz_empty e) = (refl, refl)

  pub handle-erase : (c : ServiceContext) (r : Request k f) → Erases (λ x. handle k f s x r) c
  unfolding handle
  handle-erase c (to_device r) = device-erase c r
  handle-erase c (to_media r) = media-erase c r
  handle-erase c (to_ptz r) = ptz-erase c r

module _ (k : Kernel) (f : Ptz.Floats) where
  -- Whatever the clients ask for, in any order, no setting of the context changes: not the profiles,
  -- the users, the scopes, the PTZ commands or the port, nor which interfaces are open under which
  -- name. Only what the requests of the interfaces hold can be different.
  pub session-erase :
      (rs : List (Surroundings k f × Request k f)) (c : ServiceContext)
      → erase (session k f rs c) ≡ erase c
  unfolding session
  session-erase [] c = refl
  session-erase ((s, r) ∷ rest) c =
      session-erase rest (handle k f s c r).context ∙ (handle-erase k f s c r).1

  -- What a client gets for a request, its status, the response and what the program does outside,
  -- is the same behind any session as before it: no request influences another.
  pub handle-session :
      (rs : List (Surroundings k f × Request k f)) (c : ServiceContext) (s : Surroundings k f)
      (r : Request k f)
      → seen (handle k f s (session k f rs c) r) ≡ seen (handle k f s c r)
  handle-session rs c s r =
      (handle-erase k f s (session k f rs c) r).0
      ∙ (ap (λ x. seen (handle k f s x r)) (session-erase rs c) ∙ sym (handle-erase k f s c r).0)
