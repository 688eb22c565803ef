-- ===== src/Context/Uris.antt =====
-- get_stream_uri and get_snapshot_uri of src/ServiceContext.cpp: the URL of a profile, with its
-- first "%s" replaced by the address of the server.
pub mod Templates
use onvif_srvd_cmake.Prelude.{ℕ, Text, Option, none, some, [], ◌∷◌, length}
use onvif_srvd_cmake.Prelude.Substring.{str_find, str_replace}
use onvif_srvd_cmake.Kernel.{Kernel}
use onvif_srvd_cmake.Context.{ServiceContext}
use onvif_srvd_cmake.Context.Servers.{Junk, get_server_ip_from_client_ip}

-- "%s"
abbrev pub template_str : Text
template_str = b'%' ∷ b's' ∷ []

module _ (k : Kernel) (junk : Junk) (client_ip : ℕ) (w : k.World) where
  unfoldable pub get_stream_uri : Text → ServiceContext → Text × ServiceContext
  get_stream_uri profile_url c = elim (str_find template_str profile_url) [
    | none ↦ (profile_url, c)
    | some it ↦
        let (server_ip, c') = get_server_ip_from_client_ip k junk client_ip w c in
        (str_replace profile_url it (length template_str) server_ip, c')
  ]

  unfoldable pub get_snapshot_uri : Text → ServiceContext → Text × ServiceContext
  get_snapshot_uri profile_url c = elim (str_find template_str profile_url) [
    | none ↦ (profile_url, c)
    | some it ↦
        let (server_ip, c') = get_server_ip_from_client_ip k junk client_ip w c in
        (str_replace profile_url it (length template_str) server_ip, c')
  ]
