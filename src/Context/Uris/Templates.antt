-- ===== src/Context/Uris/Templates.antt =====
-- What becomes of the URL of a profile.
use onvif_srvd_cmake.Prelude.{ℕ, Text, List, ◌≡◌, refl, inl, inr, Option-cases}
use onvif_srvd_cmake.Prelude.Substring.{str_find}
use onvif_srvd_cmake.Prelude.Substring.Laws.{str_find-IsFree, str_replace-Replaced, Expands}
use onvif_srvd_cmake.Kernel.{Kernel}
use onvif_srvd_cmake.Context.{ServiceContext}
use onvif_srvd_cmake.Context.Servers.{Junk}
use onvif_srvd_cmake.Context.Servers.Subnets.{
  Report, AllReport, server_spec, get_server_ip-server_spec,
}
use onvif_srvd_cmake.Context.Uris.{template_str, get_stream_uri, get_snapshot_uri}

module _ (k : Kernel) (junk : Junk) (client : ℕ) (w : k.World) where
  same_templates :
      (url : Text) (c : ServiceContext)
      → get_snapshot_uri k junk client w url c ≡ get_stream_uri k junk client w url c
  unfolding get_snapshot_uri get_stream_uri
  same_templates url c = refl

  stream_template :
      (url : Text) (c : ServiceContext) (rs : List Report)
      → AllReport k w c.eth_ifs rs
      → Expands template_str (server_spec client rs) url (get_stream_uri k junk client w url c).0
  unfolding get_stream_uri
  stream_template url c rs h = elim (Option-cases (str_find template_str url)) [
    | inl nowhere ↦
        rw (nowhere, get_stream_uri) (inl (str_find-IsFree template_str url nowhere, refl))
    | inr (it, there) ↦
        rw (there, get_stream_uri)
          (rw (get_server_ip-server_spec k w junk client c rs h).0
            (inr (str_replace-Replaced template_str (server_spec client rs) url it there)))
  ]

  -- On interfaces for which the kernel answers, the stream URI and the snapshot URI of a URL are that
  -- URL where "%s" does not occur in it; else they are the text before the first "%s", the server's
  -- address for this client, and the text behind.
  pub get_stream_uri-Expands :
      (url : Text) (c : ServiceContext) (rs : List Report)
      → AllReport k w c.eth_ifs rs
      → Expands template_str (server_spec client rs) url (get_stream_uri k junk client w url c).0
        × Expands template_str
            (server_spec client rs)
            url
            (get_snapshot_uri k junk client w url c).0
  get_stream_uri-Expands url c rs h =
      let stream = stream_template url c rs h in (stream, rw (same_templates url c) stream)
