-- ===== src/Startup/Main/Reach.antt =====
-- A client's way to a stream: GetStreamUri of a profile, and the server that listens there.
use onvif_srvd_cmake.Prelude.{
  ℕ, suc, Text, ℤ, pos, Option, some, true, List, [], ◌∷◌, ◌++◌, ◌≡◌, refl, ap, ◌∙◌, bytes, c_str,
  get_elem?, All-get_elem?, str_eq, Bool-cases, inl, inr, arith, ◌==◌,
}
use onvif_srvd_cmake.Prelude.StdMap.{StdMap, find}
use onvif_srvd_cmake.Prelude.Substring.{is_prefix, str_find, str_replace, take, drop}
use onvif_srvd_cmake.Kernel.{Kernel}
use onvif_srvd_cmake.Eth.{Ifreq, new_eth, open_dev}
use onvif_srvd_cmake.Eth.Address.{ntohl}
use onvif_srvd_cmake.Context.{ServiceContext, new_context}
use onvif_srvd_cmake.Context.Servers.{Junk, get_server_ip_from_client_ip}
use onvif_srvd_cmake.Context.Uris
use onvif_srvd_cmake.Context.Profiles.{new_context-IsWellFormed}
use onvif_srvd_cmake.Rtsp.{RtspStreamConfig, RtspStream, launch, new_streams}
use onvif_srvd_cmake.Rtsp.Streams.{new_streams-IsWellFormed}
use onvif_srvd_cmake.Rtsp.Server.{gstreamer_rtsp}
use onvif_srvd_cmake.Soap.{soap_ok}
use onvif_srvd_cmake.Media.{handle_get_stream_uri}
use onvif_srvd_cmake.Ptz.{Floats}
use onvif_srvd_cmake.Services.{
  Surroundings, Request, session, handle, handle_media, to_media, get_stream_uri, uri,
}
use onvif_srvd_cmake.Services.History.{session-erase}
use onvif_srvd_cmake.Startup.{
  ProfileSetting, StreamSetting, Setup, exits, goes_on, Program, processing_cfg,
}
use onvif_srvd_cmake.Startup.Filling.{Holds, starts}
use onvif_srvd_cmake.Startup.Served.{IsServed}
use onvif_srvd_cmake.Startup.Published.{IsPublished, launch_of}
use onvif_srvd_cmake.Startup.Ready.{IsReady, processing_cfg-IsReady}
use onvif_srvd_cmake.Startup.Acceptance.Runs.{accepted, processing_cfg-starts}
use onvif_srvd_cmake.Startup.Loading.{Settings, load_configuration}
use onvif_srvd_cmake.Startup.Loading.Loader.{LibConfig, loaded}
use onvif_srvd_cmake.Startup.Main.{
  running, thread_streams, start_threads, start_with, main_start, settings_read, new_program,
}
use onvif_srvd_cmake.Startup.Main.Threads.{mounted}

-- A stream that is found has a thread.
has_thread :
    (url : Text) (m : StdMap RtspStreamConfig) (q : RtspStreamConfig)
    → find url m ≡ some q
    → (i : ℕ) × (get_elem? (thread_streams m) i ≡ some q)
unfolding find thread_streams
has_thread url [] q e = absurd cc
has_thread url ((u, s) ∷ m) q e = elim (Bool-cases (str_eq u url)) [
  | inl here ↦ (0, ground (arith, here, e))
  | inr later ↦ let (i, same) = has_thread url m q (ground (arith, later, e)) in (suc i, same)
]

c_str-c_str : (t : Text) → c_str (c_str t) ≡ c_str t
unfolding c_str
c_str-c_str [] = refl
c_str-c_str (b ∷ t) = elim (Bool-cases (b == 0)) [
  | inl nul ↦ rw (nul, c_str) refl
  | inr byte ↦ rw (byte, c_str) (rw (byte, c_str) (ap (λ x. b ∷ x) (c_str-c_str t)))
]

-- The server of a setting listens on its port and serves its launch text under its URL.
mounted_published :
    (t : RtspStream) (s : StreamSetting) (q : RtspStreamConfig)
    → q.tcp_port ≡ c_str s.tcp_port
    → q.rtsp_url ≡ c_str s.rtsp_url
    → launch q ≡ launch_of s
    → mounted [] [] (gstreamer_rtsp q)
      ≡ (c_str s.tcp_port, c_str (launch_of s), c_str s.rtsp_url) ∷ []
unfolding gstreamer_rtsp
mounted_published t s q port url text =
    rw (port, url, text, c_str-c_str s.tcp_port, c_str-c_str s.rtsp_url) refl

module _ (k : Kernel) (junk : Junk) (client : ℕ) (w : k.World) where
  get_stream_uri-server :
      (rest : Text) (c : ServiceContext)
      → (Uris.get_stream_uri k junk client w (bytes "rtsp://%s:" ++ rest) c).0
        ≡ bytes "rtsp://"
          ++ ((get_server_ip_from_client_ip k junk client w c).0 ++ (bytes ":" ++ rest))
  unfolding Uris.get_stream_uri bytes str_find is_prefix str_replace take drop
  get_stream_uri-server rest c = refl

goes_on_to :
    {A : Type 0} (P : A → Type 0) (r : Setup A)
    → Holds P r
    → starts r ≡ true
    → (a : A) × (r ≡ goes_on a) × P a
goes_on_to P (exits e) h s = absurd cc
goes_on_to P (goes_on a) h s = (a, refl, h)

module _ (k : Kernel) (f : Floats) (at : Surroundings k f) where
  -- The response to GetStreamUri for the profile is a URI, on the server that the context finds for
  -- the client, of the port and the path that the server of a thread mounts for the stream.
  pub record Reaches (c : ServiceContext) (streams : List RtspStreamConfig) (a : ProfileSetting)
      (b : StreamSetting) : Type 0 where
    pub status : (handle k f at c (to_media (get_stream_uri (c_str a.name)))).status ≡ soap_ok
    pub response :
        (handle k f at c (to_media (get_stream_uri (c_str a.name)))).response
        ≡ uri (
            some (
              bytes "rtsp://"
              ++ ((get_server_ip_from_client_ip k at.junk (ntohl at.soap_ip) at.world c).0
                  ++ (bytes ":" ++ (c_str b.tcp_port ++ c_str b.rtsp_url)))))
    pub index : ℕ
    pub server : RtspStreamConfig
    pub thread : get_elem? streams index ≡ some server
    pub listens :
        mounted [] [] (gstreamer_rtsp server)
        ≡ (c_str b.tcp_port, c_str (launch_of b), c_str b.rtsp_url) ∷ []

  answered :
      (c : ServiceContext) (a : ProfileSetting) (rest : Text)
      → IsServed c a
      → c_str a.url ≡ bytes "rtsp://%s:" ++ rest
      → ((handle k f at c (to_media (get_stream_uri (c_str a.name)))).status ≡ soap_ok)
        × ((handle k f at c (to_media (get_stream_uri (c_str a.name)))).response
            ≡ uri (
                some (
                  bytes "rtsp://"
                  ++ ((get_server_ip_from_client_ip k at.junk (ntohl at.soap_ip) at.world c).0
                      ++ (bytes ":" ++ rest)))))
  unfolding handle handle_media handle_get_stream_uri
  answered c a rest (p, found, (url, _)) leads =
      rw (found, handle_get_stream_uri)
        (
          refl,
          ap (λ u. uri (some (Uris.get_stream_uri k at.junk (ntohl at.soap_ip) at.world u c).0))
                (url ∙ leads)
              ∙ ap (λ u. uri (some u))
                  (get_stream_uri-server k at.junk (ntohl at.soap_ip) at.world rest c),
        )

  served-Reaches :
      (p : Program k) (c : ServiceContext) (a : ProfileSetting) (b : StreamSetting)
      → IsServed c a
      → IsPublished p.rtsp_streams b
      → c_str a.url ≡ bytes "rtsp://%s:" ++ (c_str b.tcp_port ++ c_str b.rtsp_url)
      → Reaches c (thread_streams p.rtsp_streams.streams) a b
  served-Reaches p c a b served (q, found, (port, url, text)) leads =
      let (status, response) = answered c a (c_str b.tcp_port ++ c_str b.rtsp_url) served leads in
      let (i, thread) = has_thread (c_str b.rtsp_url) p.rtsp_streams.streams q found in
      record {
        status = status;
        response = response;
        index = i;
        server = q;
        thread = thread;
        listens = mounted_published p.rtsp_streams b q port url text;
      }

  module _ (l : LibConfig) (junk : Ifreq) (old_tz : ℕ) (old : ProfileSetting → ℤ × ℤ)
      (freed : Text → Text) (w : k.World) where
    -- On settings that can be loaded and are accepted, with an interface that can be opened, the
    -- program runs. Where the URL of a profile is "rtsp://%s:" with the port and the URL of a stream,
    -- GetStreamUri gives a client, behind any session, the URI of that port and that path on the
    -- server's address, and one of the threads has mounted that path on that port, with the launch
    -- text of the stream.
    pub main_start-Reaches :
        (file : Option Text) (s : Settings) (rs : List (Surroundings k f × Request k f)) (i j : ℕ)
        (a : ProfileSetting) (b : StreamSetting)
        → load_configuration l file ≡ loaded s
        → (open_dev k (some (c_str s.configuration.interfaces)) (new_eth junk) w).0 ≡ pos 0
        → accepted old_tz old (settings_read freed s) ≡ true
        → get_elem? s.configuration.profiles i ≡ some a
        → get_elem? s.configuration.rtsp_streams j ≡ some b
        → c_str a.url ≡ bytes "rtsp://%s:" ++ (c_str b.tcp_port ++ c_str b.rtsp_url)
        → (p : Program k) × (streams : List RtspStreamConfig) × (main_start k l junk old_tz old
              freed w file
            ≡ running p streams)
          × Reaches (session k f rs p.service_ctx) streams a b
    unfolding main_start start_with start_threads settings_read new_context new_streams
    main_start-Reaches file s rs i j a b read opened good at_i at_j leads =
        let cfg = settings_read freed s in
        let p0 = new_program k l w in
        let start = processing_cfg k junk old_tz old cfg p0 in
        let runs : starts start ≡ true =
          rw (processing_cfg-starts k junk old_tz old cfg p0 refl refl, opened, good) in
        let (p, done, ready) =
          goes_on_to (IsReady k cfg new_context) start
            (processing_cfg-IsReady k junk old_tz old cfg p0 new_context-IsWellFormed
              new_streams-IsWellFormed)
            runs in
        let c = session k f rs p.service_ctx in
        let (q, found, urls) =
          All-get_elem? (IsServed p.service_ctx) cfg.profiles i a ready.served at_i in
        let unchanged = ap (λ c. c.profiles) (session-erase k f rs p.service_ctx) in
        (
          p,
          thread_streams p.rtsp_streams.streams,
          ap (start_with k l junk old_tz old freed w) read ∙ ap (start_threads k l) done,
          served-Reaches p c a b (q, ap (find (c_str a.name)) unchanged ∙ found, urls)
              (All-get_elem? (IsPublished p.rtsp_streams) cfg.rtsp_streams j b ready.published at_j)
              leads,
        )
