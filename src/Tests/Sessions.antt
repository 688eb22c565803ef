-- ===== src/Tests/Sessions.antt =====
-- Runs of the requests and of the service loop.
use onvif_srvd_cmake.Prelude.{
  All, ℕ, Text, pos, none, some, true, false, not, List, [], ◌∷◌, ◌≡◌, ◌↔◌, refl, arith, bytes, any,
  map, ◌&&◌, str_eq, if◌then◌else◌, Option,
}
use onvif_srvd_cmake.Context.TimeZone.{Tm}
use onvif_srvd_cmake.Services.{
  PtzRequest, Request, start_multicast_streaming, Surroundings, to_device, to_media, to_ptz,
  get_services, get_stream_uri, goto_preset, get_network_interfaces, handle, session,
}
use onvif_srvd_cmake.Services.Erasure.{erase}
use onvif_srvd_cmake.Services.History.{session-erase}
use onvif_srvd_cmake.Services.Stateless.{view_of, reply}
use onvif_srvd_cmake.Services.Serving.{Incoming, serve, serve-reply}
use onvif_srvd_cmake.Services.Effects.{IsMessage, IsMove, handle-Permitted}
use onvif_srvd_cmake.GSoap.{Server, each_service, work}
use onvif_srvd_cmake.GSoap.Rounds.{asked, ends, up_to_first, work-asked}
use onvif_srvd_cmake.GSoap.Lifetime.{gsoap_life, absent, follow, gsoap_life_released}
use onvif_srvd_cmake.GSoap.Files.{
  HttpCall, fopen, soap_response, Engine, Served, copy_file, http_get,
}
use onvif_srvd_cmake.GSoap.Files.Copies.{IsAnswer, copy_file_total}
use onvif_srvd_cmake.GSoap.Files.Paths.{Answers, http_get-Answers}
use onvif_srvd_cmake.Tests.Fixtures.{toy, whole, junk, context}

abbrev pub noon : Tm
noon = record {
  tm_sec = 0;
  tm_min = 0;
  tm_hour = 12;
  tm_mday = 1;
  tm_mon = 0;
  tm_year = 120;
  tm_isdst = pos 0;
  tm_gmtoff = pos 0;
}

abbrev around : Surroundings toy whole
around = record {
  world = 3;
  junk = junk;
  soap_ip = 5;
  allocated = true;
  environment = record { tz = none; tz_onvif = none };
  now = noon;
  utc = noon;
  debug = true;
}

abbrev ask_uri : Request toy whole
ask_uri = to_media (get_stream_uri (bytes "cam"))

abbrev some_move : PtzRequest toy whole
some_move = goto_preset (some (record { profile_token = bytes "cam"; preset_token = bytes "2" }))

abbrev move : Request toy whole
move = to_ptz some_move

-- Two clients: one asks for the interfaces and the services, one moves the camera.
abbrev requests : List (Surroundings toy whole × Request toy whole)
requests =
    (around, to_device get_network_interfaces)
    ∷ (around, move)
    ∷ (record around { world = 9 }, to_device (get_services true))
    ∷ []

session-erase_example : erase (session toy whole requests context) ≡ erase context
session-erase_example = session-erase toy whole requests context

-- The same requests behind a connection that cannot be read, with one for an unknown method between.
abbrev connections : List (Incoming toy whole)
connections =
    record { accepts = false; begins = false; around = around; request = some move }
    ∷ record {
      accepts = true;
      begins = true;
      around = around;
      request = some (to_device get_network_interfaces);
    }
    ∷ record { accepts = true; begins = true; around = around; request = none }
    ∷ record { accepts = true; begins = true; around = around; request = some move }
    ∷ []

abbrev readable : List (Surroundings toy whole × Request toy whole)
readable = (around, to_device get_network_interfaces) ∷ (around, move) ∷ []

serve-reply_example :
    ((serve toy whole connections context).0
      ≡ map
          (λ (q : Surroundings toy whole × Request toy whole).
            reply toy whole q.0 q.1 (view_of context))
          readable)
    × (view_of (serve toy whole connections context).1 ≡ view_of context)
serve-reply_example = serve-reply toy whole connections context

handle-Permitted_example :
    All
      (IsMessage true)
      (handle toy whole around context (to_media start_multicast_streaming)).effects
    × All (IsMove context.ptz_node) (handle toy whole around context move).effects
handle-Permitted_example =
    handle-Permitted toy whole around context start_multicast_streaming some_move

work-asked_example :
    let s : Server = record { accepts = true; begins = true; has_method = λ _. false } in
    (((work s).0 ≡ 1) ↔ ((s.begins ≡ true) × (any s.has_method (each_service s) ≡ false)))
    × (asked (work s).1 ≡ (if s.begins then up_to_first s.has_method (each_service s) else []))
    × (ends (work s).1 ≡ (if s.begins && not (any s.has_method (each_service s)) then 0 else 1))
work-asked_example = work-asked (record { accepts = true; begins = true; has_method = λ _. false })

-- A round that fails, and one that is served.
abbrev two_rounds : List Server
two_rounds =
    record { accepts = true; begins = true; has_method = λ _. false }
    ∷ record { accepts = false; begins = true; has_method = λ _. true }
    ∷ []

gsoap_life_released_example :
    follow absent (gsoap_life true (λ _. true) context two_rounds) ≡ some absent
gsoap_life_released_example = gsoap_life_released (λ _. true) context two_rounds

-- A gSOAP with a buffer of four bytes that takes everything.
abbrev wire : Engine
wire = record {
  State = ℕ;
  response = λ t s. (false, s);
  send_raw = λ t s. (false, s);
  end_send = λ s. (pos 0, s);
  error = λ s. pos s;
  tag_match = λ path pattern. str_eq pattern (bytes "*.html");
  tmpbuf = 3;
}

abbrev page : Text
page = bytes "<p>ok</p>"

abbrev disk : Text → Option Text
disk name = if str_eq name (bytes "a.html") then some page else none

copy_file_total_example :
    (r : Served wire) × (copy_file wire disk 10 (bytes "a.html") (bytes "text/html") 7 ≡ some r)
    × ((calls : List HttpCall) × (r.calls
          ≡ fopen (bytes "a.html") ∷ soap_response (bytes "text/html") ∷ calls)
        × IsAnswer wire (bytes "text/html") page 7 r.status calls)
unfolding bytes
copy_file_total_example =
    copy_file_total wire disk 10 (bytes "a.html") (bytes "text/html") page 7 refl (omega arith)

http_get-Answers_example :
    Answers wire disk 10
      (bytes "/../etc/x.html")
      (bytes "../etc/x.html")
      7
      (http_get wire disk 10 [] (bytes "/../etc/x.html") 7)
unfolding bytes
http_get-Answers_example = http_get-Answers wire disk 10 [] (bytes "/../etc/x.html") 7
