-- ===== src/Tests/Contexts.antt =====
-- Runs of the shared context: profiles, the server's address, URIs and the time zone.
use onvif_srvd_cmake.Prelude.{
  negsuc, neg_ℤ, ℕ, ◌+◌, ◌*◌, pos, none, some, false, [], ◌∷◌, ◌≡◌, refl, arith, bytes, inr,
  is_some, not, ◌&&◌, str_eq, if◌then◌else◌,
}
use onvif_srvd_cmake.Prelude.StdMap.{find}
use onvif_srvd_cmake.Prelude.Stream.{decimal_ℤ}
use onvif_srvd_cmake.Prelude.Substring.Laws.{Expands}
use onvif_srvd_cmake.Profile.{is_valid, set_width, set_height}
use onvif_srvd_cmake.Profile.Setters.{HasDimensions, stored_or, set_dimensions-decimal}
use onvif_srvd_cmake.Context.{add_profile}
use onvif_srvd_cmake.Context.Profiles.{IsWellFormed, add_profile-IsWellFormed, add_profile-find}
use onvif_srvd_cmake.Context.Servers.{get_server_ip_from_client_ip}
use onvif_srvd_cmake.Context.Servers.Subnets.{
  Report, AllReport, server_spec, get_server_ip-server_spec,
}
use onvif_srvd_cmake.Context.Uris.{get_stream_uri, get_snapshot_uri, template_str}
use onvif_srvd_cmake.Context.Uris.Templates.{get_stream_uri-Expands}
use onvif_srvd_cmake.Context.TimeZone.{Environment}
use onvif_srvd_cmake.Context.TimeZone.Offsets.{IsAnnounced, offset_text, time_zone-two_digits}
use onvif_srvd_cmake.Tests.Fixtures.{toy, junk, camera, second, context, context-IsWellFormed}

second-HasDimensions : HasDimensions second
second-HasDimensions = record {
  width = inr (refl, omega arith, omega arith);
  height = inr (refl, omega arith, omega arith);
}

add_profile-IsWellFormed_example : IsWellFormed (add_profile second context).0
add_profile-IsWellFormed_example =
    add_profile-IsWellFormed second context second-HasDimensions context-IsWellFormed

add_profile-find_example :
    ((add_profile second context).1
      ≡ (is_valid second && not (is_some (find second.name context.profiles))))
    × (find camera.name (add_profile second context).0.profiles ≡ (
        if (add_profile second context).1 && str_eq second.name camera.name
        then some second
        else find camera.name context.profiles))
add_profile-find_example = add_profile-find second context camera.name

twice_refused : (add_profile camera context).1 ≡ false
unfolding add_profile is_valid find bytes
twice_refused = refl

found : find camera.name context.profiles ≡ some camera
unfolding find bytes
found = refl

set_dimensions-decimal_example :
    (set_width (pos 5) (decimal_ℤ (negsuc 639)) camera
      ≡ stored_or
          (negsuc 639)
          (record camera { width = negsuc 639 })
          (record camera { str_err = bytes "width is bad, correct range: 100-10000" }))
    × (set_height (pos 5) (decimal_ℤ (negsuc 639)) camera
        ≡ stored_or
            (negsuc 639)
            (record camera { height = negsuc 639 })
            (record camera { str_err = bytes "height is bad, correct range: 100-10000" }))
set_dimensions-decimal_example =
    set_dimensions-decimal (pos 5) (negsuc 639) camera (omega arith, omega arith)

-- What the small kernel says of both interfaces, and a client 10.0.0.9.
abbrev eth0_report : Report
eth0_report = record { ip = 16820416; mask = 16777215; text = bytes "192.168.0.1" }

abbrev eth1_report : Report
eth1_report = record { ip = 16777226; mask = 16777215; text = bytes "10.0.0.1" }

abbrev client : ℕ
client = 150994954

both_report : AllReport toy 3 context.eth_ifs (eth0_report ∷ eth1_report ∷ [])
unfolding bytes
both_report = (
  record { opened = refl; ip = refl; mask = refl; addr = 16820416; at_addr = refl; text = refl },
  (
    record { opened = refl; ip = refl; mask = refl; addr = 16777226; at_addr = refl; text = refl },
    tt,
  ),
)

get_server_ip-server_spec_example :
    ((get_server_ip_from_client_ip toy junk client 3 context).0
      ≡ server_spec client (eth0_report ∷ eth1_report ∷ []))
    × AllReport toy 3
        (get_server_ip_from_client_ip toy junk client 3 context).1.eth_ifs
        (eth0_report ∷ eth1_report ∷ [])
get_server_ip-server_spec_example =
    get_server_ip-server_spec toy 3 junk client context (eth0_report ∷ eth1_report ∷ []) both_report

second_answers : server_spec client (eth0_report ∷ eth1_report ∷ []) ≡ bytes "10.0.0.1"
second_answers = refl

get_stream_uri-Expands_example :
    Expands template_str
      (server_spec client (eth0_report ∷ eth1_report ∷ []))
      camera.url
      (get_stream_uri toy junk client 3 camera.url context).0
    × Expands template_str
        (server_spec client (eth0_report ∷ eth1_report ∷ []))
        camera.url
        (get_snapshot_uri toy junk client 3 camera.url context).0
get_stream_uri-Expands_example =
    get_stream_uri-Expands toy junk client 3 camera.url context (eth0_report ∷ eth1_report ∷ [])
      both_report

abbrev environment : Environment
environment = record { tz = none; tz_onvif = none }

-- The offset of India, 5 hours and 30 minutes, and one of 6 hours and 30 minutes to the west.
time_zone-two_digits_example :
    IsAnnounced environment
      (pos ((4 + 1) * 3600 + 30 * 60))
      (neg_ℤ (pos ((4 + 1) * 3600 + 30 * 60)))
      (offset_text b'+' (4 + 1))
      (offset_text b'-' (4 + 1))
    × IsAnnounced environment
        (pos (0 * 3600 + 30 * 60))
        (neg_ℤ (pos (0 * 3600 + 30 * 60)))
        (offset_text b'+' 0)
        (offset_text b'+' 0)
time_zone-two_digits_example = time_zone-two_digits environment 4 30 (omega arith) (omega arith)
