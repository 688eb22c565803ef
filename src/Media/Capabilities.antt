-- ===== src/Media/Capabilities.antt =====
-- The media capabilities, and the messages to the broker.
use onvif_srvd_cmake.Prelude.{
  none, some, Bool, true, false, not, [], ◌∷◌, ◌≡◌, refl, arith, any, is_empty, if◌then◌else◌,
}
use onvif_srvd_cmake.Prelude.StdMap.{StdMap}
use onvif_srvd_cmake.Profile.{StreamProfile}
use onvif_srvd_cmake.Context.{ServiceContext}
use onvif_srvd_cmake.Media.{snapshot_loop, get_media_service_capabilities, values}

abbrev pub has_snapshot : StreamProfile → Bool
has_snapshot p = not (is_empty p.snapurl)

loop_found : (b : Bool) (m : StdMap StreamProfile) → snapshot_loop (some b) m ≡ some b
unfolding snapshot_loop
loop_found b [] = refl
loop_found b ((k, p) ∷ m) = loop_found b m

loop-any :
    (m : StdMap StreamProfile)
    → snapshot_loop none m ≡ (if any has_snapshot (values m) then some true else none)
unfolding snapshot_loop
loop-any [] = refl
loop-any ((k, p) ∷ m) = ground (arith, loop_found true m, loop-any m)

-- The capabilities announce snapshots exactly if some profile has a snapshot URL; without one the
-- flag is absent, not false. RTP multicast is announced as false.
pub capabilities-any :
    (c : ServiceContext)
    → ((get_media_service_capabilities c).snapshot_uri
        ≡ (if any has_snapshot (values c.profiles) then some true else none))
      × ((get_media_service_capabilities c).rtp_multicast ≡ false)
unfolding get_media_service_capabilities
capabilities-any c = (loop-any c.profiles, refl)
