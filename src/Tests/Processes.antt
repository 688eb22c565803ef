-- ===== src/Tests/Processes.antt =====
-- Runs of the device service and of the daemon.
use onvif_srvd_cmake.Prelude.{
  ℕ, ◌+◌, ◌==◌, pos, some, true, false, [], ◌∷◌, ◌≡◌, ◌⊎◌, refl, bytes, any, All, is_some, is_empty,
  str_eq, ◌&&◌, minus_one,
}
use onvif_srvd_cmake.Context.Servers.{get_x_addr}
use onvif_srvd_cmake.Device.{
  all, ptz_category, events, wants_device, wants_media, wants_ptz, or_all, device_at, ptz_namespace,
  handle_get_services, handle_get_capabilities,
}
use onvif_srvd_cmake.Device.Discovery.{
  announced, handle_get_capabilities-any, handle_get_services-capabilities,
}
use onvif_srvd_cmake.Daemon.{DaemonInfo, Daemon, new_daemon_info, is_valid}
use onvif_srvd_cmake.Daemon.Process.{Posix, in_child, mark, create_pid_file, daemonize2}
use onvif_srvd_cmake.Daemon.Process.Steps.{steps, run, daemonize2-steps}
use onvif_srvd_cmake.Daemon.Process.PidFile.{create_pid_file_closes}
use onvif_srvd_cmake.Tests.Fixtures.{toy, junk, context}

handle_get_capabilities-any_example :
    ((handle_get_capabilities toy junk 5 3 (events ∷ ptz_category ∷ []) context).1.device
      ≡ announced
          (any wants_device (or_all (events ∷ ptz_category ∷ [])))
          (device_at (get_x_addr toy junk 5 3 context).0))
    × ((handle_get_capabilities toy junk 5 3 (events ∷ ptz_category ∷ []) context).1.media
        ≡ announced
            (any wants_media (or_all (events ∷ ptz_category ∷ [])))
            (get_x_addr toy junk 5 3 context).0)
    × ((handle_get_capabilities toy junk 5 3 (events ∷ ptz_category ∷ []) context).1.ptz
        ≡ announced
            (context.ptz_node.enable && any wants_ptz (or_all (events ∷ ptz_category ∷ [])))
            (get_x_addr toy junk 5 3 context).0)
handle_get_capabilities-any_example =
    handle_get_capabilities-any toy junk 5 3 (events ∷ ptz_category ∷ []) context

handle_get_services-capabilities_example :
    (any (λ s. str_eq s.namespace ptz_namespace) (handle_get_services toy junk 5 3 true context).1
      ≡ is_some (handle_get_capabilities toy junk 5 3 (all ∷ []) context).1.ptz)
    × All
        (λ s. s.x_addr ≡ (get_x_addr toy junk 5 3 context).0)
        (handle_get_services toy junk 5 3 true context).1
handle_get_services-capabilities_example =
    handle_get_services-capabilities toy junk 5 3 true context

abbrev idle : Daemon
idle = record { daemon_config = new_daemon_info; str_err = [] }

abbrev info : DaemonInfo
info = record new_daemon_info { pid_file = bytes "/run/onvif.pid"; log_level = bytes "INFO" }

-- The state counts the calls; the second file on a descriptor cannot be locked.
abbrev small : Posix
small = record {
  World = ℕ;
  fork = λ w. (in_child, w + 1);
  umask = λ w. w + 1;
  setsid = λ w. (true, w + 1);
  chdir = λ w. (true, w + 1);
  open_file = λ name w. (some 4, w + 1);
  lockf = λ fd w. (w == 1, w + 1);
  ftruncate = λ fd w. (true, w + 1);
  write_pid = λ fd w. (true, w + 1);
  open_devnull = λ w. (some 5, w + 1);
  dup2 = λ a b w. w + 1;
  close = λ fd w. w + 1;
  init = λ w. w + 1;
}

info_valid : is_valid info ≡ true
unfolding is_valid bytes
info_valid = refl

daemonize2-steps_example : daemonize2 small info 0 ≡ mark small info (run small (steps info) 0)
daemonize2-steps_example = daemonize2-steps small info 0 info_valid

named : is_empty info.pid_file ≡ false
unfolding bytes
named = refl

create_pid_file_closes_example :
    ((create_pid_file small info.pid_file 0).0 ≡ pos 4)
      × ((small.lockf 4 1).0 ≡ true)
      × ((small.ftruncate 4 (small.lockf 4 1).1).0 ≡ true)
      × (small.write_pid 4 (small.ftruncate 4 (small.lockf 4 1).1).1
          ≡ (true, (create_pid_file small info.pid_file 0).1))
    ⊎ (v : ℕ) × (create_pid_file small info.pid_file 0 ≡ (minus_one, small.close 4 v))
create_pid_file_closes_example = create_pid_file_closes small info.pid_file 4 0 1 named refl
