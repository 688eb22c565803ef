-- ===== src/Daemon/Exits.antt =====
-- The functions of src/daemon.cpp that can end the process: exit_if_not_daemonized,
-- daemon_error_exit and set_sig_handler. An exit is what is printed with the status.
use onvif_srvd_cmake.Prelude.{
  ℕ, Text, Option, none, some, Bool, not, [], ◌≡◌, refl, ◌++◌, bytes, is_empty, if◌then◌else◌,
}
use onvif_srvd_cmake.Daemon.{DaemonInfo, Daemon, set_daemonized}
use onvif_srvd_cmake.Daemon.Process.{
  Posix, Outcome, exited, running, exit_failure, mark, daemonize_calls, daemonize2,
}

pub record Exit : Type 0 where
  pub printed : Text
  pub status : ℕ

unfoldable pub exit_if_not_daemonized : ℕ → Daemon → Option Exit
exit_if_not_daemonized exit_status d =
    if not d.daemon_config.daemonized
    then some (record { printed = []; status = exit_status })
    else none

-- `printed` is what vfprintf makes of the format and its arguments.
unfoldable pub daemon_error_exit : Option Text → Text → Exit
daemon_error_exit none printed = record { printed = []; status = exit_failure }
daemon_error_exit (some format) printed =
    if is_empty format
    then record { printed = []; status = exit_failure }
    else record { printed = bytes "onvif_srvd: " ++ printed; status = exit_failure }

-- `installed` says that sigaction returns 0.
unfoldable pub set_sig_handler : Bool → Text → Option Exit
unfolding daemon_error_exit
set_sig_handler installed printed =
    if not installed
    then some (daemon_error_exit (some (bytes "Can't set handler for signal: %d %m\n")) printed)
    else none

module _ (p : Posix) where
  marked_stays :
      (c : DaemonInfo) (o : Outcome p.World) (w : p.World) (d : Daemon) (status : ℕ)
      → (mark p c o).1 ≡ running w
      → exit_if_not_daemonized status (record d { daemon_config = (mark p c o).0 }) ≡ none
  unfolding mark set_daemonized exit_if_not_daemonized
  marked_stays c (exited s v) w d status h = absurd cc
  marked_stays c (running v) w d status h = refl

  -- A process that comes out of daemonize2 does not leave in exit_if_not_daemonized.
  pub daemonize2-exit_if_not_daemonized :
      (c : DaemonInfo) (w w' : p.World) (d : Daemon) (status : ℕ)
      → (daemonize2 p c w).1 ≡ running w'
      → exit_if_not_daemonized status (record d { daemon_config = (daemonize2 p c w).0 }) ≡ none
  unfolding daemonize2
  daemonize2-exit_if_not_daemonized c w w' d status h =
      marked_stays c (daemonize_calls p c w) w' d status h
