-- ===== src/Daemon/Settings.antt =====
-- Which daemon configurations are accepted.
use onvif_srvd_cmake.Prelude.{Text, false, not, ◌&&◌, ◌≡◌, arith, is_empty, if◌then◌else◌}
use onvif_srvd_cmake.Daemon.{
  DaemonInfo, Daemon, set_pid_file, set_log_level, clear, is_valid, save_config,
}

-- A cleared configuration that gets a pid file and a log level is accepted exactly if neither text
-- is empty; one that gets only one of the two is refused. Saving makes a valid configuration that of
-- the daemon, which keeps its own otherwise.
pub save_config-set_iff :
    (pid level : Text) (i : DaemonInfo) (d : Daemon)
    → ((save_config (set_log_level level (set_pid_file pid (clear i)).0).0 d).1
        ≡ (not (is_empty pid) && not (is_empty level)))
      × ((save_config (set_log_level level (clear i)).0 d).1 ≡ false)
      × ((save_config (set_pid_file pid (clear i)).0 d).1 ≡ false)
      × ((save_config i d).0.daemon_config ≡ (if is_valid i then i else d.daemon_config))
unfolding save_config set_log_level set_pid_file clear is_valid
save_config-set_iff pid level i d = (ground arith, ground arith, ground arith, ground arith)
