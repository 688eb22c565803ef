-- ===== src/Daemon.antt =====
-- DaemonInfo and the configuration part of Daemon, src/daemon.hpp and src/daemon.cpp.
pub mod Settings
pub mod Exits
pub mod Process
use onvif_srvd_cmake.Prelude.{
  ℕ, Text, Bool, true, false, not, [], ◌&&◌, is_empty, bytes, if◌then◌else◌,
}

pub record DaemonInfo : Type 0 where
  pub terminated : Bool
  pub daemonized : Bool
  pub no_chdir : Bool
  pub no_fork : Bool
  pub no_close_stdio : Bool
  pub log_async : Bool
  pub pid_file : Text
  pub log_file : Text
  pub log_level : Text
  pub cmd_pipe : Text
  pub log_file_size_mb : ℕ
  pub log_file_count : ℕ
  pub str_err : Text

-- The defaults of the members.
abbrev pub new_daemon_info : DaemonInfo
new_daemon_info = record {
  terminated = false;
  daemonized = false;
  no_chdir = false;
  no_fork = false;
  no_close_stdio = true;
  log_async = false;
  pid_file = [];
  log_file = [];
  log_level = [];
  cmd_pipe = [];
  log_file_size_mb = 0;
  log_file_count = 0;
  str_err = [];
}

unfoldable pub set_terminated : Bool → DaemonInfo → DaemonInfo × Bool
set_terminated new_val i = (record i { terminated = new_val }, true)

unfoldable pub set_daemonized : Bool → DaemonInfo → DaemonInfo × Bool
set_daemonized new_val i = (record i { daemonized = new_val }, true)

unfoldable pub set_no_chdir : Bool → DaemonInfo → DaemonInfo × Bool
set_no_chdir new_val i = (record i { no_chdir = new_val }, true)

unfoldable pub set_no_fork : Bool → DaemonInfo → DaemonInfo × Bool
set_no_fork new_val i = (record i { no_fork = new_val }, true)

unfoldable pub set_no_close_stdio : Bool → DaemonInfo → DaemonInfo × Bool
set_no_close_stdio new_val i = (record i { no_close_stdio = new_val }, true)

unfoldable pub set_pid_file : Text → DaemonInfo → DaemonInfo × Bool
set_pid_file new_val i =
    if is_empty new_val
    then (record i { str_err = bytes "pidFile is empty" }, false)
    else (record i { pid_file = new_val }, true)

-- The error text names the other file, as in the source.
unfoldable pub set_log_file : Text → DaemonInfo → DaemonInfo × Bool
set_log_file new_val i =
    if is_empty new_val
    then (record i { str_err = bytes "pidFile is empty" }, false)
    else (record i { log_file = new_val }, true)

unfoldable pub set_log_level : Text → DaemonInfo → DaemonInfo × Bool
set_log_level new_val i =
    if is_empty new_val
    then (record i { str_err = bytes "logLevel is empty" }, false)
    else (record i { log_level = new_val }, true)

unfoldable pub set_cmd_pipe : Text → DaemonInfo → DaemonInfo × Bool
set_cmd_pipe new_val i =
    if is_empty new_val
    then (record i { str_err = bytes "cmdPipe is empty" }, false)
    else (record i { cmd_pipe = new_val }, true)

unfoldable pub set_log_file_size_mb : ℕ → DaemonInfo → DaemonInfo × Bool
set_log_file_size_mb new_val i = (record i { log_file_size_mb = new_val }, true)

unfoldable pub set_log_file_count : ℕ → DaemonInfo → DaemonInfo × Bool
set_log_file_count new_val i = (record i { log_file_count = new_val }, true)

unfoldable pub set_log_async : Bool → DaemonInfo → DaemonInfo × Bool
set_log_async new_val i = (record i { log_async = new_val }, true)

unfoldable pub is_valid : DaemonInfo → Bool
is_valid i = not (is_empty i.pid_file) && not (is_empty i.log_level)

-- Everything but the error text.
unfoldable pub clear : DaemonInfo → DaemonInfo
clear i = record i {
  pid_file = [];
  log_file = [];
  log_level = [];
  cmd_pipe = [];
  log_file_size_mb = 0;
  log_file_count = 0;
  terminated = false;
  daemonized = false;
  no_chdir = false;
  no_fork = false;
  no_close_stdio = false;
  log_async = false;
}

-- Daemon
pub record Daemon : Type 0 where
  pub daemon_config : DaemonInfo
  pub str_err : Text

unfoldable pub save_config : DaemonInfo → Daemon → Daemon × Bool
save_config config d =
    if not (is_valid config)
    then (record d { str_err = bytes "daemon configuration has unset parameters" }, false)
    else (record d { daemon_config = config }, true)
