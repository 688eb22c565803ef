-- ===== src/Daemon/Process.antt =====
-- Becoming a daemon: create_pid_file, redirect_stdio_to_devnull, do_fork and daemonize2 of
-- src/daemon.cpp. The system calls are the record Posix; the function that the caller hands over
-- is its `init`. A process that calls _exit ends with its status.
pub mod Steps
pub mod PidFile
use onvif_srvd_cmake.Prelude.{
  ℕ, Text, ℤ, pos, Option, none, some, Bool, true, false, not, ◌&&◌, is_empty, minus_one, eqb_ℤ,
  ltb, if◌then◌else◌,
}
use onvif_srvd_cmake.Daemon.{DaemonInfo, set_daemonized}

-- What fork answers: -1, the number of the child, or 0.
pub data Fork : Type 0 where
  failed in_parent in_child : Fork

-- A call that answers a Bool answers true where it succeeds.
pub record Posix : Type 1 where
  pub World : Type 0
  pub fork : World → Fork × World
  pub umask : World → World
  pub setsid : World → Bool × World
  pub chdir : World → Bool × World
  pub open_file : Text → World → Option ℕ × World
  pub lockf : ℕ → World → Bool × World
  pub ftruncate : ℕ → World → Bool × World
  pub write_pid : ℕ → World → Bool × World
  pub open_devnull : World → Option ℕ × World
  pub dup2 : ℕ → ℕ → World → World
  pub close : ℕ → World → World
  pub init : World → World

pub data Outcome (W : Type 0) : Type 0 where
  exited : ℕ → W → Outcome W
  running : W → Outcome W

abbrev pub exit_success : ℕ
exit_success = 0

abbrev pub exit_failure : ℕ
exit_failure = 1

module _ (p : Posix) where
  open p use {World}

  abbrev pub then_run : Outcome World → (World → Outcome World) → Outcome World
  then_run (exited s w) f = exited s w
  then_run (running w) f = f w

  -- daemon_error_exit where a call failed.
  abbrev pub or_exit : Bool × World → Outcome World
  or_exit (ok, w) = if ok then running w else exited exit_failure w

  -- The part of create_pid_file behind the call of open.
  unfoldable pub fill_pid_file : Option ℕ × World → ℤ × World
  fill_pid_file (none, w) = (minus_one, w)
  fill_pid_file (some fd, w) =
      let (locked, w1) = p.lockf fd w in
      let (truncated, w2) = p.ftruncate fd w1 in
      let (written, w3) = p.write_pid fd w2 in
      if not locked
      then (minus_one, p.close fd w1)
      else if not truncated
      then (minus_one, p.close fd w2)
      else if not written
      then (minus_one, p.close fd w3)
      else (pos fd, w3)

  unfoldable pub create_pid_file : Text → World → ℤ × World
  unfolding fill_pid_file
  create_pid_file name w =
      if is_empty name then (minus_one, w) else fill_pid_file (p.open_file name w)

  -- The part of redirect_stdio_to_devnull behind the call of open.
  unfoldable pub redirect_to : Option ℕ × World → ℤ × World
  redirect_to (none, w) = (minus_one, w)
  redirect_to (some fd, w) =
      let w' = p.dup2 fd 2 (p.dup2 fd 1 (p.dup2 fd 0 w)) in
      (pos 0, if ltb 2 fd then p.close fd w' else w')

  unfoldable pub redirect_stdio_to_devnull : World → ℤ × World
  unfolding redirect_to
  redirect_stdio_to_devnull w = redirect_to (p.open_devnull w)

  abbrev pub after_fork : Fork × World → Outcome World
  after_fork (failed, w) = exited exit_failure w
  after_fork (in_parent, w) = exited exit_success w
  after_fork (in_child, w) = running w

  unfoldable pub do_fork : World → Outcome World
  do_fork w = after_fork (p.fork w)

  -- daemonize2 up to its last line, where `init` does nothing for an `optional_init` that is NULL.
  unfoldable pub daemonize_calls : DaemonInfo → World → Outcome World
  unfolding do_fork create_pid_file redirect_stdio_to_devnull
  daemonize_calls c w = then_run (if not c.no_fork then do_fork w else running w) (λ w1.
      then_run (if not c.no_fork then or_exit (p.setsid (p.umask w1)) else running (p.umask w1))
        (λ w2. then_run (if not c.no_chdir then or_exit (p.chdir w2) else running w2) (λ w3.
          then_run
            (if is_empty c.pid_file
              then (let (fd, w4) = create_pid_file c.pid_file w3 in
                  or_exit (not (eqb_ℤ fd minus_one), w4))
              else running w3)
            (λ w4.
              let w5 = p.init w4 in
              if not c.no_close_stdio
              then (let (ret, w6) = redirect_stdio_to_devnull w5 in or_exit (eqb_ℤ ret (pos 0), w6))
              else running w5))))

  -- The last line of daemonize2, where it is reached.
  unfoldable pub mark : DaemonInfo → Outcome World → DaemonInfo × Outcome World
  unfolding set_daemonized
  mark c (exited s w) = (c, exited s w)
  mark c (running w) = ((set_daemonized true c).0, running w)

  unfoldable pub daemonize2 : DaemonInfo → World → DaemonInfo × Outcome World
  unfolding daemonize_calls mark
  daemonize2 c w = mark c (daemonize_calls c w)
