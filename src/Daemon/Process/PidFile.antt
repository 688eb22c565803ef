-- ===== src/Daemon/Process/PidFile.antt =====
-- The pid file and its descriptor.
use onvif_srvd_cmake.Prelude.{
  ℕ, Text, pos, some, true, false, ◌≡◌, ◌⊎◌, refl, is_empty, Bool-cases, inl, inr, minus_one,
}
use onvif_srvd_cmake.Daemon.Process.{Posix, create_pid_file, fill_pid_file}

module _ (p : Posix) where
  open p use {World}

  -- After the file was opened as `fd`, either it is locked, emptied and holds the number of the
  -- process, and `fd` is returned, open; or -1 is returned, and the last call closed `fd`.
  pub create_pid_file_closes :
      (name : Text) (fd : ℕ) (w w' : World)
      → is_empty name ≡ false
      → p.open_file name w ≡ (some fd, w')
      → ((create_pid_file p name w).0 ≡ pos fd)
          × ((p.lockf fd w').0 ≡ true)
          × ((p.ftruncate fd (p.lockf fd w').1).0 ≡ true)
          × (p.write_pid fd (p.ftruncate fd (p.lockf fd w').1).1
              ≡ (true, (create_pid_file p name w).1))
        ⊎ (v : World) × (create_pid_file p name w ≡ (minus_one, p.close fd v))
  unfolding create_pid_file fill_pid_file
  create_pid_file_closes name fd w w' named opened =
      let w1 = (p.lockf fd w').1 in
      let w2 = (p.ftruncate fd w1).1 in
      let w3 = (p.write_pid fd w2).1 in
      rw (named, opened, create_pid_file)
        (elim (Bool-cases (p.lockf fd w').0) [
          | inl locked ↦ elim (Bool-cases (p.ftruncate fd w1).0) [
            | inl empty ↦ elim (Bool-cases (p.write_pid fd w2).0) [
              | inl written ↦
                  rw (locked, empty, written, fill_pid_file) (inl (refl, refl, refl, refl))
              | inr failed ↦ rw (locked, empty, failed, fill_pid_file) (inr (w3, refl))
            ]
            | inr failed ↦ rw (locked, failed, fill_pid_file) (inr (w2, refl))
          ]
          | inr failed ↦ rw (failed, fill_pid_file) (inr (w1, refl))
        ])
