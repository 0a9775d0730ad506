-- ===== src/Xtask/BuildEbpf.antt =====
-- `build_ebpf` (xtask/src/build_ebpf.rs).
use jbm.Prelude.{Bool, List, [], ◌∷◌, ◌++◌, some, Result, ok, err, Text, codes, if◌then◌else◌}
use jbm.Xtask.{Command, Outcome, done, panics, M, ◌>>=◌}
use jbm.Xtask.Architecture.{Architecture, to_string}

pub record BuildOptions : Type 0 where
  pub target : Architecture
  pub release : Bool

-- What running a command gives: whether it was a success, or that it could not be run.
abbrev pub Host : Type 0
Host = Command → Result Bool Text

abbrev pub release_flag : Bool → List Text
release_flag release = if release then codes "--release" ∷ [] else []

-- `status()`
unfoldable pub status : Host → Command → List Command → List Command × Outcome (Result Bool Text)
status host command log = (log ++ (command ∷ []), done (host command))

-- `.expect(…)` and then `assert!(status.success())`
abbrev pub assert_success : Result Bool Text → M (Unit {0})
assert_success (err e) log = (log, panics)
assert_success (ok success) log = if success then (log, done tt) else (log, panics)

abbrev pub build_ebpf_command : BuildOptions → Command
build_ebpf_command opts = record {
  program = codes "cargo";
  args =
      codes "build"
      ∷ (codes "--verbose"
          ∷ ((codes "--target=" ++ to_string opts.target)
              ∷ (codes "-Z" ∷ (codes "build-std=core" ∷ release_flag opts.release))));
  current_dir = some (codes "jbm-ebpf");
  env_remove = codes "RUSTUP_TOOLCHAIN" ∷ [];
}

unfoldable pub build_ebpf : Host → BuildOptions → M (Unit {0})
unfolding status
build_ebpf host opts = do result ← status host (build_ebpf_command opts); assert_success result
