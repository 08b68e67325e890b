-- ===== src/Tests/Setup.antt =====
-- src/BoostHelpers.cpp and src/Config.cpp at a sample of a file system and of a configuration, and the
-- theorems there.
use worker_log.Base.{◌≡◌, refl, true, false, codes, equal, All}
use worker_log.Base.Dict.{Dict, vacant, holds, find, assign}
use worker_log.BoostHelpers.{Process, allowed, check_path, check_loop, walked}
use worker_log.BoostHelpers.Paths.{check_path-passable, check_path-reached}
use worker_log.BoostHelpers.Steps.{reached}
use worker_log.External.Files.{Stat, directory}
use worker_log.Tests.SampleFiles.{sample_files, sample_files-IsFileSystem}

abbrev process : Process
process = record { uid = 1000; gid = 1000 }

-- /var is there and readable, /var/run is not there.
abbrev files : Dict Stat
files =
    holds (codes "/var") (record { kind = directory; st_uid = 0; st_gid = 0; st_mode = 0o755 })
      vacant

check_path-passable_example :
    check_path sample_files process (codes "/var/run/x") false true files ≡ (false, files)
unfolding walked equal find allowed
check_path-passable_example =
    check_path-passable sample_files process (codes "/var/run/x") true files

abbrev with_run : Dict Stat
with_run =
    holds (codes "/var") (record { kind = directory; st_uid = 0; st_gid = 0; st_mode = 0o755 })
      (holds (codes "/var/run")
        (record { kind = directory; st_uid = 1000; st_gid = 1000; st_mode = 0o755 }) vacant)

check_run : check_path sample_files process (codes "/var/run/x") true true files ≡ (true, with_run)
unfolding check_path check_loop walked equal find allowed assign
check_run = refl

check_path-reached_example :
    All
      (λ test. reached sample_files process with_run test ≡ true)
      (walked sample_files (codes "/var/run/x") true)
unfolding walked equal
check_path-reached_example =
    check_path-reached sample_files sample_files-IsFileSystem process (codes "/var/run/x") true
      files with_run check_run (refl, (refl, (refl, tt)))
