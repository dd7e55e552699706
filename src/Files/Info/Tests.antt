-- ===== src/Files/Info/Tests.antt =====
-- The sample system's file was modified at 5 and is accessed at 9.
use smpcil.Base.{◌≡◌, refl, smp_ok}
use smpcil.Error.{World}
use smpcil.Files.Sample.{system, sample, start, disk}
use smpcil.Files.Info.{file_set_access_time, file_access_time, file_modify_time}
use smpcil.Files.Info.Times.{set_access_time-keeps}

abbrev accessed : World system
accessed = record { mem = record disk { atime = 9 }; smp_errno = start.smp_errno }

access_run : file_set_access_time sample 64 9 start ≡ (smp_ok, accessed)
unfolding file_set_access_time
access_run = refl

set_access_time-keeps_example :
    ((file_access_time sample 64 accessed).0 ≡ 9) × ((file_modify_time sample 64 accessed).0 ≡ 5)
set_access_time-keeps_example =
    set_access_time-keeps sample (λ file a t m e. (refl, refl, refl)) 64 9 start accessed access_run
