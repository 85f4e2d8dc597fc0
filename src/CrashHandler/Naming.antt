-- ===== src/CrashHandler/Naming.antt =====
-- The names of the files of crash_handler/crash_handler.cpp: the crash file of
-- `CrashFileOpenAndWriteCommon` and the process maps of `SaveProcessMapsToLog`, which carry the time.
pub mod Age
use cpp_done.CrashHandler.{crash_file_name, crash_process_maps}
use cpp_done.Prelude.{ℕ, ◌+◌, ◌∷◌, ◌++◌, take}
use cpp_done.Std.Decimal.Padded.{zero_pad}
use cpp_done.Std.Decimal.{decimal}
use cpp_done.Std.Text.{Bytes, codes, c_str}

-- `struct tm`
pub record Tm : Type 0 where
  pub tm_year : ℕ
  pub tm_mon : ℕ
  pub tm_mday : ℕ
  pub tm_hour : ℕ
  pub tm_min : ℕ
  pub tm_sec : ℕ

-- `snprintf` with the size that the code passes, 255: it keeps one byte for the NUL
abbrev printed : Bytes → Bytes
printed s = take 254 s

-- "%04d-%02d-%02d_%02d_%02d_%02d"
unfoldable pub stamp : Tm → Bytes
stamp tm =
    zero_pad 4 (tm.tm_year + 1900)
    ++ b'-'
      ∷ (zero_pad 2 (tm.tm_mon + 1)
          ++ b'-'
            ∷ (zero_pad 2 tm.tm_mday
                ++ b'_'
                  ∷ (zero_pad 2 tm.tm_hour
                      ++ b'_' ∷ (zero_pad 2 tm.tm_min ++ b'_' ∷ zero_pad 2 tm.tm_sec))))

-- the name in the directory, for the kind of file
unfoldable pub stamped : Bytes → Tm → Bytes
unfolding stamp
stamped kind tm = kind ++ b'.' ∷ stamp tm

-- the path of the crash file
unfoldable pub crash_file_path : Bytes → Tm → Bytes
crash_file_path log_path tm = printed (c_str log_path ++ stamped crash_file_name tm)

-- the paths of the process maps: from where, and to where; `shown` is what `%s` makes of the
-- `std::string` that it is given
unfoldable pub process_maps_source : ℕ → Bytes
process_maps_source pid = printed (codes "/proc/" ++ (decimal pid ++ codes "/maps"))

unfoldable pub process_maps_path : Bytes → Tm → Bytes
process_maps_path shown tm = printed (shown ++ stamped crash_process_maps tm)

-- "%04d-%02d-%02d %02d:%02d:%02d"
unfoldable pub clock : Tm → Bytes
clock tm = printed (
    zero_pad 4 (tm.tm_year + 1900)
    ++ b'-'
      ∷ (zero_pad 2 (tm.tm_mon + 1)
          ++ b'-'
            ∷ (zero_pad 2 tm.tm_mday
                ++ b' '
                  ∷ (zero_pad 2 tm.tm_hour
                      ++ b':' ∷ (zero_pad 2 tm.tm_min ++ b':' ∷ zero_pad 2 tm.tm_sec)))))
