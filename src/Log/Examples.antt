-- ===== src/Log/Examples.antt =====
-- Runs of the log, src/log.hpp and src/logger.hpp.
use cpp_shared.Log.{
  Tm, format_time, datetime, Call, entry, Files, store, Log, write, clear, level_string,
  writer_write, writer_clear,
}
use cpp_shared.Log.Time.{IsCalendar, datetime_fits}
use cpp_shared.Log.Entries.{IsInner, IsReadable, entry_injective}
use cpp_shared.Log.History.{Op, writes, clears, run, remember, render, log_refines}
use cpp_shared.Prelude.{
  ℕ, ◌+◌, ◌*◌, ◌/◌, ◌<◌, ◌≡◌, ◌++◌, refl, List, [], ◌∷◌, Option, none, some, true, false, arith,
  Bytes, codes, bytes_eq, ℤ, pos, negsuc, All, Bool, not, ◌&&◌, ◌==◌,
}

abbrev noon : Tm
noon = record { tm_year = 124; tm_mon = 1; tm_mday = 29; tm_hour = 12; tm_min = 0; tm_sec = 5 }

noon-IsCalendar : IsCalendar noon
noon-IsCalendar = record {
  mon = omega arith;
  mday = omega arith;
  hour = omega arith;
  min = omega arith;
  sec = omega arith;
}

abbrev localtime : ℕ → Tm
localtime now = noon

abbrev info_call : Call
info_call = record {
  line_no = negsuc 11;
  file_name = codes "main.cpp";
  function = codes "main";
  info = codes "started";
}

-- The only text of `format_time` that is that of the record.
abbrev stamp : Bytes
stamp = codes "2024-02-29 12:00:05 007"

datetime_example : datetime localtime 5007 ≡ some stamp
unfolding datetime cpp_shared.Log.format_time cpp_shared.Prelude.print
    cpp_shared.Prelude.print_padded
datetime_example = refl

datetime_fits_example :
    (datetime localtime 5007 ≡ some (format_time noon 7)) × (5007 ≡ 5 * 1000 + 7) × (7 < 1000)
datetime_fits_example = datetime_fits localtime 5007 noon-IsCalendar (omega arith)

abbrev log : Log
log = record { on = true; log_file_name = codes "log" }

abbrev files : Files
files = record { contents = λ f. []; opens = λ f. true }

abbrev history : List Op
history = writes 5007 (codes "INFO") info_call ∷ clears ∷ writes 6000 (codes "WARN") info_call ∷ []

log_refines_example :
    (fs' : Files) × (run localtime log history files ≡ some fs')
    × (fs'.contents (codes "log") ≡ render localtime (remember history []))
    × ((f : Bytes) → bytes_eq f (codes "log") ≡ false → fs'.contents f ≡ [])
unfolding render
log_refines_example =
    log_refines localtime log refl history files []
      ((noon-IsCalendar, omega arith), (tt, ((noon-IsCalendar, omega arith), tt))) refl refl

abbrev all_inner : Bytes → Bool
all_inner [] = true
all_inner (c ∷ s) = not (c == b']') && all_inner s

inner : (s : Bytes) → all_inner s ≡ true → All IsInner s
inner [] h = tt
inner (c ∷ s) h = (ground (arith, h), inner s (ground (arith, h)))

readable : IsReadable stamp (codes "INFO") info_call
readable = record {
  time_inner = inner stamp refl;
  level_inner = inner (codes "INFO") refl;
  file_inner = inner info_call.file_name refl;
  function_inner = inner info_call.function refl;
  info_inner = inner info_call.info refl;
}

entry_injective_example : (stamp ≡ stamp) × (codes "INFO" ≡ codes "INFO") × (info_call ≡ info_call)
entry_injective_example =
    entry_injective stamp stamp (codes "INFO") (codes "INFO") info_call info_call readable readable
      refl
