-- ===== src/Log.antt =====
-- `Log` of src/log.hpp and `LogWriter` of src/logger.hpp, which append entries to a file. The time is
-- an argument, in milliseconds since the epoch, and so is `localtime`, for years from 1900 on. The
-- mutex makes each call one step.
pub mod Time
pub mod Entries
pub mod History
pub mod Writers
mod Examples
use cpp_shared.Prelude.{
  ℕ, suc, ◌+◌, ◌-◌, ◌*◌, ◌/◌, List, [], ◌∷◌, ◌++◌, Option, none, some, Bool, true, false,
  if◌then◌else◌, ltb, length, get_elem?, print, print_padded, Bytes, bytes_eq, codes, ℤ, pos,
  negsuc,
}

pub record Tm : Type 0 where
  pub tm_year : ℕ
  pub tm_mon : ℕ
  pub tm_mday : ℕ
  pub tm_hour : ℕ
  pub tm_min : ℕ
  pub tm_sec : ℕ

-- The milliseconds of `now` within its second.
abbrev pub dis_millseconds : ℕ → ℕ
dis_millseconds now = now - now / 1000 * 1000

-- "%d-%02d-%02d %02d:%02d:%02d %03d"
unfoldable pub format_time : Tm → ℕ → Bytes
format_time t millis =
    print (t.tm_year + 1900)
    ++ (b'-'
        ∷ (print_padded 2 (t.tm_mon + 1)
            ++ (b'-'
                ∷ (print_padded 2 t.tm_mday
                    ++ (b' '
                        ∷ (print_padded 2 t.tm_hour
                            ++ (b':'
                                ∷ (print_padded 2 t.tm_min
                                    ++ (b':'
                                        ∷ (print_padded 2 t.tm_sec
                                            ++ (b' ' ∷ print_padded 3 millis)))))))))))

-- `sprintf` into 25 bytes, the last for a zero; `none` is a write past their end.
unfoldable pub datetime : (ℕ → Tm) → ℕ → Option Bytes
datetime localtime now =
    let text = format_time (localtime (now / 1000)) (dis_millseconds now) in
    if ltb (length text) 25 then some text else none

-- The arguments of a call.
pub record Call : Type 0 where
  pub line_no : ℤ
  pub file_name : Bytes
  pub function : Bytes
  pub info : Bytes

unfoldable pub to_string : ℤ → Bytes
to_string (pos n) = print n
to_string (negsuc n) = b'-' ∷ print (suc n)

-- One line of the building of an entry: a label, a text and "]", with what follows them.
unfoldable pub bracketed : Bytes → Bytes → Bytes → Bytes
bracketed label text rest = label ++ (text ++ (b']' ∷ rest))

unfoldable pub entry : Bytes → Bytes → Call → Bytes
entry time level c = bracketed (codes "[") time (
    bracketed (codes "[") level (
      bracketed (codes "[FILE:") c.file_name (
        bracketed (codes "[LINE:") (to_string c.line_no) (
          bracketed (codes "[FUNC:") c.function (bracketed (codes "[MESSAGE:") c.info (10 ∷ []))))))

-- What is in the files, and which ones can be opened; opening one creates it.
pub record Files : Type 0 where
  pub contents : Bytes → Bytes
  pub opens : Bytes → Bool

abbrev pub store : Bytes → Bytes → Files → Files
store name text fs = record fs { contents = λ f. if bytes_eq f name then text else fs.contents f }

-- `ofstream` with `app`, `write`, `close`
unfoldable pub append_file : Bytes → Bytes → Files → Files
append_file name text fs = if fs.opens name then store name (fs.contents name ++ text) fs else fs

-- `ofstream` with `trunc`, `close`
unfoldable pub truncate_file : Bytes → Files → Files
truncate_file name fs = if fs.opens name then store name [] fs else fs

pub record Log : Type 0 where
  pub on : Bool
  pub log_file_name : Bytes

-- `Log::write`
unfoldable pub write : (ℕ → Tm) → Log → ℕ → Bytes → Call → Files → Option Files
unfolding append_file
write localtime log now level c fs =
    let logged : Option Files = elim (datetime localtime now) [
      | none ↦ none
      | some time ↦ some (append_file log.log_file_name (entry time level c) fs)
    ] in
    if log.on then logged else some fs

unfoldable pub clear : Log → Files → Files
unfolding truncate_file
clear log fs = truncate_file log.log_file_name fs

-- `LogWriter::levelString`; OFF has no entry.
abbrev pub level_string : List Bytes
level_string =
    codes "ALL"
    ∷ codes "TRACE"
    ∷ codes "DEBUG"
    ∷ codes "INFO"
    ∷ codes "WARN"
    ∷ codes "ERROR"
    ∷ codes "FATAL"
    ∷ []

pub data Level : Type 0 where
  all trace debug info warn error fatal off : Level

abbrev pub level_number : Level → ℕ
level_number all = 0
level_number trace = 1
level_number debug = 2
level_number info = 3
level_number warn = 4
level_number error = 5
level_number fatal = 6
level_number off = 7

abbrev pub merge_with : Option Bytes → Option Bytes → Call → Option Bytes
merge_with none level c = none
merge_with (some time) none c = none
merge_with (some time) (some level) c = some (entry time level c)

-- `LogWriter::merge`; an index past the end of `levelString` is undefined behaviour.
unfoldable pub merge : (ℕ → Tm) → ℕ → ℕ → Call → Option Bytes
merge localtime now level c = merge_with (datetime localtime now) (get_elem? level_string level) c

-- `LogWriter::write`, which opens the file first
unfoldable pub writer_write : (ℕ → Tm) → Log → ℕ → ℕ → Call → Files → Option Files
unfolding merge
writer_write localtime log now level c fs =
    let logged : Option Files = elim (merge localtime now level c) [
      | none ↦ none
      | some text ↦ some (store log.log_file_name (fs.contents log.log_file_name ++ text) fs)
    ] in
    if log.on then (if fs.opens log.log_file_name then logged else some fs) else some fs

-- `LogWriter::show`: what it prints.
unfoldable pub show : (ℕ → Tm) → ℕ → ℕ → Call → Option Bytes
unfolding merge
show localtime now level c = elim (merge localtime now level c) [
  | none ↦ none
  | some text ↦ some (text ++ (10 ∷ []))
]

-- `LogWriter::clear`
unfoldable pub writer_clear : Log → Files → Files
unfolding truncate_file
writer_clear log fs = truncate_file log.log_file_name fs
