-- ===== src/Log/Writers.antt =====
-- `LogWriter` of src/logger.hpp beside `Log` of src/log.hpp.
use cpp_shared.Log.{
  Tm, datetime, Call, Files, append_file, Log, write, clear, level_string, level_number, off, merge,
  writer_write, writer_clear,
}
use cpp_shared.Prelude.{
  ℕ, ◌≤◌, ◌≡◌, refl, none, some, arith, if◌then◌else◌, Bytes, get_elem?, Option-cases, inl, inr,
}

-- The two loggers do the same for a level and its name, where the time fits the buffer: the same
-- files afterwards, whether the log is on or off and whether its file can be opened or not.
writers_agree :
    (localtime : ℕ → Tm) (log : Log) (now level : ℕ) (name time : Bytes) (c : Call) (fs : Files)
    → get_elem? level_string level ≡ some name
    → datetime localtime now ≡ some time
    → (writer_write localtime log now level c fs ≡ write localtime log now name c fs)
      × (writer_clear log fs ≡ clear log fs)
unfolding writer_write write writer_clear clear append_file merge
writers_agree localtime log now level name time c fs named timed =
    (rw (writer_write, write, named, timed) (ground arith), refl)

past_end : (level : ℕ) → 7 ≤ level → get_elem? level_string level ≡ none
past_end level h = ground arith

-- An entry for OFF, or for a number past it, reads past the end of the names of the levels, unless
-- the log is off or its file cannot be opened; then nothing is written.
writer_off :
    (localtime : ℕ → Tm) (log : Log) (now level : ℕ) (c : Call) (fs : Files)
    → level_number off ≤ level
    → writer_write localtime log now level c fs
      ≡ (if log.on then (if fs.opens log.log_file_name then none else some fs) else some fs)
unfolding writer_write merge
writer_off localtime log now level c fs h =
    let missing : get_elem? level_string level ≡ none = past_end level h in
    elim (Option-cases (datetime localtime now)) [
      | inl long ↦ rw (writer_write, long) refl
      | inr (time, fits) ↦ rw (writer_write, fits, missing) refl
    ]
