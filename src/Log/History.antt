-- ===== src/Log/History.antt =====
-- What the log file holds after any calls, against an abstract log: src/log.hpp.
use cpp_shared.Log.{Tm, dis_millseconds, format_time, Call, entry, Files, store, Log, write, clear}
use cpp_shared.Log.Time.{IsCalendar, datetime_fits}
use cpp_shared.Prelude.{
  ℕ, ◌+◌, ◌/◌, ◌<◌, ◌≡◌, refl, sym, ap, ◌∙◌, List, [], ◌∷◌, ◌++◌, append-nil, append_assoc, Option,
  none, some, true, false, arith, Bytes, bytes_eq, bytes_eq_iff, All,
}

pub data Op : Type 0 where
  writes : (now : ℕ) (level : Bytes) (call : Call) → Op
  clears : Op

module _ (localtime : ℕ → Tm) (log : Log) where
  unfoldable pub step : Op → Files → Option Files
  step (writes now level c) fs = write localtime log now level c fs
  step clears fs = some (clear log fs)

  unfoldable pub run : List Op → Files → Option Files
  unfolding step
  run [] fs = some fs
  run (o ∷ os) fs = elim (step o fs) [ none ↦ none | some fs' ↦ run os fs' ]

-- The abstract log: the calls since the last `clear`, oldest first, each with its time and level.
abbrev pub Entries : Type 0
Entries = List (ℕ × Bytes × Call)

unfoldable pub remember : List Op → Entries → Entries
remember [] l = l
remember (writes now level c ∷ os) l = remember os (l ++ ((now, level, c) ∷ []))
remember (clears ∷ os) l = remember os []

-- The text of the abstract log.
unfoldable pub render : (ℕ → Tm) → Entries → Bytes
render localtime [] = []
render localtime ((now, level, c) ∷ l) =
    entry (format_time (localtime (now / 1000)) (dis_millseconds now)) level c ++ render localtime l

abbrev pub IsTimed : (ℕ → Tm) → Op → Type 0
IsTimed localtime clears = Unit {0}
IsTimed localtime (writes now level c) =
    IsCalendar (localtime (now / 1000)) × ((localtime (now / 1000)).tm_year + 1900 < 100000)

render-snoc :
    (localtime : ℕ → Tm) (l : Entries) (now : ℕ) (level : Bytes) (c : Call)
    → render localtime (l ++ ((now, level, c) ∷ []))
      ≡ render localtime l
        ++ entry (format_time (localtime (now / 1000)) (dis_millseconds now)) level c
unfolding render
render-snoc localtime [] now level c = append-nil _
render-snoc localtime ((n, k, d) ∷ l) now level c =
    ap (λ t. entry (format_time (localtime (n / 1000)) (dis_millseconds n)) k d ++ t)
      (render-snoc localtime l now level c)
    ∙ sym (append_assoc _ (render localtime l) _)

render_nil : (localtime : ℕ → Tm) → render localtime [] ≡ []
unfolding render
render_nil localtime = refl

-- The files after an operation: the log's own, the others, and that it can still be opened.
abbrev Follows : Log → Files → Files → Bytes → Type 0
Follows log fs fs' text =
    (fs'.contents log.log_file_name ≡ text)
    × (fs'.opens log.log_file_name ≡ true)
    × ((f : Bytes) → bytes_eq f log.log_file_name ≡ false → fs'.contents f ≡ fs.contents f)

module _ (localtime : ℕ → Tm) (log : Log) (on : log.on ≡ true) where
  write-Follows :
      (fs : Files) (l : Entries) (now : ℕ) (level : Bytes) (c : Call)
      → IsTimed localtime (writes now level c)
      → fs.opens log.log_file_name ≡ true
      → fs.contents log.log_file_name ≡ render localtime l
      → (fs' : Files) × (write localtime log now level c fs ≡ some fs')
        × Follows log fs fs' (render localtime (l ++ ((now, level, c) ∷ [])))
  unfolding write
  write-Follows fs l now level c timed opens same =
      let (time, whole, part) = datetime_fits localtime now timed.0 timed.1 in
      let text : Bytes =
        entry (format_time (localtime (now / 1000)) (dis_millseconds now)) level c in
      (
        store log.log_file_name (fs.contents log.log_file_name ++ text) fs,
        rw (write, on, time, opens) refl,
        (
          ground (
            arith,
            render-snoc localtime l now level c,
            bytes_eq_iff log.log_file_name log.log_file_name,
          ),
          opens,
          λ f away. rw away refl,
        ),
      )

  clear-Follows :
      (fs : Files) → fs.opens log.log_file_name ≡ true → Follows log fs (clear log fs) []
  unfolding clear
  clear-Follows fs opens = (
    ground (arith, bytes_eq_iff log.log_file_name log.log_file_name),
    ground arith,
    λ f away. ground arith,
  )

  -- The log file refines the abstract log: if it holds the text of the entries so far, then after any
  -- writes and clears it holds the text of the calls since the last clear, in their order, and no
  -- other file has changed. This is for a log that is on, whose file can be opened, and for times
  -- that `localtime` splits within its ranges, up to the year 99999.
  pub log_refines :
      (os : List Op) (fs : Files) (l : Entries)
      → All (IsTimed localtime) os
      → fs.opens log.log_file_name ≡ true
      → fs.contents log.log_file_name ≡ render localtime l
      → (fs' : Files) × (run localtime log os fs ≡ some fs')
        × (fs'.contents log.log_file_name ≡ render localtime (remember os l))
        × ((f : Bytes) → bytes_eq f log.log_file_name ≡ false → fs'.contents f ≡ fs.contents f)
  unfolding run remember
  log_refines [] fs l timed opens same = (fs, refl, same, λ f away. refl)
  log_refines (writes now level c ∷ os) fs l timed opens same =
      let (fs1, e1, (text1, opens1, others1)) = write-Follows fs l now level c timed.0 opens same in
      let (fs2, e2, text2, others2) =
        log_refines os fs1 (l ++ ((now, level, c) ∷ [])) timed.1 opens1 text1 in
      (fs2, rw (run, step, e1) e2, text2, λ f away. others2 f away ∙ others1 f away)
  log_refines (clears ∷ os) fs l timed opens same =
      let (text1, opens1, others1) = clear-Follows fs opens in
      let (fs2, e2, text2, others2) =
        log_refines os (clear log fs) [] timed.1 opens1 (text1 ∙ sym (render_nil localtime)) in
      (fs2, e2, text2, λ f away. others2 f away ∙ others1 f away)
