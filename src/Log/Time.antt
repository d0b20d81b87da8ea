-- ===== src/Log/Time.antt =====
-- The time stamp of a log entry and its buffer: src/log.hpp, src/logger.hpp.
use cpp_shared.Log.{Tm, dis_millseconds, format_time, datetime}
use cpp_shared.Prelude.{
  ℕ, ◌+◌, ◌*◌, ◌/◌, ◌<◌, ◌≡◌, some, arith, length, print, print_padded, length-append, length-print,
  length-print_padded,
}

-- The ranges that `localtime` keeps, where a minute may have a leap second.
pub record IsCalendar (t : Tm) : Type 0 where
  pub mon : t.tm_mon < 12
  pub mday : t.tm_mday < 32
  pub hour : t.tm_hour < 24
  pub min : t.tm_min < 60
  pub sec : t.tm_sec < 61

length-format_time :
    (t : Tm) (millis : ℕ)
    → IsCalendar t
    → millis < 1000
    → length (format_time t millis) ≡ length (print (t.tm_year + 1900)) + 19
unfolding format_time
length-format_time t millis c h = omega (
  arith,
  length-append (print (t.tm_year + 1900)) _,
  length-append (print_padded 2 (t.tm_mon + 1)) _,
  length-append (print_padded 2 t.tm_mday) _,
  length-append (print_padded 2 t.tm_hour) _,
  length-append (print_padded 2 t.tm_min) _,
  length-append (print_padded 2 t.tm_sec) _,
  length-print_padded 1 (t.tm_mon + 1) (omega (arith, c.mon)),
  length-print_padded 1 t.tm_mday (omega (arith, c.mday)),
  length-print_padded 1 t.tm_hour (omega (arith, c.hour)),
  length-print_padded 1 t.tm_min (omega (arith, c.min)),
  length-print_padded 1 t.tm_sec (omega (arith, c.sec)),
  length-print_padded 2 millis h,
)

-- The time stamp fits its 25 bytes, up to the year 99999 and if `localtime` keeps its ranges, and its
-- milliseconds are those of the time within its second.
pub datetime_fits :
    (localtime : ℕ → Tm) (now : ℕ)
    → IsCalendar (localtime (now / 1000))
    → (localtime (now / 1000)).tm_year + 1900 < 100000
    → (datetime localtime now ≡ some (format_time (localtime (now / 1000)) (dis_millseconds now)))
      × (now ≡ now / 1000 * 1000 + dis_millseconds now)
      × (dis_millseconds now < 1000)
unfolding datetime
datetime_fits localtime now c year =
    let small : length (format_time (localtime (now / 1000)) (dis_millseconds now)) < 25 = omega (
      arith,
      length-format_time (localtime (now / 1000)) (dis_millseconds now) c (omega arith),
      length-print 4 ((localtime (now / 1000)).tm_year + 1900) year,
    ) in
    (ground arith, omega arith, omega arith)
