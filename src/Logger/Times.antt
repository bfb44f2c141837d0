-- ===== src/Logger/Times.antt =====
-- `stringToTime` and `timeToString` of client/src/logger.cpp, with the C library as a parameter.
use peer_bridge_cli.Common.{ℕ, Text, codes}

-- What the two functions use of the C library and of `chrono`. A time point is counted from the
-- earliest; `blank` is the zero `tm` with no daylight saving given; `strftime` has the size of the
-- buffer first.
pub record CTime (Tm : Type 0) : Type 0 where
  pub blank : Tm
  pub get_time : Text → Text → Tm → Tm
  pub mktime : Tm → ℕ
  pub localtime : ℕ → Tm
  pub strftime : ℕ → Text → Tm → Text
  pub from_time_t : ℕ → ℕ
  pub to_time_t : ℕ → ℕ

abbrev pub date_format : Text
date_format = codes "%Y-%m-%d_%H-%M"

module _ {Tm : Type 0} (c : CTime Tm) where
  open c use {blank, get_time, mktime, localtime, strftime, from_time_t, to_time_t}

  abbrev pub string_to_time : Text → Text → ℕ
  string_to_time format datetime_string =
      from_time_t (mktime (get_time format datetime_string blank))

  abbrev pub time_to_string : Text → ℕ → Text
  time_to_string format time_point = strftime 70 format (localtime (to_time_t time_point))
