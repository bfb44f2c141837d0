-- ===== src/Tests/Logs.antt =====
-- Examples of the logger, and of a dump of a packet.
use peer_bridge_cli.Common.{
  ℕ, ◌+◌, ◌-◌, ◌*◌, ◌/◌, ◌^◌, ◌≤◌, ◌≡◌, refl, ◌⊎◌, true, false, some, List, [], ◌∷◌, ◌++◌, Text,
  arith, codes, length, leb, ltb, map, get_or, All,
}
use peer_bridge_cli.Logger.{LogFolder, contains, is_separator}
use peer_bridge_cli.Logger.Setup.{
  Logging, logger_files, sys_logger, net_logger, short_log_format, init_logging,
  init_logging-written,
}
use peer_bridge_cli.Logger.Limiter.{Doubles, Ordered, written, log_limiter, log_limiter-written}
use peer_bridge_cli.Logger.Times.{CTime, date_format, string_to_time, time_to_string}
use peer_bridge_cli.Logger.Sweep.{IsStamp, directory}

-- Whole numbers in place of doubles.
abbrev whole_numbers : Doubles ℕ
whole_numbers = record {
  literal = λ n. n;
  seconds = λ n. n / 10 ^ 9;
  add = λ a b. a + b;
  mul = λ a b. a * b;
  sub = λ a b. a - b;
  lt = ltb;
}

whole_numbers-Ordered : Ordered whole_numbers leb
whole_numbers-Ordered = record {
  above = λ x m n h k e. ground arith;
  down = λ x m h e. ground arith;
  still = λ x m h e. ground arith;
  same = refl;
}

log_limiter-written_example :
    written whole_numbers
      (map (λ b. (b, 5)) (true ∷ false ∷ true ∷ []))
      (log_limiter whole_numbers 5)
    ≤ 6
log_limiter-written_example =
    log_limiter-written whole_numbers leb whole_numbers-Ordered 5 (true ∷ false ∷ true ∷ [])

-- Names of one letter, which is their time.
abbrev letters : CTime ℕ
letters = record {
  blank = 0;
  get_time = λ format s tm. get_or s 0 0;
  mktime = λ tm. tm;
  localtime = λ t. t;
  strftime = λ size format tm. tm ∷ [];
  from_time_t = λ t. t;
  to_time_t = λ t. t;
}

abbrev six_names : List Text
six_names = codes "e" ∷ codes "c" ∷ codes "f" ∷ codes "b" ∷ codes "d" ∷ codes "g" ∷ []

six_names-stamps :
    All
      (IsStamp (string_to_time letters date_format) (time_to_string letters date_format) 92)
      six_names
six_names-stamps = ground arith

init_logging-written_example :
    let dir =
      directory (string_to_time letters date_format) (time_to_string letters date_format) 92 105 in
    (g : LogFolder) × (l : Logging) × (kept : List Text) × (init_logging letters 92
        (codes "C:/peer/")
        105
        true
        true
        true
        (record { logs = some six_names; lines = [] })
      ≡ some (g, l))
    × (g.logs ≡ some kept)
    × (contains (105 ∷ []) kept ≡ true)
    × ((length kept ≤ 6) ⊎ (length kept ≤ length six_names))
    × (logger_files (sys_logger l) ≡ (dir ++ codes "/app.log") ∷ [])
    × (logger_files (net_logger l) ≡ (dir ++ codes "/net.log") ∷ [])
    × All
        (λ c. (is_separator c ≡ true) → c ≡ 92)
        (short_log_format 92 (codes "C:/peer/")).strip_prefix
init_logging-written_example =
    init_logging-written letters 92 (codes "C:/peer/") 105 [] six_names refl six_names-stamps
