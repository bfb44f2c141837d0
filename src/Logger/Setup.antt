-- ===== src/Logger/Setup.antt =====
-- The set-up of the log (client/src/logger.cpp, `initLogging`): what Quill is given. A name is given
-- to each sink and logger once, so each is made, and `create_or_get` finds none that is older.
use peer_bridge_cli.Common.{
  ℕ, ◌*◌, ◌≤◌, ◌⊎◌, length, ◌≡◌, refl, ap, Bool, true, false, Option, none, some, List, [], ◌∷◌,
  ◌++◌, Text, codes, All, ◌==◌, if◌then◌else◌, arith,
}
use peer_bridge_cli.Logger.Times.{CTime, date_format, string_to_time, time_to_string}
use peer_bridge_cli.Logger.Sweep.{IsStamp, directory, initialize_log_directory-length}
use peer_bridge_cli.Logger.Limiter.{Doubles, TrafficLogLimiter, network_traffic_log}
use peer_bridge_cli.Logger.{
  LogFolder, is_separator, cmake_moment, contains, initialize_log_directory,
}

pub data LogLevel : Type 0 where
  warning error critical : LogLevel

-- The colours that are assigned over Quill's own, and whether they are always used.
pub record ConsoleSinkConfig : Type 0 where
  pub colours : List (LogLevel × Text)
  pub always : Bool

-- The escape sequences of a dim colour.
abbrev pub dim : Text → Text
dim colour = (27 ∷ codes "[2m") ++ (27 ∷ colour)

abbrev pub dim_console_colours : ConsoleSinkConfig
dim_console_colours = record {
  colours =
      (LogLevel.warning, dim (codes "[33m"))
      ∷ (LogLevel.error, dim (codes "[31m"))
      ∷ (LogLevel.critical, dim (codes "[31m"))
      ∷ [];
  always = true;
}

pub data Sink : Type 0 where
  console_sink : ConsoleSinkConfig → Sink
  -- A file that is opened anew, and one that is rotated at a size, by date and time.
  file_sink : Text → Sink
  rotating_file_sink : Text → ℕ → Sink

pub record PatternFormatterOptions : Type 0 where
  pub pattern : Text
  pub strip_prefix : Text

pub record QuillLogger : Type 0 where
  pub name : Text
  pub sinks : List Sink
  pub format : PatternFormatterOptions

-- The two loggers, null pointers before the set-up, and Quill's thread by its sleep in
-- milliseconds.
pub record Logging : Type 0 where
  pub sys_log_object : Option QuillLogger
  pub net_log_object : Option QuillLogger
  pub backend : Option ℕ

abbrev pub unset : Logging
unset = record { sys_log_object = none; net_log_object = none; backend = none }

-- The options, made of the folder of the sources.
unfoldable pub short_log_format : ℕ → Text → PatternFormatterOptions
short_log_format preferred source_root_dir = record {
  pattern = codes "%(time) [%(thread_id)] %(source_location) %(log_level) %(message)";
  strip_prefix = cmake_moment preferred source_root_dir;
}

-- The two loggers; making the options prints the prefix, once for each.
unfoldable pub loggers : ℕ → Text → Text → LogFolder → LogFolder × Logging
loggers preferred source_root_dir logs_path f =
    let format = short_log_format preferred source_root_dir in
    (
      record f { lines = f.lines ++ format.strip_prefix ∷ format.strip_prefix ∷ [] },
      record {
        sys_log_object = some (record {
          name = codes "app";
          sinks = console_sink dim_console_colours ∷ file_sink (logs_path ++ codes "/app.log") ∷ [];
          format = format;
        });
        net_log_object = some (record {
          name = codes "net";
          sinks = rotating_file_sink (logs_path ++ codes "/net.log") (5 * 1024 * 1024) ∷ [];
          format = format;
        });
        backend = some 1;
      },
    )

module _ {Tm : Type 0} (c : CTime Tm) (separator : ℕ) (source_root_dir : Text) where
  unfoldable pub init_logging : ℕ → Bool → Bool → Bool → LogFolder → Option (LogFolder × Logging)
  init_logging now lists removes creates f =
      elim (initialize_log_directory (string_to_time c date_format) (time_to_string c date_format)
        separator now lists removes creates f) [
          | none ↦ none
          | some (g, logs_path) ↦ some (loggers separator source_root_dir logs_path g)
        ]

unfoldable pub sys_logger : Logging → Option QuillLogger
sys_logger l = l.sys_log_object

unfoldable pub net_logger : Logging → Option QuillLogger
net_logger l = l.net_log_object

-- `shouldLogNetTraffic` is static in a header: each translation unit has its own, and the function
-- sets that of one. The line that warns of a slower connection is left out.
unfoldable pub set_should_log_traffic : ℕ → Bool → (ℕ → Bool) → ℕ → Bool
set_should_log_traffic unit should_log flags u = if unit == u then should_log else flags u

-- The files that the sinks of a logger open when they are made. The rotating sink goes on to others
-- when its file is full.
abbrev pub opened_files : List Sink → List Text
opened_files [] = []
opened_files (console_sink cfg ∷ sinks) = opened_files sinks
opened_files (file_sink path ∷ sinks) = path ∷ opened_files sinks
opened_files (rotating_file_sink path size ∷ sinks) = path ∷ opened_files sinks

abbrev pub logger_files : Option QuillLogger → List Text
logger_files none = []
logger_files (some l) = opened_files l.sinks

-- No separator is left but the preferred one.
cmake_moment-preferred :
    (preferred : ℕ) (path : Text)
    → All (λ c. (is_separator c ≡ true) → c ≡ preferred) (cmake_moment preferred path)
unfolding cmake_moment
cmake_moment-preferred preferred [] = tt
cmake_moment-preferred preferred (c ∷ path) =
    (λ h. ground arith, cmake_moment-preferred preferred path)

module _ {Tm : Type 0} (c : CTime Tm) (separator : ℕ) (source_root_dir : Text) where
  -- If in the folder of the logs every name is without a separator and is what the program prints
  -- for the time that it reads from it, and the file system lets the program list the folder,
  -- remove an entry and make a directory, then the set-up of the log comes to a result: the
  -- directory of this start is in the folder, with six entries at most or no more than there were;
  -- of the files that the sinks open when they are made, the first logger has app.log and the
  -- second net.log in that directory, and no other; and the prefix that the format strips has no
  -- separator but the preferred one, which is a slash or a backslash.
  pub init_logging-written :
      (now : ℕ) (lines names : List Text)
      → is_separator separator ≡ true
      → All (IsStamp (string_to_time c date_format) (time_to_string c date_format) separator) names
      → let dir =
          directory (string_to_time c date_format) (time_to_string c date_format) separator now in
        (g : LogFolder) × (l : Logging) × (kept : List Text) × (init_logging c separator
            source_root_dir now true true true
            (record { logs = some names; lines = lines })
          ≡ some (g, l))
        × (g.logs ≡ some kept)
        × (contains (time_to_string c date_format now) kept ≡ true)
        × ((length kept ≤ 6) ⊎ (length kept ≤ length names))
        × (logger_files (sys_logger l) ≡ (dir ++ codes "/app.log") ∷ [])
        × (logger_files (net_logger l) ≡ (dir ++ codes "/net.log") ∷ [])
        × All
            (λ c. (is_separator c ≡ true) → c ≡ separator)
            (short_log_format separator source_root_dir).strip_prefix
  unfolding init_logging loggers sys_logger net_logger short_log_format
  init_logging-written now lines names sep stamps =
      let (g, path, kept, r, dir, there, holds, few) =
        initialize_log_directory-length (string_to_time c date_format)
          (time_to_string c date_format) separator now lines names sep stamps in
      let (f, made) = loggers separator source_root_dir path g in
      (
        f,
        made,
        kept,
        rw (r, init_logging) refl,
        there,
        holds,
        few,
        ap (λ p. (p ++ codes "/app.log") ∷ []) dir,
        ap (λ p. (p ++ codes "/net.log") ∷ []) dir,
        cmake_moment-preferred separator source_root_dir,
      )

-- The flag of one translation unit does not let another write.
traffic-unlogged :
    {D : Type 0} (d : Doubles D) (unit other now : ℕ) (flags : ℕ → Bool) (l : TrafficLogLimiter D)
    → (unit == other) ≡ false
    → flags other ≡ false
    → network_traffic_log d (set_should_log_traffic unit true flags other) now l ≡ (l, false)
unfolding network_traffic_log set_should_log_traffic
traffic-unlogged d unit other now flags l apart off = simp (apart, off)
