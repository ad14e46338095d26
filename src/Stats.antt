-- ===== src/Stats.antt =====
-- internal/stats/stats.go: the figures of the machine. What the kernel answers is an input, read by
-- read; a read that breaks off counts as the end of the file, since the scanner's error is not
-- asked for. A float64 is the number of its 64 bits, and its arithmetic is a parameter, as is the
-- parser of floats.
pub mod Shown
pub mod Memory
use flashaccess.Base.{
  ℕ, zero, suc, ◌+◌, ◌*◌, ◌%◌, ◌==◌, Text, codes, Option, none, some, List, [], ◌∷◌, ◌++◌, Result,
  ok, err, if◌then◌else◌, ℤ, pos, find, put, fields, has_prefix, trim_space, trim_suffix,
  split_at_colon, scan_lines, parse_uint, u64_mod, add64, mul64, sub64, map, drop,
}

-- `a - b`, `a * b` and `a / b` of float64, its conversions, `strconv.ParseFloat`, and
-- `time.Duration(f)`
pub record Floats : Type 0 where
  pub of_uint : ℕ → ℕ
  pub minus : ℕ → ℕ → ℕ
  pub times : ℕ → ℕ → ℕ
  pub over : ℕ → ℕ → ℕ
  pub parse : Text → Option ℕ
  pub to_duration : ℕ → ℤ

-- what `syscall.Statfs` tells of a file system
pub record Statfs : Type 0 where
  pub blocks : ℕ
  pub blocks_free : ℕ
  pub blocks_available : ℕ
  pub block_size : ℕ

-- the files of /proc and the file system, as they are read one after the other; none where the
-- read fails
pub record Probe : Type 0 where
  pub stat : Option Text
  pub later_stat : Option Text
  pub meminfo : Option Text
  pub file_system : Option Statfs
  pub uptime : Option Text

pub data StatsError : Type 0 where
  unreadable no_cpu_line mem_failed disk_failed empty_uptime bad_uptime : StatsError

-- `Snapshot`
pub record Snapshot : Type 0 where
  pub cpu : ℕ
  pub mem_total : ℕ
  pub mem_used : ℕ
  pub mem_free : ℕ
  pub mem_percent : ℕ
  pub disk_total : ℕ
  pub disk_used : ℕ
  pub disk_free : ℕ
  pub disk_percent : ℕ
  pub uptime : ℤ

-- `cpuStat`, `memStats` and `diskStats`
pub record CpuStat : Type 0 where
  pub total : ℕ
  pub idle : ℕ

pub record MemStats : Type 0 where
  pub total : ℕ
  pub free : ℕ
  pub used : ℕ
  pub available : ℕ

pub record DiskStats : Type 0 where
  pub total : ℕ
  pub used : ℕ
  pub free : ℕ

-- a value of the array `vals`, zero where the line had no field for it
abbrev nth : ℕ → List ℕ → ℕ
nth i [] = 0
nth zero (v ∷ vs) = v
nth (suc i) (v ∷ vs) = nth i vs

abbrev sum_of_first : ℕ → List ℕ → ℕ
sum_of_first zero vs = 0
sum_of_first (suc n) [] = 0
sum_of_first (suc n) (v ∷ vs) = v + sum_of_first n vs

abbrev cpu_stat_of : List ℕ → CpuStat
cpu_stat_of vals = record {
  total = sum_of_first 8 vals % u64_mod;
  idle = add64 (nth 3 vals) (nth 4 vals);
}

-- the loop over the lines of /proc/stat
unfoldable pub find_cpu : List Text → Result StatsError CpuStat
find_cpu [] = err no_cpu_line
find_cpu (l ∷ ls) =
    let rest = find_cpu ls in
    if has_prefix l (codes "cpu ")
    then ok (cpu_stat_of (map parse_uint (drop 1 (fields l))))
    else rest

-- `readCPUStat`
unfoldable pub read_cpu_stat : Option Text → Result StatsError CpuStat
read_cpu_stat none = err unreadable
read_cpu_stat (some content) = find_cpu (scan_lines content)

module _ (fl : Floats) where
  abbrev percent_used : CpuStat → CpuStat → ℕ
  percent_used s1 s2 =
      let total = sub64 s2.total s1.total in
      let idle = sub64 s2.idle s1.idle in
      if total == 0
      then fl.of_uint 0
      else fl.times (fl.minus (fl.of_uint 1) (fl.over (fl.of_uint idle) (fl.of_uint total)))
          (fl.of_uint 100)

  abbrev both_read : Result StatsError CpuStat → Result StatsError CpuStat → Result StatsError ℕ
  both_read (err e) s2 = err e
  both_read (ok s1) (err e) = err e
  both_read (ok s1) (ok s2) = ok (percent_used s1 s2)

  -- `cpuPercent`
  unfoldable pub cpu_percent : Probe → Result StatsError ℕ
  cpu_percent p = both_read (read_cpu_stat p.stat) (read_cpu_stat p.later_stat)

-- a line of /proc/meminfo, put into the map
abbrev pub with_parts : Option (Text × Text) → List (Text × ℕ) → List (Text × ℕ)
with_parts none kv = kv
with_parts (some (key, val)) kv =
    put (trim_space key) (mul64 (parse_uint (trim_suffix (trim_space val) (codes " kB"))) 1024) kv

unfoldable pub mem_table : List Text → List (Text × ℕ) → List (Text × ℕ)
mem_table [] kv = kv
mem_table (l ∷ ls) kv = mem_table ls (with_parts (split_at_colon l) kv)

-- `kv[key]`
abbrev pub or_zero : Option ℕ → ℕ
or_zero none = 0
or_zero (some n) = n

abbrev pub value_of : Text → List (Text × ℕ) → ℕ
value_of key kv = or_zero (find key kv)

abbrev pub available_of : List (Text × ℕ) → ℕ
available_of kv =
    let told = value_of (codes "MemAvailable") kv in
    if told == 0
    then add64 (add64 (value_of (codes "MemFree") kv) (value_of (codes "Buffers") kv))
        (value_of (codes "Cached") kv)
    else told

abbrev pub mem_stats_of : List (Text × ℕ) → MemStats
mem_stats_of kv =
    let total = value_of (codes "MemTotal") kv in
    let available = available_of kv in
    record { total = total; free = available; used = sub64 total available; available = available }

-- `memInfo`
unfoldable pub mem_info : Option Text → Result StatsError MemStats
unfolding mem_table
mem_info none = err unreadable
mem_info (some content) = ok (mem_stats_of (mem_table (scan_lines content) []))

-- `diskInfo`
unfoldable pub disk_info : Option Statfs → Result StatsError DiskStats
disk_info none = err unreadable
disk_info (some st) =
    let total = mul64 st.blocks st.block_size in
    ok (record {
      total = total;
      used = sub64 total (mul64 st.blocks_free st.block_size);
      free = mul64 st.blocks_available st.block_size;
    })

module _ (fl : Floats) where
  abbrev seconds_read : Option ℕ → Result StatsError ℤ
  seconds_read none = err bad_uptime
  seconds_read (some sec) = ok (fl.to_duration (fl.times sec (fl.of_uint 1000000000)))

  abbrev first_field : List Text → Result StatsError ℤ
  first_field [] = err empty_uptime
  first_field (f ∷ _) = seconds_read (fl.parse f)

  -- `readUptime`
  unfoldable pub read_uptime : Option Text → Result StatsError ℤ
  read_uptime none = err unreadable
  read_uptime (some content) = first_field (fields content)

  -- `pct`
  unfoldable pub pct : ℕ → ℕ → ℕ
  pct used total =
      if total == 0
      then fl.of_uint 0
      else fl.times (fl.over (fl.of_uint used) (fl.of_uint total)) (fl.of_uint 100)

  abbrev or_value : {A : Type 0} → A → Result StatsError A → A
  or_value a (ok x) = x
  or_value a (err e) = a

  abbrev snapshot_of :
      Probe → Result StatsError MemStats → Result StatsError DiskStats → Result StatsError Snapshot
  snapshot_of p (err e) disk = err mem_failed
  snapshot_of p (ok mem) (err e) = err disk_failed
  snapshot_of p (ok mem) (ok disk) = ok (record {
    cpu = or_value (fl.of_uint 0) (cpu_percent fl p);
    mem_total = mem.total;
    mem_used = mem.used;
    mem_free = mem.free;
    mem_percent = pct mem.used mem.total;
    disk_total = disk.total;
    disk_used = disk.used;
    disk_free = disk.free;
    disk_percent = pct disk.used disk.total;
    uptime = or_value (pos 0) (read_uptime p.uptime);
  })

  -- `Collect`
  unfoldable pub collect : Probe → Result StatsError Snapshot
  collect p = snapshot_of p (mem_info p.meminfo) (disk_info p.file_system)
