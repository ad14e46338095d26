-- ===== src/Tests/Figures.antt =====
-- The theorems on the figures of the machine, with whole numbers for floats.
use flashaccess.Base.{
  ◌≤◌, text_eq, ◌-◌, ◌*◌, ◌/◌, codes, true, false, none, some, List, [], ◌∷◌, ok, pos, itoa,
  decimal_within, trim_space, trim_left, trim_right, All, ◌≡◌, refl, arith,
}
use flashaccess.Stats.{Floats, Probe, mem_info}
use flashaccess.Stats.Shown.{Shows, fmt_bytes, fmt_bytes-Shows}
use flashaccess.Stats.Memory.{told, told_available, told_figures, mem_info-meminfo_text}
use flashaccess.Stats.Memory.Table.{Entry, IsEntry, meminfo_text}

abbrev pub whole_numbers : Floats
whole_numbers = record {
  of_uint = λ n. n;
  minus = λ a b. a - b;
  times = λ a b. a * b;
  over = λ a b. a / b;
  parse = λ s. none;
  to_duration = λ n. pos n;
}

abbrev pub no_figures : Probe
no_figures = record {
  stat = none;
  later_stat = none;
  meminfo = none;
  file_system = none;
  uptime = none;
}

abbrev entries : List Entry
entries =
    record { key = codes "MemTotal"; pad = 8; number = 16303428; has_unit = true }
    ∷ record { key = codes "MemAvailable"; pad = 3; number = 9000000; has_unit = true }
    ∷ record { key = codes "HugePages_Total"; pad = 7; number = 0; has_unit = false }
    ∷ []

entries-IsEntry : All IsEntry entries
unfolding trim_space trim_left trim_right itoa decimal_within
entries-IsEntry = (
  (refl, refl, omega arith, omega arith),
  ((refl, refl, omega arith, omega arith), ((refl, refl, omega arith, omega arith), tt)),
)

entries_fit : told_available entries ≤ told (codes "MemTotal") entries
unfolding text_eq
entries_fit = omega arith

mem_info-meminfo_text_example : mem_info (some (meminfo_text entries)) ≡ ok (told_figures entries)
mem_info-meminfo_text_example = mem_info-meminfo_text entries entries-IsEntry entries_fit

fmt_bytes-Shows_example : Shows 1048575 (fmt_bytes 1048575)
fmt_bytes-Shows_example = fmt_bytes-Shows 1048575 (omega arith)

fmt_bytes_full : fmt_bytes 1048575 ≡ codes "1024.0 KB"
unfolding fmt_bytes itoa decimal_within
fmt_bytes_full = refl

fmt_bytes_16g : fmt_bytes 16694710272 ≡ codes "15.5 GB"
unfolding fmt_bytes itoa decimal_within
fmt_bytes_16g = refl
