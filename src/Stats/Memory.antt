-- ===== src/Stats/Memory.antt =====
-- `memInfo`, on tables as the kernel writes them to /proc/meminfo.
pub mod Table
use native.Mathlib.Nat.{mod-eq_of_lt}
use flashaccess.Base.{
  ◌-◌, text_eq, decimal_within, find, find-put, map, append-nil, all_of_mono, ◌/◌, ◌%◌, ℕ, zero,
  suc, ◌+◌, ◌*◌, ◌≤◌, ◌<◌, Text, codes, Bool, true, false, not, ◌&&◌, ◌==◌, some, List, [], ◌∷◌,
  ◌++◌, ok, ltb, if◌then◌else◌, itoa, put, split_at_colon, trim_space, trim_left, trim_right,
  trim_suffix, is_space, is_digit, all_of, all_of-append, all_of-itoa, length, length-append, All,
  raw_lines, scan_lines, drop_return, max_line, parse_uint, parse_uint-itoa, mul64, add64, sub64,
  u64_mod, ◌≡◌, ◌≢◌, refl, ◌∙◌, ap, arith, Bool-cases, inl, inr,
}
use flashaccess.Stats.{
  available_of, MemStats, value_of, mem_info, mem_table, with_parts, mem_stats_of,
}
use flashaccess.Stats.Memory.Table.{
  Entry, IsEntry, mem_table-table_of, meminfo_text, scan_lines-meminfo_text, table_of,
}

-- the bytes that the last entry of a key tells, or `n`
abbrev pub last_bytes : Text → List Entry → ℕ → ℕ
last_bytes key [] n = n
last_bytes key (e ∷ es) n = last_bytes key es (if text_eq e.key key then e.number * 1024 else n)

value_of-put :
    (key k : Text) (n : ℕ) (kv : List (Text × ℕ))
    → value_of key (put k n kv) ≡ (if text_eq k key then n else value_of key kv)
value_of-put key k n kv = elim (Bool-cases (text_eq k key)) [
  | inl e ↦ rw find-put (rw e refl)
  | inr e ↦ rw find-put (rw e refl)
]

value_of-table_of :
    (key : Text) (es : List Entry) (kv : List (Text × ℕ))
    → value_of key (table_of es kv) ≡ last_bytes key es (value_of key kv)
value_of-table_of key [] kv = refl
value_of-table_of key (e ∷ es) kv =
    value_of-table_of key es (put e.key (e.number * 1024) kv)
    ∙ ap (last_bytes key es) (value_of-put key e.key (e.number * 1024) kv)

abbrev pub told : Text → List Entry → ℕ
told key es = last_bytes key es 0

told_of : (key : Text) (es : List Entry) → value_of key (table_of es []) ≡ told key es
unfolding find
told_of key es = value_of-table_of key es []

last_bytes_bound :
    (key : Text) (es : List Entry) (n : ℕ)
    → All IsEntry es
    → n < u64_mod
    → last_bytes key es n < u64_mod
last_bytes_bound key [] n h b = b
last_bytes_bound key (e ∷ es) n (h, hs) b =
    last_bytes_bound key es (if text_eq e.key key then e.number * 1024 else n) hs
      (ground (arith, h.2, b))

-- what is available: as it is told, or else the sum of free memory, buffers and cache
abbrev pub told_available : List Entry → ℕ
told_available es =
    if told (codes "MemAvailable") es == 0
    then told (codes "MemFree") es + told (codes "Buffers") es + told (codes "Cached") es
    else told (codes "MemAvailable") es

-- the figures that the entries tell
abbrev pub told_figures : List Entry → MemStats
told_figures es = record {
  total = told (codes "MemTotal") es;
  free = told_available es;
  used = told (codes "MemTotal") es - told_available es;
  available = told_available es;
}

available_of-told :
    (es : List Entry)
    → told_available es < u64_mod
    → available_of (table_of es []) ≡ told_available es
unfolding add64
available_of-told es h = ground (
  arith,
  told_of (codes "MemAvailable") es,
  told_of (codes "MemFree") es,
  told_of (codes "Buffers") es,
  told_of (codes "Cached") es,
)

sub64-exact : (a b : ℕ) → a < u64_mod → b ≤ a → sub64 a b ≡ a - b
unfolding sub64
sub64-exact a b h k = omega arith

mem_stats_of-told :
    (es : List Entry)
    → told (codes "MemTotal") es < u64_mod
    → told_available es ≤ told (codes "MemTotal") es
    → mem_stats_of (table_of es []) ≡ told_figures es
mem_stats_of-told es small fits =
    let total = told_of (codes "MemTotal") es in
    let available = available_of-told es (omega arith) in
    let used = sub64-exact (told (codes "MemTotal") es) (told_available es) small fits in
    rw total (rw available (rw used refl))

-- From the text that the kernel prints of a table of entries, whose numbers of bytes fit 64 bits,
-- `memInfo` takes the figures that the entries tell, the last one of each key: the total; as
-- available and as free what is told, or else the sum of free memory, buffers and cache; and as
-- used the rest of the total, where no more is available than there is.
pub mem_info-meminfo_text :
    (es : List Entry)
    → All IsEntry es
    → told_available es ≤ told (codes "MemTotal") es
    → mem_info (some (meminfo_text es)) ≡ ok (told_figures es)
unfolding mem_info
mem_info-meminfo_text es h fits =
    ap (λ ls. ok (mem_stats_of (mem_table ls []))) (scan_lines-meminfo_text es h)
    ∙ (ap (λ kv. ok (mem_stats_of kv)) (mem_table-table_of es [] h)
        ∙ ap ok
            (mem_stats_of-told es (last_bytes_bound (codes "MemTotal") es 0 h (omega arith)) fits))
