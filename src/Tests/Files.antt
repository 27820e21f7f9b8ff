-- ===== src/Tests/Files.antt =====
-- The theorems on whole files at concrete ones.
use firebase_telemetry_persi.Tests.Data.{cleared}
use firebase_telemetry_persi.Tests.Calls.{two}
use firebase_telemetry_persi.Common.{
  inl, ℕ, ◌+◌, ◌*◌, ◌≤◌, ◌<◌, ◌≡◌, ◌⊎◌, refl, inr, true, false, some, none, ok, [], ◌∷◌, arith,
}
use firebase_telemetry_persi.Common.Interrupts.{torn}
use firebase_telemetry_persi.Layout.{
  small, value_of, Header, MarkedSpan, MemoryLayout, layout_of, get_memory_layout_size,
}
use firebase_telemetry_persi.RawSpanData.{slot?, write, set_mark, remove_writes}
use firebase_telemetry_persi.RawSpanData.Valid.{slot_total}
use firebase_telemetry_persi.RawSpanData.Recoverable.{recoverable}
use firebase_telemetry_persi.RawSpanData.CrashRemove.{Removal, remove-Crash}
use firebase_telemetry_persi.Entry.{Entry, Tag, tag_value, empty, read_entry, read_entry_heals}
use firebase_telemetry_persi.Context.{Context}
use firebase_telemetry_persi.Initialize.{
  prepare, try_recovery, remake, remake_unless, System, Contents, opens, closes, get_page_size,
  get_aligned_size, initialize_span_data,
}
use firebase_telemetry_persi.Initialize.Sizes.{get_aligned_size_lem}
use firebase_telemetry_persi.Initialize.Prepared.{Succeeds}

abbrev last_of_two : (s : MarkedSpan) × (slot? two.store.layout 1 ≡ some s)
last_of_two = slot_total two.store.layout 1 two.valid.layout (omega arith)

-- A crash right after the first store of `remove`.
abbrev half_removed : MemoryLayout
half_removed = write (set_mark 0 0) two.store.layout

remove-Crash_example :
    Removal (recoverable two.store.layout) 0 1 last_of_two.0.span (recoverable half_removed)
unfolding remove_writes
remove-Crash_example =
    remove-Crash two.store.layout half_removed 0 1 last_of_two.0 two.valid.layout (omega arith)
      two.count last_of_two.1 (torn (inr refl))

get_aligned_size_lem_example :
    ((k : ℕ) × (get_aligned_size 32 (some 16384) 1 ≡ k * get_page_size (some 16384)))
    × (get_memory_layout_size 1 ≤ get_aligned_size 32 (some 16384) 1)
    × (get_aligned_size 32 (some 16384) 1 < get_memory_layout_size 1 + get_page_size (some 16384))
unfolding get_page_size
get_aligned_size_lem_example = get_aligned_size_lem 32 (some 16384) 1 (inl refl) (omega arith)

abbrev unknown_entry : Entry
unknown_entry = record { tag = 7; size = 64 }

read_entry_heals_example :
    (entry' : Entry) × (read_entry (some unknown_entry) ≡ some entry')
    × ((t : Tag) × (entry'.tag ≡ tag_value t))
    × (entry'.size ≡ 64)
    × ((entry'.tag ≡ 7) ⊎ ((2 < 7) × (entry'.tag ≡ tag_value empty)))
    × (read_entry (some entry') ≡ some entry')
read_entry_heals_example = read_entry_heals unknown_entry

-- A file with two spans, and one whose header counts 129.
abbrev two_spans : Contents
two_spans = record {
  header = record (two.store.layout.header) { signature = 1213416003; version = 2 };
  spans_as = λ _. two.store.layout.marked_spans;
}

abbrev miscounted : Contents
miscounted = record {
  header = record { signature = 1213416003; version = 2; mmap_size = 0; active_span_count = 129 };
  spans_as = λ _. cleared.layout.marked_spans;
}

abbrev pub system : Contents → System
system old = record {
  size_bits = 64;
  fd = some 3;
  st_size = some 413696;
  sysconf = some 4096;
  mapped = some old;
  truncated = true;
  remapped = some old;
}

pub system-Succeeds : (old : Contents) → Succeeds (system old) 3 413696 old old
unfolding get_page_size
system-Succeeds old = record {
  opened = refl;
  sized = refl;
  mapped = refl;
  truncated = refl;
  remapped = refl;
  wide = inr refl;
  paged = omega arith;
}

pub small_size : get_memory_layout_size (value_of small) ≤ 413696
unfolding get_memory_layout_size layout_of
small_size = omega arith

pub page_size : get_page_size (some 4096) ≤ 413696
unfolding get_page_size
page_size = omega arith

-- A new file, for which `ftruncate` fails.
abbrev no_space : System
no_space = record {
  size_bits = 64;
  fd = some 3;
  st_size = some 0;
  sysconf = none;
  mapped = none;
  truncated = false;
  remapped = none;
}

no_space_fails : initialize_span_data no_space 0 ≡ ok (opens 3 ∷ closes 3 ∷ [], none)
unfolding initialize_span_data prepare try_recovery remake_unless remake get_page_size
no_space_fails = refl
