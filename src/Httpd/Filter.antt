-- ===== src/Httpd/Filter.antt =====
-- `ra_filter_t` of main/app_httpd.c, the average of the last frame times. The numbers are 32-bit words;
-- `sum / count` divides an `int` by a `size_t`, so as words.
pub mod Ring
pub mod Average
use esp32_mesh.Common.{
  ℕ, zero, suc, ◌+◌, ◌-◌, ◌/◌, ◌%◌, ◌^◌, Bool, true, false, List, [], ◌∷◌, Option, none, some,
  get_or, replicate, ltb, ◌==◌, if◌then◌else◌,
}
use esp32_mesh.Config.Text.{set}

abbrev pub word : ℕ
word = 2 ^ 32

-- `values` is none before it is allocated.
pub record Filter : Type 0 where
  pub size : ℕ
  pub index : ℕ
  pub count : ℕ
  pub sum : ℕ
  pub values : Option (List ℕ)

-- `ra_filter_init(filter, sample_size)`, and whether `malloc` succeeds.
unfoldable pub ra_filter_init : (allocated : Bool) → ℕ → Filter
ra_filter_init allocated sample_size =
    if allocated
    then record {
      size = sample_size;
      index = 0;
      count = 0;
      sum = 0;
      values = some (replicate sample_size 0);
    }
    else record { size = 0; index = 0; count = 0; sum = 0; values = none }

-- `ra_filter_run(filter, value)`: the result and the filter; `none` is the fault of a filter of size 0.
unfoldable pub ra_filter_run : Filter → ℕ → Option (ℕ × Filter)
ra_filter_run f value = elim f.values [
  | none ↦ some (value, f)
  | some values ↦
      let sum = ((f.sum + (word - get_or values f.index 0)) % word + value) % word in
      let count = if ltb f.count f.size then f.count + 1 else f.count in
      let next = record f {
        index = (f.index + 1) % f.size;
        count = count;
        sum = sum;
        values = some (set values f.index value);
      } in
      if f.size == 0 then none else some (sum / count, next)
]
