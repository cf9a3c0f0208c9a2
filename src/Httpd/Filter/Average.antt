-- ===== src/Httpd/Filter/Average.antt =====
-- The filter gives the average of the last values.
use mathlib.Core.Option
use esp32_mesh.Common.{
  ℕ, zero, suc, ◌+◌, ◌-◌, ◌/◌, ◌%◌, ◌<◌, ◌≡◌, refl, ap, sym, ◌∙◌, true, List, [], ◌∷◌, Option, some,
  get_or, replicate, length, take, ltb, if◌then◌else◌, arith, ne→==,
}
use mathlib.Core.Path.{ap₂}
use Prim.Native.Nat.{min}
use esp32_mesh.Config.Text.{length-set, set}
use esp32_mesh.Httpd.Filter.{Filter, ra_filter_init, ra_filter_run}
use esp32_mesh.Httpd.Filter.Ring.{
  next, next_lem, get_or-set, get_or-set_other, total, total-take, Words, Words-get_or, slot,
  slot-next, slot_first, slot_last,
}

-- The filter of `size` values after these, the last first: each stands in its place, with zeros where
-- there was none.
pub record IsFilter (size : ℕ) (past : List ℕ) (f : Filter) : Type 0 where
  pub values : List ℕ
  pub held : f.values ≡ some values
  pub sized : f.size ≡ size
  pub all_values : length values ≡ size
  pub within : f.index < size
  pub counted : f.count ≡ min (length past) size
  pub summed : f.sum ≡ total (take size past) % 4294967296
  pub ring : (age : ℕ) → age < size → get_or values (slot size f.index age) 0 ≡ get_or past age 0

-- The average of the last `size` values, with the sum as a 32-bit word.
abbrev pub average : (size : ℕ) → List ℕ → ℕ
average size past = (total (take size past) % 4294967296) / min (length past) size

wraps :
    (sum rest old value : ℕ)
    → old < 4294967296
    → sum ≡ (rest + old) % 4294967296
    → ((sum + (4294967296 - old)) % 4294967296 + value) % 4294967296 ≡ (value + rest) % 4294967296
wraps sum rest old value l e = omega arith

ring_next :
    (n index value : ℕ) (values past : List ℕ)
    → index < suc n
    → length values ≡ suc n
    → ((age : ℕ) → age < suc n → get_or values (slot (suc n) index age) 0 ≡ get_or past age 0)
    → (age : ℕ) → age < suc n
    → get_or (set values index value) (slot (suc n) (next (suc n) index) age) 0
      ≡ get_or (value ∷ past) age 0
ring_next n index value values past l all ring zero m =
    ap (λ i. get_or (set values index value) i 0) (slot_first (suc n) index l)
    ∙ get_or-set values index value (omega arith)
ring_next n index value values past l all ring (suc age) m =
    let moved = slot-next (suc n) index age l m in
    ap (λ i. get_or (set values index value) i 0) moved.0
    ∙ get_or-set_other values index (slot (suc n) index age) value moved.1
    ∙ ring age (omega arith)

initial-IsFilter : (n : ℕ) → IsFilter (suc n) [] (ra_filter_init true (suc n))
unfolding ra_filter_init
initial-IsFilter n = record {
  values = replicate (suc n) 0;
  held = refl;
  sized = refl;
  all_values = length-replicate (suc n);
  within = omega arith;
  counted = omega arith;
  summed = refl;
  ring = λ age l. zeros (suc n) (slot (suc n) 0 age);
}
  where
    length-replicate : (n : ℕ) → length {A = ℕ} (replicate n 0) ≡ n
    length-replicate zero = refl
    length-replicate (suc n) = ap suc (length-replicate n)

    zeros : (n i : ℕ) → get_or {A = ℕ} (replicate n 0) i 0 ≡ 0
    zeros zero i = refl
    zeros (suc n) zero = refl
    zeros (suc n) (suc i) = zeros n i

-- What a step makes of a filter with room.
run_of :
    (n value : ℕ) (f : Filter) (values : List ℕ)
    → f.size ≡ suc n
    → f.values ≡ some values
    → let sum =
        ((f.sum + (4294967296 - get_or values f.index 0)) % 4294967296 + value) % 4294967296 in
      let count = if ltb f.count (suc n) then f.count + 1 else f.count in
      ra_filter_run f value
      ≡ some (
        sum / count,
        record {
          size = suc n;
          index = (f.index + 1) % suc n;
          count = count;
          sum = sum;
          values = some (set values f.index value);
        },
      )
unfolding ra_filter_run
run_of n value f values sized held =
    ap (λ v. ra_filter_run (record f { values = v }) value) held
    ∙ ap (λ k. ra_filter_run (record f { size = k; values = some values }) value) sized
    ∙ (rw (ne→== (suc n) 0 (λ e. omega (arith, e))) refl)

-- A step of the filter gives the average with the new value.
ra_filter_run-IsFilter :
    (n : ℕ) (past : List ℕ) (value : ℕ) (f : Filter)
    → Words past
    → IsFilter (suc n) past f
    → (f' : Filter) × ((ra_filter_run f value ≡ some (average (suc n) (value ∷ past), f'))
        × IsFilter (suc n) (value ∷ past) f')
ra_filter_run-IsFilter n past value f words is =
    let oldest = get_or past n 0 in
    let here : get_or is.values f.index 0 ≡ oldest =
      ap (λ i. get_or is.values i 0) (sym (slot_last n f.index is.within))
      ∙ is.ring n (omega arith) in
    let summed : ((f.sum + (4294967296 - get_or is.values f.index 0)) % 4294967296 + value)
          % 4294967296
        ≡ total (take (suc n) (value ∷ past)) % 4294967296 =
      ap (λ o. ((f.sum + (4294967296 - o)) % 4294967296 + value) % 4294967296) here
      ∙ wraps f.sum (total (take n past)) oldest value (Words-get_or past n words)
          (is.summed ∙ ap (λ t. t % 4294967296) (total-take n past)) in
    let counted : (if ltb f.count (suc n) then f.count + 1 else f.count)
        ≡ min (length (value ∷ past)) (suc n) =
      ground (arith, is.counted) in
    let steps = next_lem (suc n) f.index is.within in
    (
      _,
      (
        run_of n value f is.values is.sized is.held
            ∙ ap₂
                (λ s c. some (
                  s / c,
                  record {
                    size = suc n;
                    index = (f.index + 1) % suc n;
                    count = c;
                    sum = s;
                    values = some (set is.values f.index value);
                  },
                ))
                summed counted
            ∙ ap
                (λ i. some (
                  average (suc n) (value ∷ past),
                  record {
                    size = suc n;
                    index = i;
                    count = min (length (value ∷ past)) (suc n);
                    sum = total (take (suc n) (value ∷ past)) % 4294967296;
                    values = some (set is.values f.index value);
                  },
                ))
                steps,
        record {
          values = set is.values f.index value;
          held = refl;
          sized = refl;
          all_values = length-set is.values f.index value ∙ is.all_values;
          within = ground (arith, is.within);
          counted = refl;
          summed = refl;
          ring = ring_next n f.index value is.values past is.within is.all_values is.ring;
        },
      ),
    )

-- The results of the filter for one value after the other.
unfoldable pub ra_filter_runs : Filter → List ℕ → Option (List ℕ)
ra_filter_runs f [] = some []
ra_filter_runs f (x ∷ xs) =
    Option.bind (ra_filter_run f x)
      (λ (r : ℕ × Filter). Option.map (λ results. r.0 ∷ results) (ra_filter_runs r.1 xs))

-- The averages of the last `size` values, with these before the first, the last first.
abbrev pub averages : (size : ℕ) → (past values : List ℕ) → List ℕ
averages size past [] = []
averages size past (x ∷ xs) = average size (x ∷ past) ∷ averages size (x ∷ past) xs

runs_from :
    (n : ℕ) (past xs : List ℕ) (f : Filter)
    → Words past
    → Words xs
    → IsFilter (suc n) past f
    → ra_filter_runs f xs ≡ some (averages (suc n) past xs)
unfolding ra_filter_runs Option.bind
runs_from n past [] f w v is = refl
runs_from n past (x ∷ xs) f w v is =
    let (f', (runs, is')) = ra_filter_run-IsFilter n past x f w is in
    let cons = λ (results : List ℕ). average (suc n) (x ∷ past) ∷ results in
    ap
      (λ o.
        Option.bind o
          (λ (r : ℕ × Filter). Option.map (λ results. r.0 ∷ results) (ra_filter_runs r.1 xs)))
      runs
    ∙ ap (Option.map cons) (runs_from n (x ∷ past) xs f' (v.0, w) v.1 is')

-- A filter of at least one value that could be allocated gives for each of the values that it is run
-- on, 32-bit words, the average of the last ones, as many as it has room for, or of all where there
-- are fewer, their sum taken as a 32-bit word.
pub ra_filter_runs-averages :
    (n : ℕ) (xs : List ℕ)
    → Words xs
    → ra_filter_runs (ra_filter_init true (suc n)) xs ≡ some (averages (suc n) [] xs)
ra_filter_runs-averages n xs w = runs_from n [] xs _ tt w (initial-IsFilter n)
