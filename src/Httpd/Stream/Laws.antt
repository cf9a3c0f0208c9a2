-- ===== src/Httpd/Stream/Laws.antt =====
-- The web server's pictures: what is taken from the camera is given back.
use mathlib.Core.Option
use esp32_mesh.Common.{
  ℕ, ◌+◌, ◌-◌, ◌/◌, ◌%◌, ◌≡◌, ◌≢◌, ◌⊎◌, inl, inr, refl, ap, ◌∙◌, Bool, true, false, List, [], ◌∷◌,
  ◌++◌, Option, none, some, arith, if◌then◌else◌, ne→==,
}
use esp32_mesh.Config.Text.{Bytes}
use esp32_mesh.Httpd.Filter.{Filter, ra_filter_init, ra_filter_run}
use esp32_mesh.Httpd.Stream.{
  Picture, StreamCall, taken, returned, converted, freed, StreamSeen, take_picture, send_picture,
  release, stream_calls, measure, stream_rounds,
}

abbrev pub is_taken : StreamCall → ℕ
is_taken taken = 1
is_taken _ = 0

abbrev pub is_returned : StreamCall → ℕ
is_returned returned = 1
is_returned _ = 0

abbrev pub is_converted : StreamCall → ℕ
is_converted converted = 1
is_converted _ = 0

abbrev pub is_freed : StreamCall → ℕ
is_freed freed = 1
is_freed _ = 0

-- How many of the calls these are.
abbrev pub tally : (StreamCall → ℕ) → List StreamCall → ℕ
tally f [] = 0
tally f (c ∷ cs) = f c + tally f cs

-- Each frame that the camera gave is returned, and each buffer of the encoder is freed.
abbrev pub IsBalanced : List StreamCall → Type 0
IsBalanced cs =
    (tally is_taken cs ≡ tally is_returned cs) × (tally is_converted cs ≡ tally is_freed cs)

tally-append :
    (f : StreamCall → ℕ) (xs ys : List StreamCall) → tally f (xs ++ ys) ≡ tally f xs + tally f ys
tally-append f [] ys = omega arith
tally-append f (x ∷ xs) ys = omega (arith, tally-append f xs ys)

append-IsBalanced :
    (xs ys : List StreamCall) → IsBalanced xs → IsBalanced ys → IsBalanced (xs ++ ys)
append-IsBalanced xs ys b c = (
  omega (arith, tally-append is_taken xs ys, tally-append is_returned xs ys, b.0, c.0),
  omega (arith, tally-append is_converted xs ys, tally-append is_freed xs ys, b.1, c.1),
)

-- A round gives back what it took, wherever it ends.
stream_calls-IsBalanced : (seen : StreamSeen) → IsBalanced (stream_calls seen).0
unfolding stream_calls take_picture send_picture release
stream_calls-IsBalanced seen = got seen.camera
  where
    shot :
        (bytes : Bytes) (jpeg : Bool) (encoded : Option Bytes) (part picture : Bool)
        → IsBalanced
            (stream_calls (record seen {
              camera = some (record { jpeg = jpeg; bytes = bytes });
              encoded = encoded;
              part_sent = part;
              picture_sent = picture;
            })).0
    shot bytes true encoded false picture = (refl, refl)
    shot bytes true encoded true false = (refl, refl)
    shot bytes true encoded true true = (refl, refl)
    shot bytes false none part picture = (refl, refl)
    shot bytes false (some e) false picture = (refl, refl)
    shot bytes false (some e) true false = (refl, refl)
    shot bytes false (some e) true true = (refl, refl)

    got : (camera : Option Picture) → IsBalanced (stream_calls (record seen { camera = camera })).0
    got none = (refl, refl)
    got (some p) = shot p.bytes p.jpeg seen.encoded seen.part_sent seen.picture_sent

-- A filter without values, or of a size that is not 0.
abbrev IsUsable : Filter → Type 0
IsUsable f = (f.values ≡ none) ⊎ (f.size ≢ 0)

ra_filter_run-IsUsable :
    (f : Filter) (value : ℕ)
    → IsUsable f
    → (r : ℕ × Filter) × ((ra_filter_run f value ≡ some r) × IsUsable r.1)
unfolding ra_filter_run
ra_filter_run-IsUsable f value usable = go f.values usable
  where
    go :
        (values : Option (List ℕ))
        → IsUsable (record f { values = values })
        → (r : ℕ × Filter) × ((ra_filter_run (record f { values = values }) value ≡ some r)
            × IsUsable r.1)
    go none usable = (_, (refl, inl refl))
    go (some vs) (inl e) = ground arith
    go (some vs) (inr sized) = rw (ne→== f.size 0 sized) (_, (refl, inr sized))

measure-IsUsable :
    (f : Filter) (last time : ℕ)
    → IsUsable f
    → (f' : Filter) × ((measure f last time ≡ some f') × IsUsable f')
unfolding measure
measure-IsUsable f last time usable =
    let (r, (runs, usable')) =
      ra_filter_run-IsUsable f ((time - last) / 1000 % 4294967296) usable in
    (r.1, (ap (Option.map (λ (r : ℕ × Filter). r.1)) runs, usable'))

-- What follows a round, for the rest of the rounds.
prepended :
    (calls : List StreamCall) (goes_on : Bool) (f : Filter)
    (later : Option (List StreamCall × Filter))
    → IsBalanced calls
    → ((r : List StreamCall × Filter) × ((later ≡ some r) × IsBalanced r.0))
    → (r : List StreamCall × Filter) × (((if goes_on
            then Option.map (λ (r : List StreamCall × Filter). (calls ++ r.0, r.1)) later
            else some (calls, f))
          ≡ some r)
        × IsBalanced r.0)
prepended calls false f later b ends = (_, (refl, b))
prepended calls true f later b (r, (runs, c)) = (
  (calls ++ r.0, r.1),
  (
    ap (Option.map (λ (r : List StreamCall × Filter). (calls ++ r.0, r.1))) runs,
    append-IsBalanced calls r.0 b c,
  ),
)

stream_rounds-IsUsable :
    (f : Filter) (last : ℕ) (seen : List StreamSeen)
    → IsUsable f
    → (r : List StreamCall × Filter) × ((stream_rounds f last seen ≡ some r) × IsBalanced r.0)
unfolding stream_rounds Option.bind
stream_rounds-IsUsable f last [] usable = (_, (refl, (refl, refl)))
stream_rounds-IsUsable f last (seen ∷ rest) usable =
    let (f', (measured, usable')) = measure-IsUsable f last seen.time usable in
    let (r, (runs, b)) = stream_rounds-IsUsable f' seen.time rest usable' in
    let calls = stream_calls seen in
    prepended calls.0 calls.1 f
      (Option.bind (measure f last seen.time) (λ f'. stream_rounds f' seen.time rest))
      (stream_calls-IsBalanced seen)
      (r, (ap (λ o. Option.bind o (λ f'. stream_rounds f' seen.time rest)) measured ∙ runs, b))

initial : (allocated : Bool) → IsUsable (ra_filter_init allocated 20)
unfolding ra_filter_init
initial true = inr (λ e. omega (arith, e))
initial false = inl refl

-- The stream of pictures, in any number of rounds and from any time, has no fault, and each frame that
-- the camera gave has been returned, and each buffer that the encoder gave has been freed, also
-- where a picture could not be encoded or sent.
pub stream_rounds-IsBalanced :
    (allocated : Bool) (last : ℕ) (seen : List StreamSeen)
    → (r : List StreamCall × Filter) × ((stream_rounds (ra_filter_init allocated 20) last seen
          ≡ some r)
        × IsBalanced r.0)
stream_rounds-IsBalanced allocated last seen =
    stream_rounds-IsUsable (ra_filter_init allocated 20) last seen (initial allocated)
