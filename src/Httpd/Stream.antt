-- ===== src/Httpd/Stream.antt =====
-- `capture_handler` and `stream_handler` of main/app_httpd.c: one picture, and pictures one after the
-- other. The camera's driver, its JPEG encoder and the web server are not in main/.
pub mod Laws
use mathlib.Core.Option
use esp32_mesh.Common.{
  ℕ, zero, suc, ◌+◌, ◌-◌, ◌/◌, ◌%◌, ◌^◌, Bool, true, false, not, List, [], ◌∷◌, ◌++◌, Option, none,
  some, length, ltb, if◌then◌else◌,
}
use esp32_mesh.Config.Text.{Bytes}
use esp32_mesh.Config.Items.{codes}
use esp32_mesh.Httpd.Decimal.{decimal}
use esp32_mesh.Httpd.Filter.{Filter, ra_filter_run}

-- `camera_fb_t`: whether its format is PIXFORMAT_JPEG, and the picture.
pub record Picture : Type 0 where
  pub jpeg : Bool
  pub bytes : Bytes

-- The calls: esp_camera_fb_get that gave a picture, esp_camera_fb_return, frame2jpg that gave a buffer,
-- free of it, httpd_resp_send, httpd_resp_send_chunk, and httpd_resp_send_500.
pub data StreamCall : Type 0 where
  taken returned converted freed : StreamCall
  sent chunk : Bytes → StreamCall
  failed : StreamCall

-- "Content-Type: image/jpeg\r\nContent-Length: %u\r\n\r\n"
abbrev pub stream_part : ℕ → Bytes
stream_part len =
    codes "Content-Type: image/jpeg"
    ++ (13 ∷ 10 ∷ (codes "Content-Length: " ++ (decimal len ++ 13 ∷ 10 ∷ 13 ∷ 10 ∷ [])))

-- "\r\n--" PART_BOUNDARY "\r\n"
abbrev pub stream_boundary : Bytes
stream_boundary = 13 ∷ 10 ∷ (codes "--123456789000000000000987654321" ++ 13 ∷ 10 ∷ [])

-- What the surroundings answer in one round: the camera, frame2jpg, each of the three chunks, and the
-- time in microseconds behind them.
pub record StreamSeen : Type 0 where
  pub camera : Option Picture
  pub encoded : Option Bytes
  pub part_sent : Bool
  pub picture_sent : Bool
  pub boundary_sent : Bool
  pub time : ℕ

-- What a round holds: the frame `fb`, and the picture in `_jpg_buf`.
pub record Held : Type 0 where
  pub fb : Bool
  pub jpg : Option Bytes

-- Lines 146 to 163: the calls, whether `res` is ESP_OK, and what is held.
unfoldable pub take_picture : StreamSeen → List StreamCall × Bool × Held
take_picture seen = elim seen.camera [
  | none ↦ ([], false, record { fb = false; jpg = none })
  | some p ↦
      if p.jpeg
      then (taken ∷ [], true, record { fb = true; jpg = some p.bytes })
      else elim seen.encoded [
        | none ↦ (taken ∷ returned ∷ [], false, record { fb = false; jpg = none })
        | some bytes ↦
            (taken ∷ converted ∷ returned ∷ [], true, record { fb = false; jpg = some bytes })
      ]
]

-- Lines 164 to 173.
unfoldable pub send_picture : StreamSeen → Bytes → List StreamCall × Bool
send_picture seen bytes =
    let part = chunk (stream_part (length bytes)) in
    if not seen.part_sent
    then (part ∷ [], false)
    else (if not seen.picture_sent
        then (part ∷ chunk bytes ∷ [], false)
        else (part ∷ chunk bytes ∷ chunk stream_boundary ∷ [], seen.boundary_sent))

-- Lines 174 to 181.
unfoldable pub release : Held → List StreamCall
release h = if h.fb then returned ∷ [] else elim h.jpg [ none ↦ [] | some _ ↦ freed ∷ [] ]

-- Lines 146 to 184: the calls of a round, and whether another follows.
unfoldable pub stream_calls : StreamSeen → List StreamCall × Bool
stream_calls seen =
    let (calls, fine, held) = take_picture seen in
    let bytes : Bytes = elim held.jpg [ none ↦ [] | some b ↦ b ] in
    let (chunks, all_sent) = send_picture seen bytes in
    if fine then (calls ++ (chunks ++ release held), all_sent) else (calls ++ release held, false)

-- Lines 188 to 191: the time of a frame in milliseconds, as an `int`, goes to the filter.
unfoldable pub measure : Filter → (last time : ℕ) → Option Filter
measure f last time =
    Option.map (λ (r : ℕ × Filter). r.1) (ra_filter_run f ((time - last) / 1000 % 2 ^ 32))

-- The loop of `stream_handler` from `last_frame` on, over the rounds that are seen; `none` is a fault of
-- the filter.
unfoldable pub stream_rounds :
    Filter → (last : ℕ) → List StreamSeen → Option (List StreamCall × Filter)
stream_rounds f last [] = some ([], f)
stream_rounds f last (seen ∷ rest) =
    let (calls, goes_on) = stream_calls seen in
    let later : Option (List StreamCall × Filter) =
      Option.bind (measure f last seen.time) (λ f'. stream_rounds f' seen.time rest) in
    if goes_on
    then Option.map (λ (r : List StreamCall × Filter). (calls ++ r.0, r.1)) later
    else some (calls, f)

-- `capture_handler(req)`, where `pieces` is what frame2jpg_cb hands to jpg_encode_stream, and the last
-- chunk is empty.
unfoldable pub capture_handler : Option Picture → (pieces : List Bytes) → List StreamCall
capture_handler none pieces = failed ∷ []
capture_handler (some p) pieces =
    if p.jpeg
    then taken ∷ sent p.bytes ∷ returned ∷ []
    else taken ∷ (chunks pieces ++ chunk [] ∷ returned ∷ [])
  where
    chunks : List Bytes → List StreamCall
    chunks [] = []
    chunks (b ∷ bs) = chunk b ∷ chunks bs
