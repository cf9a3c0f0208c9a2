-- ===== src/Root/Ota/Download.antt =====
-- The loop of `ota_task` that reads a firmware from the server and writes it.
use mathlib.Core.Option
use esp32_mesh.Common.{
  ℕ, zero, suc, ◌+◌, ◌^◌, ◌<◌, ◌≤◌, ◌≡◌, refl, ap, ◌∙◌, inl, inr, Bool, true, false, List, [], ◌∷◌,
  none, some, arith, length, ltb, ltb→lt, lt→ltb, if◌then◌else◌, Bool-cases,
}
use esp32_mesh.Root.Ota.{OtaSeen, HttpRead, http_failed, got, take_piece, counted, download_loop}

-- The bytes in a list of pieces.
abbrev pub size_of : List (List ℕ) → ℕ
size_of [] = 0
size_of (p ∷ ps) = length p + size_of ps

-- The pieces are what the reads from this one on give, none of them empty, and all have been written.
abbrev pub AreRead : OtaSeen → (round : ℕ) → List (List ℕ) → Type 0
AreRead seen round [] = Unit {0}
AreRead seen round (p ∷ ps) =
    (seen.reads round ≡ got p)
    × (seen.writes round ≡ true)
    × (0 < length p)
    × AreRead seen (suc round) ps

-- No more pieces than it takes to have `total` bytes behind the first `recv_size`.
abbrev pub Fill : (total recv_size : ℕ) → List (List ℕ) → Type 0
Fill total recv_size [] = total ≤ recv_size
Fill total recv_size (p ∷ ps) = (recv_size < total) × Fill total (recv_size + length p) ps

-- What the loop has read when it ends, if it came to its end.
abbrev pub IsFetched : OtaSeen → (total round recv_size : ℕ) → Bool × List (List ℕ) → Type 0
IsFetched seen total round recv_size r =
    r.0 ≡ true → AreRead seen round r.1 × Fill total recv_size r.1

pub no : {A : Type 0} → false ≡ true → A
no e = ground arith

-- A read gives at most the bytes it was asked for.
abbrev pub ReadsFit : OtaSeen → Type 0
ReadsFit seen = (i : ℕ) (p : List ℕ) → seen.reads i ≡ got p → length p ≤ seen.payload_len

-- That the loop ends from this round on, with what it should have fetched.
abbrev pub Ends : OtaSeen → (total left round recv_size : ℕ) → Type 0
Ends seen total left round recv_size =
    (r : Bool × List (List ℕ)) × ((download_loop seen total left round recv_size ≡ some r)
      × IsFetched seen total round recv_size r)

take_piece-Ends :
    (seen : OtaSeen) (total left round recv_size : ℕ) (read : HttpRead) (written : Bool)
    → ReadsFit seen
    → total + seen.payload_len ≤ 2 ^ 31
    → recv_size < total
    → seen.reads round ≡ read
    → seen.writes round ≡ written
    → ((size : ℕ) → 0 < size → Ends seen total left (suc round) (recv_size + size))
    → (r : Bool × List (List ℕ)) × ((take_piece read written (λ size.
            counted recv_size size (download_loop seen total left (suc round) (recv_size + size)))
          ≡ some r)
        × IsFetched seen total round recv_size r)
take_piece-Ends seen total left round recv_size http_failed w short room more e f later =
    ((false, []), (refl, no))
take_piece-Ends seen total left round recv_size (got []) w short room more e f later =
    ((false, []), (refl, no))
take_piece-Ends seen total left round recv_size (got (c ∷ cs)) false short room more e f later =
    ((false, (c ∷ cs) ∷ []), (refl, no))
take_piece-Ends seen total left round recv_size (got (c ∷ cs)) true short room more e f later =
    let (r, (runs, fetched)) = later (length (c ∷ cs)) (omega arith) in
    let below : recv_size + length (c ∷ cs) < 2 ^ 31 =
      omega (arith, short round (c ∷ cs) e, room, more) in
    (
      (r.0, (c ∷ cs) ∷ r.1),
      (
        ap
              (λ b.
                Option.map add
                  (if b then download_loop seen total left (suc round) at_end else none))
              (lt→ltb at_end (2 ^ 31) below)
            ∙ ap (Option.map add) runs,
        λ whole. let (pieces, fill) = fetched whole in ((e, f, omega arith, pieces), (more, fill)),
      ),
    )
  where
    at_end : ℕ
    at_end = recv_size + length (c ∷ cs)

    add : Bool × List (List ℕ) → Bool × List (List ℕ)
    add r = (r.0, (c ∷ cs) ∷ r.1)

-- As many rounds as bytes are wanted are enough, where recv_size cannot overflow.
pub download_loop-Ends :
    (seen : OtaSeen) (total left round recv_size : ℕ)
    → ReadsFit seen
    → total + seen.payload_len ≤ 2 ^ 31
    → total ≤ recv_size + left
    → Ends seen total left round recv_size
unfolding download_loop
download_loop-Ends seen total zero round recv_size short room h =
    let over : ltb recv_size total ≡ false = ground arith in
    rw over ((true, []), (refl, λ e. (tt, omega arith)))
download_loop-Ends seen total (suc left) round recv_size short room h =
    elim (Bool-cases (ltb recv_size total)) [
      | inr over ↦ rw over ((true, []), (refl, λ e. (tt, ground (arith, over))))
      | inl more ↦ rw more (
          take_piece-Ends seen total left round recv_size (seen.reads round) (seen.writes round)
            short room (ltb→lt recv_size total more) refl refl
            (λ size pos.
              download_loop-Ends seen total left (suc round) (recv_size + size) short room
                (omega arith)))
    ]

-- Pieces that are all of the firmware are what the loop reads.
pub download_loop_lem :
    (seen : OtaSeen) (total left round recv_size : ℕ) (ps : List (List ℕ))
    → AreRead seen round ps
    → Fill total recv_size ps
    → ReadsFit seen
    → total + seen.payload_len ≤ 2 ^ 31
    → total ≤ recv_size + left
    → download_loop seen total left round recv_size ≡ some (true, ps)
unfolding download_loop
download_loop_lem seen total zero round recv_size [] are fill short room h = ground arith
download_loop_lem seen total (suc left) round recv_size [] are fill short room h = ground arith
download_loop_lem seen total zero round recv_size (p ∷ ps) are fill short room h =
    absurd (omega (arith, fill.0))
download_loop_lem seen total (suc left) round recv_size ([] ∷ ps) are fill short room h =
    absurd (omega (arith, are.2))
download_loop_lem seen total (suc left) round recv_size ((c ∷ cs) ∷ ps) are fill short room h =
    let later =
      download_loop_lem seen total left (suc round) (recv_size + length (c ∷ cs)) ps are.3 fill.1
        short room (omega (arith, are.2)) in
    let next = λ (size : ℕ).
      counted recv_size size (download_loop seen total left (suc round) (recv_size + size)) in
    let below : recv_size + length (c ∷ cs) < 2 ^ 31 =
      omega (arith, short round (c ∷ cs) are.0, room, fill.0) in
    ap (λ b. if b then take_piece (seen.reads round) (seen.writes round) next else some (true, []))
      (lt→ltb recv_size total fill.0)
    ∙ ap (λ rd. take_piece rd (seen.writes round) next) are.0
    ∙ ap (λ w. take_piece (got (c ∷ cs)) w next) are.1
    ∙ ap
        (λ b. Option.map add (if b then download_loop seen total left (suc round) at_end else none))
        (lt→ltb at_end (2 ^ 31) below)
    ∙ ap (Option.map add) later
  where
    at_end : ℕ
    at_end = recv_size + length (c ∷ cs)

    add : Bool × List (List ℕ) → Bool × List (List ℕ)
    add r = (r.0, (c ∷ cs) ∷ r.1)
