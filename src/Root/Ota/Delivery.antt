-- ===== src/Root/Ota/Delivery.antt =====
-- When a firmware that the root fetches is handed to the devices, and what it reports.
use mathlib.Core.Option
use esp32_mesh.Common.{
  ℕ, zero, suc, ◌+◌, ◌^◌, ◌<◌, ◌≤◌, ◌≡◌, refl, sym, ap, ◌∙◌, ◌⊎◌, inl, inr, Bool, true, false, List,
  [], ◌∷◌, ◌++◌, map, ◌==◌, not, Option, none, some, arith, ne→==, if◌then◌else◌, Bool-cases,
}
use mathlib.Core.Path.{subst}
use esp32_mesh.Common.Memory.{Store}
use esp32_mesh.DevList.{Mac}
use esp32_mesh.Root.Ota.Download.{AreRead, Fill, ReadsFit, download_loop-Ends, download_loop_lem}
use esp32_mesh.Root.Ota.{
  OtaSeen, content, OtaCall, init, download, distribute, UpgradeResult, open_loop, download_loop,
  no_result, into_data, fetch_and_send, ota_update, ota_task, dest_addrs, total_size, ota_report,
  report,
}

-- What the root does for an update, where it fetches `total` bytes for these devices: it writes pieces
-- in the order in which they are read, and hands the firmware out only if they are no fewer bytes.
abbrev pub IsUpdate : OtaSeen → (total : ℕ) → List Mac → List OtaCall × UpgradeResult → Type 0
IsUpdate seen total dests u =
    (u ≡ ([], no_result))
    ⊎ ((ps : List (List ℕ)) × ((u ≡ (init total ∷ map download ps, no_result))
          ⊎ (AreRead seen 0 ps
              × Fill total 0 ps
              × (u ≡ (init total ∷ (map download ps ++ distribute dests ∷ []), seen.result)))))

fetch_and_send-IsUpdate :
    (seen : OtaSeen) (total : ℕ) (dests : List Mac)
    → seen.data_held ≡ true
    → ReadsFit seen
    → total + seen.payload_len ≤ 2 ^ 31
    → (u : List OtaCall × UpgradeResult) × ((fetch_and_send seen total dests ≡ some u)
        × IsUpdate seen total dests u)
unfolding download_loop
fetch_and_send-IsUpdate seen total dests held short room =
    let (r, (runs, fetched)) = download_loop-Ends seen total total 0 0 short room (omega arith) in
    elim (Bool-cases seen.init_ok) [
      | inr bad ↦ rw bad (_, (refl, inr ([], inl refl)))
      | inl fine ↦ elim (Bool-cases r.0) [
        | inr stopped ↦ rw (fine, held, runs, stopped) (_, (refl, inr (r.1, inl refl)))
        | inl whole ↦
            let (pieces, fill) = fetched whole in
            rw (fine, held, runs, whole) (_, (refl, inr (r.1, inr (pieces, fill, refl))))
      ]
    ]

-- The update, from what its first three steps give.
abbrev stages :
    (client : Bool)
    → (opened : Option ℕ) → (empty : Bool) → (of_nothing : Option (List OtaCall × UpgradeResult))
    → Option (List OtaCall × UpgradeResult)
    → Option (List OtaCall × UpgradeResult)
stages client opened empty of_nothing fetched =
    if not client then some ([], no_result) else elim opened [
      | none ↦ some ([], no_result)
      | some tries ↦
          if tries == 20 then some ([], no_result) else (if empty then of_nothing else fetched)
    ]

ota_update-stages :
    (seen : OtaSeen) (dests : List Mac)
    → ota_update seen dests
      ≡ stages seen.client
          (open_loop seen 20 0)
          (total_size seen.headers == 0)
          (into_data seen (some ([], no_result)))
          (fetch_and_send seen (total_size seen.headers) dests)
unfolding ota_update
ota_update-stages seen dests = refl

stages-IsUpdate :
    (seen : OtaSeen) (total : ℕ) (dests : List Mac) (client : Bool) (opened : Option ℕ)
    (empty : Bool)
    → (fetched : Option (List OtaCall × UpgradeResult))
    → ((u : List OtaCall × UpgradeResult) × ((fetched ≡ some u) × IsUpdate seen total dests u))
    → (u : List OtaCall × UpgradeResult) × ((stages client opened empty
            (some ([], no_result))
            fetched
          ≡ some u)
        × IsUpdate seen total dests u)
stages-IsUpdate seen total dests false opened empty fetched f = (([], no_result), (refl, inl refl))
stages-IsUpdate seen total dests true none empty fetched f = (([], no_result), (refl, inl refl))
stages-IsUpdate seen total dests true (some tries) true fetched f =
    elim (Bool-cases (tries == 20)) [
      | inl last ↦ rw last (([], no_result), (refl, inl refl))
      | inr before ↦ rw before (([], no_result), (refl, inl refl))
    ]
stages-IsUpdate seen total dests true (some tries) false fetched f =
    elim (Bool-cases (tries == 20)) [
      | inl last ↦ rw last (([], no_result), (refl, inl refl))
      | inr before ↦ rw before f
    ]

ota_update-IsUpdate :
    (seen : OtaSeen) (dests : List Mac)
    → seen.data_held ≡ true
    → ReadsFit seen
    → total_size seen.headers + seen.payload_len ≤ 2 ^ 31
    → (u : List OtaCall × UpgradeResult) × ((ota_update seen dests ≡ some u)
        × IsUpdate seen (total_size seen.headers) dests u)
ota_update-IsUpdate seen dests held short room =
    let total = total_size seen.headers in
    let fetched = fetch_and_send seen total dests in
    let (u, (runs, what)) =
      stages-IsUpdate seen total dests seen.client (open_loop seen 20 0) (total == 0) fetched
        (fetch_and_send-IsUpdate seen total dests held short room) in
    (
      u,
      (
        ota_update-stages seen dests
            ∙ ap
                (λ b.
                  stages seen.client (open_loop seen 20 0) (total == 0)
                    (if b then some ([], no_result) else none) fetched)
                held
            ∙ runs,
        what,
      ),
    )

-- The calls of the task, behind which it reports the result that they leave.
abbrev pub reported : OtaSeen → Store → List OtaCall × UpgradeResult → List OtaCall
reported seen block u = u.0 ++ report (ota_report block seen.self_mac u.1) ∷ []

ota_task_reports :
    (seen : OtaSeen) (block : Store) (dest_data : List ℕ) (dests : List Mac)
    (u : List OtaCall × UpgradeResult)
    → seen.block ≡ some block
    → dest_addrs dest_data ≡ some dests
    → ota_update seen dests ≡ some u
    → ota_task seen dest_data ≡ some (reported seen block u)
unfolding ota_task Option.bind
ota_task_reports seen block dest_data dests u mem known runs =
    let report_it =
      λ (u : List OtaCall × UpgradeResult). Option.map (λ b. reported seen b u) seen.block in
    ap (λ o. Option.bind o (λ ds. Option.bind (ota_update seen ds) report_it)) known
    ∙ ap (λ o. Option.bind o report_it) runs
    ∙ ap (Option.map (λ b. reported seen b u)) mem

-- With devices that dest_data holds, memory for its two blocks, a server that gives a size `n`, which it
-- can count in 32 bits, and no more bytes in a read than it is asked for, the update task comes to its end
-- and reports. It hands a firmware to the devices at most once, before the report, and only if the
-- upgrade was begun with the size that the server gave, every piece it wrote was read and written in
-- this order, and the pieces have at least that size, and less without the last; else it reports no
-- device.
pub ota_task-IsUpdate :
    (seen : OtaSeen) (block : Store) (n : ℕ) (dest_data : List ℕ) (dests : List Mac)
    → seen.data_held ≡ true
    → seen.block ≡ some block
    → seen.headers ≡ content n
    → n + seen.payload_len ≤ 2 ^ 31
    → ReadsFit seen
    → dest_addrs dest_data ≡ some dests
    → (u : List OtaCall × UpgradeResult) × ((ota_task seen dest_data ≡ some (reported seen block u))
        × IsUpdate seen n dests u)
ota_task-IsUpdate seen block n dest_data dests held mem told room short known =
    let size : total_size seen.headers ≡ n = ap total_size told in
    let (u, (runs, what)) =
      ota_update-IsUpdate seen dests held short
        (subst (λ k. k + seen.payload_len ≤ 2 ^ 31) (sym size) room) in
    (
      u,
      (
        ota_task_reports seen block dest_data dests u mem known runs,
        subst (λ k. IsUpdate seen k dests u) size what,
      ),
    )

-- The loop connects at the k-th try where the root fails before it.
open_loop_lem :
    (seen : OtaSeen) (left tries k : ℕ)
    → k < left
    → ((i : ℕ) → i < tries + k → (seen.opens i ≡ false) × (seen.is_root i ≡ true))
    → seen.opens (tries + k) ≡ true
    → open_loop seen left tries ≡ some (suc (tries + k))
unfolding open_loop
open_loop_lem seen zero tries k l fails opened = absurd (omega arith)
open_loop_lem seen (suc left) tries zero l fails opened =
    ap (λ b. if b then some (suc tries) else again) (ap seen.opens (omega arith) ∙ opened)
    ∙ ap (λ n. some (suc n)) (omega arith)
  where
    again : Option ℕ
    again = if seen.is_root tries then open_loop seen left (suc tries) else none
open_loop_lem seen (suc left) tries (suc k) l fails opened =
    let failed = fails tries (omega arith) in
    let later =
      open_loop_lem seen left (suc tries) k (omega arith) (λ i l. fails i (omega arith))
        (ap seen.opens (omega arith) ∙ opened) in
    ap (λ b. if b then some (suc tries) else again) failed.0
    ∙ ap (λ b. if b then open_loop seen left (suc tries) else none) failed.1
    ∙ later
    ∙ ap (λ n. some (suc n)) (omega arith)
  where
    again : Option ℕ
    again = if seen.is_root tries then open_loop seen left (suc tries) else none

-- A root with a connection at its k-th try and none before.
abbrev pub ConnectsAt : OtaSeen → (k : ℕ) → Type 0
ConnectsAt seen k =
    (seen.client ≡ true)
    × ((i : ℕ) → i < k → (seen.opens i ≡ false) × (seen.is_root i ≡ true))
    × (seen.opens k ≡ true)

connected :
    (seen : OtaSeen) (k : ℕ) → k < 20 → ConnectsAt seen k → open_loop seen 20 0 ≡ some (suc k)
connected seen k l at_k =
    open_loop_lem seen 20 0 k l (λ i m. at_k.1 i (omega arith))
      (ap seen.opens (omega arith) ∙ at_k.2)
    ∙ ap (λ n. some (suc n)) (omega arith)

some_tries :
    (tries n : ℕ) (of_nothing fetched : Option (List OtaCall × UpgradeResult))
    → tries < 20
    → 0 < n
    → stages true (some tries) (n == 0) of_nothing fetched ≡ fetched
some_tries tries n of_nothing fetched early pos =
    rw (ne→== tries 20 (omega arith), ne→== n 0 (omega arith)) refl

fetches :
    (seen : OtaSeen) (n : ℕ) (dests : List Mac) (ps : List (List ℕ))
    → seen.init_ok ≡ true
    → seen.data_held ≡ true
    → AreRead seen 0 ps
    → Fill n 0 ps
    → ReadsFit seen
    → n + seen.payload_len ≤ 2 ^ 31
    → fetch_and_send seen n dests
      ≡ some (init n ∷ (map download ps ++ distribute dests ∷ []), seen.result)
fetches seen n dests ps begun held are fill short room =
    ap
      (λ b.
        if not b
        then some (init n ∷ [], no_result)
        else into_data seen (Option.map sent (download_loop seen n n 0 0)))
      begun
    ∙ ap (λ b. if b then Option.map sent (download_loop seen n n 0 0) else none) held
    ∙ ap (Option.map sent) (download_loop_lem seen n n 0 0 ps are fill short room (omega arith))
  where
    sent : Bool × List (List ℕ) → List OtaCall × UpgradeResult
    sent r =
        if r.0
        then (init n ∷ (map download r.1 ++ distribute dests ∷ []), seen.result)
        else (init n ∷ map download r.1, no_result)

-- A root with memory for its two blocks that is connected to the server at one of its first 19 tries, and
-- told a size that is not 0, which it can count and begin the upgrade with, and which the pieces that it
-- reads and can write reach, hands the firmware to the devices after these pieces, and reports the
-- result for them.
pub ota_task-delivers :
    (seen : OtaSeen) (block : Store) (dest_data : List ℕ) (dests : List Mac) (k n : ℕ)
    (ps : List (List ℕ))
    → seen.data_held ≡ true
    → seen.block ≡ some block
    → dest_addrs dest_data ≡ some dests
    → k < 19
    → ConnectsAt seen k
    → seen.headers ≡ content n
    → 0 < n
    → seen.init_ok ≡ true
    → AreRead seen 0 ps
    → Fill n 0 ps
    → ReadsFit seen
    → n + seen.payload_len ≤ 2 ^ 31
    → ota_task seen dest_data
      ≡ some
          (reported seen block (init n ∷ (map download ps ++ distribute dests ∷ []), seen.result))
ota_task-delivers seen block dest_data dests k n ps held mem known l at_k told pos begun are fill
      short room =
    ota_task_reports seen block dest_data dests _ mem known (
      ota_update-stages seen dests
      ∙ ap
          (λ b. stages b (open_loop seen 20 0) (total == 0) empty (fetch_and_send seen total dests))
          at_k.0
      ∙ ap (λ o. stages true o (total == 0) empty (fetch_and_send seen total dests))
          (connected seen k (omega arith) at_k)
      ∙ ap
          (λ h.
            stages true (some (suc k)) (total_size h == 0) empty
              (fetch_and_send seen (total_size h) dests))
          told
      ∙ some_tries (suc k) n empty (fetch_and_send seen n dests) (omega arith) pos
      ∙ fetches seen n dests ps begun held are fill short room)
  where
    total : ℕ
    total = total_size seen.headers

    empty : Option (List OtaCall × UpgradeResult)
    empty = into_data seen (some ([], no_result))

-- A root with memory for its message that is connected at its 20th try only does not fetch the firmware, and reports no device.
pub ota_task-last_try :
    (seen : OtaSeen) (block : Store) (dest_data : List ℕ) (dests : List Mac)
    → seen.block ≡ some block
    → dest_addrs dest_data ≡ some dests
    → ConnectsAt seen 19
    → ota_task seen dest_data ≡ some (reported seen block ([], no_result))
ota_task-last_try seen block dest_data dests mem known at_k =
    ota_task_reports seen block dest_data dests _ mem known (
      ota_update-stages seen dests
      ∙ ap
          (λ b. stages b (open_loop seen 20 0) (total == 0) empty (fetch_and_send seen total dests))
          at_k.0
      ∙ ap (λ o. stages true o (total == 0) empty (fetch_and_send seen total dests))
          (connected seen 19 (omega arith) at_k))
  where
    total : ℕ
    total = total_size seen.headers

    empty : Option (List OtaCall × UpgradeResult)
    empty = into_data seen (some ([], no_result))
