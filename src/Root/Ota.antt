-- ===== src/Root/Ota.antt =====
-- `ota_task` of main/router.c: the root fetches a firmware from the server, hands it to the mesh upgrade
-- and reports what became of the devices. The HTTP client and the mesh upgrade are not in main/.
pub mod Destinations
pub mod Download
pub mod Delivery
pub mod Report
pub mod Busy
pub mod Command
mod Tests
use mathlib.Core.Option
use esp32_mesh.Common.{
  ℕ, zero, suc, ◌+◌, ◌-◌, ◌*◌, ◌^◌, Bool, true, false, not, ◌&&◌, List, [], ◌∷◌, ◌++◌, map, Option,
  none, some, get_or, length, ltb, leb, ◌==◌, if◌then◌else◌,
}
use esp32_mesh.Common.Memory.{Store, memset, memcpy, poke, of_bytes, read}
use esp32_mesh.Wire.{addr_len, root_packet_len, max_mesh_size}
use esp32_mesh.Wire.BusCmd
use esp32_mesh.Wire.BusType
use esp32_mesh.Wire.RootMsg
use esp32_mesh.Message.{set_header, put_bytes}
use esp32_mesh.DevList.{Mac}
use esp32_mesh.Root.MeshTask.{Incoming}
use esp32_mesh.Root.State.{RootState, body_at}

-- `mupgrade_result_t`: the devices in successed_addr and unfinished_addr.
pub record UpgradeResult : Type 0 where
  pub successed : List Mac
  pub unfinished : List Mac

-- esp_http_client_fetch_headers: -1, or the size of the firmware.
pub data Headers : Type 0 where
  no_headers : Headers
  content : ℕ → Headers

-- esp_http_client_read: a negative result, or the bytes read.
pub data HttpRead : Type 0 where
  http_failed : HttpRead
  got : List ℕ → HttpRead

-- What the surroundings answer: esp_http_client_init, the n-th esp_http_client_open, esp_mesh_is_root
-- behind it, the headers, mupgrade_firmware_init, the n-th esp_http_client_read and the n-th
-- mupgrade_firmware_download, and what mupgrade_firmware_send leaves in its result; g_self_mac;
-- MWIFI_PAYLOAD_LEN, and whether a block of that size can be allocated; and what the block for the
-- message holds, where it can be.
pub record OtaSeen : Type 0 where
  pub client : Bool
  pub opens : ℕ → Bool
  pub is_root : ℕ → Bool
  pub headers : Headers
  pub init_ok : Bool
  pub reads : ℕ → HttpRead
  pub writes : ℕ → Bool
  pub result : UpgradeResult
  pub self_mac : Mac
  pub payload_len : ℕ
  pub data_held : Bool
  pub block : Option Store

-- mupgrade_firmware_init(name, total_size), mupgrade_firmware_download(data, size),
-- mupgrade_firmware_send(dest_addr, num, &result), send(g_sockfd, p, ROOT_PACKET_LEN, 0), and
-- mupgrade_handle(src_addr, data, size).
pub data OtaCall : Type 0 where
  init : ℕ → OtaCall
  download : List ℕ → OtaCall
  distribute : List Mac → OtaCall
  report : Store → OtaCall
  handle : Mac → Store → ℕ → OtaCall

-- What `root_do_ota` allocates for dest_data.
abbrev pub dest_size : ℕ
dest_size = 61

-- Lines 612 to 618, from `m` on.
abbrev pub dest_table : Store → (m num : ℕ) → List Mac
dest_table block m zero = []
dest_table block m (suc num) = read block m addr_len ∷ dest_table block (m + addr_len) num

-- Lines 602 to 619, for the devices in dest_data: the part of dest_addr that is filled, `none` where the
-- loop leaves dest_data or dest_addr.
unfoldable pub dest_addrs : List ℕ → Option (List Mac)
dest_addrs dest_data =
    let num = get_or dest_data 0 0 in
    if num == 0
    then some ((255 ∷ 255 ∷ 255 ∷ 255 ∷ 255 ∷ 255 ∷ []) ∷ [])
    else (if leb (num * addr_len + 1) dest_size && leb num max_mesh_size
        then some (dest_table (of_bytes dest_data) 1 num)
        else none)

abbrev pub max_tries : ℕ
max_tries = 20

-- Lines 645 to 657: u8retrycount where the loop ends, `none` where the device is no root any more.
unfoldable pub open_loop : OtaSeen → (left tries : ℕ) → Option ℕ
open_loop seen zero tries = some tries
open_loop seen (suc left) tries =
    let again = open_loop seen left (suc tries) in
    if seen.opens tries then some (suc tries) else (if seen.is_root tries then again else none)

-- total_size, a size_t.
abbrev pub total_size : Headers → ℕ
total_size no_headers = 2 ^ 32 - 1
total_size (content n) = n

-- What a round of the loop does with what it has read.
abbrev pub take_piece :
    HttpRead
    → (written : Bool) → (ℕ → Option (Bool × List (List ℕ)))
    → Option (Bool × List (List ℕ))
take_piece http_failed written next = some (false, [])
take_piece (got []) written next = some (false, [])
take_piece (got (c ∷ cs)) written next =
    if written
    then Option.map (λ (r : Bool × List (List ℕ)). (r.0, (c ∷ cs) ∷ r.1)) (next (length (c ∷ cs)))
    else some (false, (c ∷ cs) ∷ [])

-- recv_size += size, where the sum is a ssize_t of 32 bits; `none` where it overflows.
abbrev pub counted :
    (recv_size size : ℕ) → Option (Bool × List (List ℕ)) → Option (Bool × List (List ℕ))
counted recv_size size rest = if ltb (recv_size + size) (2 ^ 31) then rest else none

-- Lines 683 to 697, over the rounds left: whether the loop came to its end, and what was handed to
-- mupgrade_firmware_download. `none` is more rounds than were given, or an overflow.
unfoldable pub download_loop :
    OtaSeen → (total left round recv_size : ℕ) → Option (Bool × List (List ℕ))
download_loop seen total zero round recv_size =
    if ltb recv_size total then none else some (true, [])
download_loop seen total (suc left) round recv_size =
    if ltb recv_size total
    then take_piece (seen.reads round) (seen.writes round) (λ size.
      counted recv_size size (download_loop seen total left (suc round) (recv_size + size)))
    else some (true, [])

abbrev pub no_result : UpgradeResult
no_result = record { successed = []; unfinished = [] }

-- What a read into `data` leads to; `none` where the result of its MDF_MALLOC, which is not looked at, is
-- NULL.
abbrev pub into_data :
    OtaSeen → Option (List OtaCall × UpgradeResult) → Option (List OtaCall × UpgradeResult)
into_data seen rest = if seen.data_held then rest else none

-- Lines 677 to 713: the calls, and the result they leave.
abbrev pub fetch_and_send : OtaSeen → ℕ → List Mac → Option (List OtaCall × UpgradeResult)
fetch_and_send seen total dests =
    if not seen.init_ok
    then some (init total ∷ [], no_result)
    else into_data seen (
        Option.map
          (λ (r : Bool × List (List ℕ)).
            if r.0
            then (init total ∷ (map download r.1 ++ distribute dests ∷ []), seen.result)
            else (init total ∷ map download r.1, no_result))
          (download_loop seen total total 0 0))

-- Lines 635 to 713.
unfoldable pub ota_update : OtaSeen → List Mac → Option (List OtaCall × UpgradeResult)
ota_update seen dests =
    let total = total_size seen.headers in
    let fetched = fetch_and_send seen total dests in
    if not seen.client then some ([], no_result) else elim (open_loop seen max_tries 0) [
      | none ↦ some ([], no_result)
      | some tries ↦
          if tries == max_tries
          then some ([], no_result)
          else (if total == 0 then into_data seen (some ([], no_result)) else fetched)
    ]

-- An array of addresses.
abbrev pub flat : List Mac → List ℕ
flat [] = []
flat (a ∷ rest) = a ++ flat rest

abbrev pub put_addrs : Store → ℕ → List Mac → Store
put_addrs m off addrs = memcpy m off (of_bytes (flat addrs)) 0 (addr_len * length addrs)

-- Lines 723 to 742. Addresses behind the 1436 bytes of the message are written here as any other.
unfoldable pub ota_report : (block : Store) → Mac → UpgradeResult → Store
ota_report block self_mac r =
    let fine = length r.successed in
    let rest = length r.unfinished in
    let m1 =
      set_header (put_bytes (memset block 0 0 root_packet_len) 0 self_mac) RootMsg.node
        BusType.response BusCmd.ota in
    let m2 = put_addrs (poke m1 body_at fine) (body_at + 1) r.successed in
    put_addrs (poke m2 (body_at + 1 + addr_len * fine) rest) (body_at + 2 + addr_len * fine)
      r.unfinished

-- `ota_task(dest_data)`. `none` is a fault: devices that leave dest_data, bytes that overflow recv_size,
-- or a NULL that one of its two MDF_MALLOCs gives and that is then written to.
unfoldable pub ota_task : OtaSeen → List ℕ → Option (List OtaCall)
ota_task seen dest_data = Option.bind (dest_addrs dest_data) (λ dests.
    Option.bind (ota_update seen dests) (λ (u : List OtaCall × UpgradeResult).
      Option.map (λ block. u.0 ++ report (ota_report block seen.self_mac u.1) ∷ []) seen.block))

-- The end of `ota_task`, lines 754 to 757: the task deletes itself before it resets bDeviceOtaFlag.
abbrev pub ota_ended : RootState → RootState
ota_ended s = record s { ota_read_task = false }

-- `root_ota_read_task`, over the messages that it reads into a zeroed buffer: what is no part of an
-- upgrade is dropped.
unfoldable pub root_ota_reads : List Incoming → List OtaCall
root_ota_reads [] = []
root_ota_reads (p ∷ ps) =
    let later = root_ota_reads ps in
    if p.upgrades then handle p.src (memcpy (λ a. 0) 0 p.packet 0 p.size) p.size ∷ later else later
