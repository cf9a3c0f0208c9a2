-- ===== src/Root/Ota/Report.antt =====
-- The report of an update: what the server reads out of it.
use esp32_mesh.Common.{
  ℕ, ◌+◌, ◌*◌, ◌<◌, ◌≤◌, ◌≡◌, refl, ap, ◌∙◌, ◌⊎◌, List, [], ◌∷◌, arith, length, length-append,
}
use esp32_mesh.Common.Memory.{
  Store, memset, memcpy_out, poke, poke_out, poke_self, of_bytes, read, read_congr, read-memcpy,
  read-memcpy_out, read-poke,
}
use esp32_mesh.Message.{
  set_header, set_header_out, set_header_fields, put_bytes, read-of_bytes, read-put_bytes,
}
use esp32_mesh.DevList.{Mac}
use esp32_mesh.Root.Ota.{UpgradeResult, flat, put_addrs, ota_report}

-- Every address has 6 bytes.
abbrev pub AreMacs : List Mac → Type 0
AreMacs [] = Unit {0}
AreMacs (a ∷ rest) = (length a ≡ 6) × AreMacs rest

length-flat : (addrs : List Mac) → AreMacs addrs → length (flat addrs) ≡ 6 * length addrs
length-flat [] h = refl
length-flat (a ∷ rest) h = omega (arith, length-append a (flat rest), length-flat rest h.1, h.0)

put_addrs_out :
    (m : Store) (off : ℕ) (addrs : List Mac) (a : ℕ)
    → (a < off) ⊎ (off + 6 * length addrs ≤ a)
    → put_addrs m off addrs a ≡ m a
put_addrs_out m off addrs a h = memcpy_out m off _ 0 (6 * length addrs) a h

read-put_addrs :
    (m : Store) (off : ℕ) (addrs : List Mac)
    → AreMacs addrs
    → read (put_addrs m off addrs) off (6 * length addrs) ≡ flat addrs
read-put_addrs m off addrs macs =
    let n = 6 * length addrs in
    ap (λ a. read (put_addrs m off addrs) a n) (omega arith)
    ∙ read-memcpy m off (of_bytes (flat addrs)) 0 n 0 n (omega arith)
    ∙ ap (read (of_bytes (flat addrs)) 0) (omega (arith, length-flat addrs macs))
    ∙ read-of_bytes (flat addrs)

-- The report before the two lists of devices.
abbrev head : Store → Mac → Store
head block self_mac = set_header (put_bytes (memset block 0 0 1436) 0 self_mac) 6 2 1

head_fields :
    (block : Store) (self_mac : Mac)
    → length self_mac ≡ 6
    → let m = head block self_mac in (read m 0 6 ≡ self_mac) × (m 12 ≡ 2) × (m 13 ≡ 1)
head_fields block self_mac six =
    let base = put_bytes (memset block 0 0 1436) 0 self_mac in
    let size : 6 ≡ length self_mac = omega (arith, six) in
    let type = set_header_fields base 6 2 1 (omega arith) (omega arith) in
    (
      read_congr (head block self_mac) base 0 0 6
            (λ i l. set_header_out base 6 2 1 (0 + i) (omega arith))
          ∙ ap (read base 0) size
          ∙ read-put_bytes (memset block 0 0 1436) 0 self_mac,
      type.0,
      type.1,
    )

-- What the server reads at these places, and that they are within the 1436 bytes that are sent.
abbrev pub IsReport : Mac → UpgradeResult → Store → Type 0
IsReport self_mac r m =
    let fine = length r.successed in
    let rest = length r.unfinished in
    (read m 0 6 ≡ self_mac)
    × (m 12 ≡ 2)
    × (m 13 ≡ 1)
    × (m 14 ≡ fine)
    × (read m 15 (6 * fine) ≡ flat r.successed)
    × (m (15 + 6 * fine) ≡ rest)
    × (read m (16 + 6 * fine) (6 * rest) ≡ flat r.unfinished)
    × (16 + 6 * fine + 6 * rest ≤ 1436)

-- The report holds the root's address, the answer to the command for an update, and both lists of
-- devices with their lengths, in the places where the server reads them and within the 1436 bytes
-- that are sent, for up to 236 devices, all with addresses of 6 bytes as the root's.
pub ota_report-IsReport :
    (block : Store) (self_mac : Mac) (r : UpgradeResult)
    → length self_mac ≡ 6
    → AreMacs r.successed
    → AreMacs r.unfinished
    → length r.successed + length r.unfinished ≤ 236
    → IsReport self_mac r (ota_report block self_mac r)
unfolding ota_report
ota_report-IsReport block self_mac r six macs macs' few =
    let fine = length r.successed in
    let rest = length r.unfinished in
    let told = head_fields block self_mac six in
    let m1 = poke (head block self_mac) 14 fine in
    let m2 = put_addrs m1 15 r.successed in
    let m3 = poke m2 (15 + 6 * fine) rest in
    let m4 = put_addrs m3 (16 + 6 * fine) r.unfinished in
    let early : (a : ℕ) → a < 15 → m4 a ≡ m1 a = λ a l.
      put_addrs_out m3 (16 + 6 * fine) r.unfinished a (omega arith)
      ∙ poke_out m2 (15 + 6 * fine) rest a (omega arith)
      ∙ put_addrs_out m1 15 r.successed a (omega arith) in
    let start : (a : ℕ) → a < 14 → m4 a ≡ head block self_mac a =
      λ a l. early a (omega arith) ∙ poke_out (head block self_mac) 14 fine a (omega arith) in
    (
      read_congr m4 (head block self_mac) 0 0 6 (λ i l. start (0 + i) (omega arith)) ∙ told.0,
      start 12 (omega arith) ∙ told.1,
      start 13 (omega arith) ∙ told.2,
      early 14 (omega arith) ∙ poke_self (head block self_mac) 14 fine (omega arith),
      read-memcpy_out m3 (16 + 6 * fine) _ 0 (6 * rest) 15 (6 * fine) (omega arith)
          ∙ read-poke m2 (15 + 6 * fine) rest 15 (6 * fine) (omega arith)
          ∙ read-put_addrs m1 15 r.successed macs,
      put_addrs_out m3 (16 + 6 * fine) r.unfinished (15 + 6 * fine) (omega arith)
          ∙ poke_self m2 (15 + 6 * fine) rest (omega arith),
      read-put_addrs m3 (16 + 6 * fine) r.unfinished macs',
      omega arith,
    )
