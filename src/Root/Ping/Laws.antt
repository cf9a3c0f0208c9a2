-- ===== src/Root/Ping/Laws.antt =====
-- What a ping of the root tells a node.
use esp32_mesh.Common.{
  ℕ, ◌+◌, ◌<◌, ◌≤◌, ◌≡◌, refl, sym, ap, ◌∙◌, ◌⊎◌, false, List, [], ◌∷◌, Option, some, arith, length,
  ◌==◌, ◌&&◌, ltb,
}
use esp32_mesh.Common.Memory.{Store, read, read_congr, poke, poke_out, poke_self, memcpy_out}
use mathlib.Core.Option
use esp32_mesh.Message.{set_header, set_header_fields, set_header_out, put_bytes, read-put_bytes}
use esp32_mesh.Effect.{mesh_write}
use esp32_mesh.DevList.{NodeInfo}
use esp32_mesh.DevList.Laws.{HasMacs}
use esp32_mesh.Watchdog.{get_two_timestamp_interval}
use esp32_mesh.Root.Restart.{broadcast}
use esp32_mesh.Root.Ping.{ping_row, put_macs, ping_msg, is_empty, root_send_ping}

-- The addresses of the nodes stand in the rows of the ping from number `i` on, and within the 1430 bytes
-- that are sent of it.
abbrev pub InRows : List NodeInfo → ℕ → Store → Type 0
InRows [] i m = Unit {0}
InRows (n ∷ ns) i m =
    (ping_row i + 6 ≤ 1430) × (read m (ping_row i) 6 ≡ n.mac_addr) × InRows ns (i + 1) m

put_macs_out :
    (ns : List NodeInfo) (i : ℕ) (m : Store) (a : ℕ) → a < ping_row i → put_macs ns i m a ≡ m a
unfolding put_macs put_bytes
put_macs_out [] i m a l = refl
put_macs_out (n ∷ ns) i m a l =
    put_macs_out ns (i + 1) (put_bytes m (ping_row i) n.mac_addr) a (omega arith)
    ∙ memcpy_out m (ping_row i) _ 0 (length n.mac_addr) a (omega arith)

put_macs-InRows :
    (ns : List NodeInfo) (i : ℕ) (m : Store)
    → HasMacs ns
    → i + length ns ≤ 235
    → InRows ns i (put_macs ns i m)
unfolding put_macs
put_macs-InRows [] i m h few = tt
put_macs-InRows (n ∷ ns) i m h few =
    let m1 = put_bytes m (ping_row i) n.mac_addr in
    (
      omega arith,
      read_congr (put_macs ns (i + 1) m1) m1 (ping_row i) (ping_row i) 6
            (λ j l. put_macs_out ns (i + 1) m1 (ping_row i + j) (omega arith))
          ∙ ap (read m1 (ping_row i)) (sym h.0)
          ∙ read-put_bytes m (ping_row i) n.mac_addr,
      put_macs-InRows ns (i + 1) m1 h.1 (omega arith),
    )

InRows-congr :
    (ns : List NodeInfo) (i : ℕ) (m m' : Store)
    → ((a : ℕ) → 16 ≤ a → m' a ≡ m a)
    → InRows ns i m
    → InRows ns i m'
InRows-congr [] i m m' h r = tt
InRows-congr (n ∷ ns) i m m' h r = (
  r.0,
  read_congr m' m (ping_row i) (ping_row i) 6 (λ j l. h (ping_row i + j) (omega arith)) ∙ r.1,
  InRows-congr ns (i + 1) m m' h r.2,
)

ping_msg_lem :
    (self_mac : List ℕ) (ns : List NodeInfo) (m : Store) (force : ℕ)
    → length self_mac ≡ 6
    → force < 256
    → HasMacs ns
    → length ns ≤ 235
    → let p = ping_msg self_mac ns m force in
      (p 6 ≡ 1)
      × (p 7 ≡ 10)
      × (p 8 ≡ force)
      × (read p 9 6 ≡ self_mac)
      × (p 15 ≡ m 15)
      × InRows ns 0 p
unfolding ping_msg
ping_msg_lem self_mac ns m force six l h few =
    let rows = put_macs ns 0 m in
    let head = set_header rows 0 1 10 in
    let (t, c) = set_header_fields rows 0 1 10 (omega arith) (omega arith) in
    let kept : (a : ℕ) → (a < 9) ⊎ (15 ≤ a) → ping_msg self_mac ns m force a ≡ poke head 8 force a =
      λ a k.
        (unfold put_bytes in
          memcpy_out (poke head 8 force) 9 _ 0 (length self_mac) a (omega arith)) in
    let far : (a : ℕ) → 15 ≤ a → ping_msg self_mac ns m force a ≡ rows a = λ a k.
      kept a (omega arith)
      ∙ poke_out head 8 force a (omega arith)
      ∙ set_header_out rows 0 1 10 a (omega arith) in
    (
      kept 6 (omega arith) ∙ poke_out head 8 force 6 (omega arith) ∙ t,
      kept 7 (omega arith) ∙ poke_out head 8 force 7 (omega arith) ∙ c,
      kept 8 (omega arith) ∙ poke_self head 8 force l,
      ap (read (ping_msg self_mac ns m force) 9) (sym six)
          ∙ read-put_bytes (poke head 8 force) 9 self_mac,
      far 15 (omega arith) ∙ put_macs_out ns 0 m 15 (omega arith),
      InRows-congr ns 0 rows (ping_msg self_mac ns m force) (λ a k. far a (omega arith))
          (put_macs-InRows ns 0 m h (omega arith)),
    )

-- A root that is not alone, and that is told of something on its queue or has waited for 8 seconds,
-- sends one ping to all: a request with what the queue said, its own address and, row by row and within
-- the 1430 bytes that are sent, those of the nodes in its list, all of 6 bytes and at most 235 of them.
-- The number of the rows is not written: the byte for it keeps what the buffer held.
pub root_send_ping_lem :
    (total now junk : ℕ) (queued : Option ℕ) (self_mac : List ℕ) (ns : List NodeInfo) (last : ℕ)
    (m : Store)
    → (total == 1) ≡ false
    → (is_empty queued && ltb (get_two_timestamp_interval now last) 8) ≡ false
    → length self_mac ≡ 6
    → Option.get_or queued junk < 256
    → HasMacs ns
    → length ns ≤ 235
    → let o = root_send_ping total now junk queued self_mac ns last m in
      (o.effects ≡ mesh_write (some broadcast) o.msg 1430 ∷ [])
      × (o.last ≡ now)
      × (o.msg 6 ≡ 1)
      × (o.msg 7 ≡ 10)
      × (o.msg 8 ≡ Option.get_or queued junk)
      × (read o.msg 9 6 ≡ self_mac)
      × (o.msg 15 ≡ m 15)
      × InRows ns 0 o.msg
unfolding root_send_ping
root_send_ping_lem total now junk queued self_mac ns last m many due six l h few =
    let told = ping_msg_lem self_mac ns m (Option.get_or queued junk) six l h few in
    rw (many, due) (refl, refl, told.0, told.1, told.2, told.3, told.4, told.5)
