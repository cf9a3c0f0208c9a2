-- ===== src/Root/Offline/Laws.antt =====
-- Which nodes are taken off the list, and what the server is told.
use esp32_mesh.Common.{
  ℕ, suc, ◌+◌, ◌<◌, ◌≤◌, ◌≡◌, refl, sym, ap, ◌∙◌, true, false, List, [], ◌∷◌, none, some, arith,
  length, bytes_eq_iff, if◌then◌else◌, dec_lt, ne→==, eq→==, ◌≢◌,
}
use esp32_mesh.Common.Memory.{
  Store, read, read_congr, poke, poke_out, poke_self, memcpy_out, read-poke,
}
use mathlib.Core.Path.{subst}
use esp32_mesh.Message.{set_header, set_header_fields, set_header_out, put_bytes, read-put_bytes}
use esp32_mesh.DevList.{Mac, NodeInfo, del_node}
use esp32_mesh.DevList.Laws.{HasMacs, version_of, IsUnique, del_node_refines}
use esp32_mesh.Root.Offline.{gone_row, put_table, Walk, offline_loop, root_do_child_offline}
use esp32_mesh.Effect.{send}
use esp32_mesh.Root.State.{RootState}
use esp32_mesh.Root.Offline.Table.{AllMac, is_in, in_table-put_table}
use esp32_mesh.Root.Offline.Steps.{gone, InRows, del_all, offline_loop_lem}

version_of-del_all :
    (ts : List Mac) (ns : List NodeInfo) (b : Mac)
    → IsUnique ns
    → (version_of (del_all ts ns) b ≡ (if is_in ts b then none else version_of ns b))
      × IsUnique (del_all ts ns)
version_of-del_all [] ns b u = (refl, u)
version_of-del_all (t ∷ ts) ns b u =
    let (maps, unique) = del_node_refines ns t u in
    ground (
      arith,
      maps b,
      bytes_eq_iff b t,
      bytes_eq_iff t b,
      version_of-del_all ts (del_node ns t) b unique,
    )

is_in_congr : (table : List Mac) (a b : Mac) → a ≡ b → is_in table a ≡ is_in table b
is_in_congr table a b e = ap (is_in table) e

gone_absent :
    (table : List Mac) (ns : List NodeInfo) (b : Mac)
    → is_in table b ≡ true
    → is_in (gone table ns) b ≡ false
gone_absent table [] b h = refl
gone_absent table (n ∷ ns) b h =
    ground
      (arith, bytes_eq_iff b n.mac_addr, gone_absent table ns b, is_in_congr table n.mac_addr b)

-- What is gone is what the table does not have, of the registered addresses.
is_in-gone :
    (table : List Mac) (ns : List NodeInfo) (b : Mac)
    → (if is_in (gone table ns) b then none else version_of ns b)
      ≡ (if is_in table b then version_of ns b else none)
is_in-gone table [] b = ground arith
is_in-gone table (n ∷ ns) b = ground (
  arith,
  bytes_eq_iff b n.mac_addr,
  bytes_eq_iff n.mac_addr b,
  is_in-gone table ns b,
  gone_absent table ns b,
  is_in_congr table n.mac_addr b,
)

InRows-congr :
    (ts : List Mac) (i : ℕ) (m m' : Store)
    → ((a : ℕ) → 15 ≤ a → m' a ≡ m a)
    → InRows ts i m
    → InRows ts i m'
InRows-congr [] i m m' h r = tt
InRows-congr (t ∷ ts) i m m' h r = (
  read_congr m' m (gone_row i) (gone_row i) 6 (λ j l. h (gone_row i + j) (omega arith)) ∙ r.0,
  InRows-congr ts (suc i) m m' h r.1,
)

-- The message to the server around the rows.
abbrev pub notice : RootState → Store → ℕ → Store
notice s m num = poke (set_header (put_bytes m 0 s.self_mac) 6 1 7) 14 num

notice_lem :
    (ts : List Mac) (s : RootState) (m : Store) (num : ℕ)
    → length s.self_mac ≡ 6
    → num < 256
    → num ≡ length ts
    → InRows ts 0 m
    → (read (notice s m num) 0 6 ≡ s.self_mac)
      × (notice s m num 12 ≡ 1)
      × (notice s m num 13 ≡ 7)
      × (notice s m num 14 ≡ length ts)
      × InRows ts 0 (notice s m num)
notice_lem ts s m num six l count rows =
    let named = put_bytes m 0 s.self_mac in
    let head = set_header named 6 1 7 in
    let (t, c) = set_header_fields named 6 1 7 (omega arith) (omega arith) in
    let named_out : (a : ℕ) → 15 ≤ a → named a ≡ m a =
      λ a k. (unfold put_bytes in memcpy_out m 0 _ 0 (length s.self_mac) a (omega arith)) in
    (
      read-poke head 14 num 0 6 (omega arith)
          ∙ read_congr head named 0 0 6 (λ j k. set_header_out named 6 1 7 (0 + j) (omega arith))
          ∙ ap (read named 0) (sym six)
          ∙ read-put_bytes m 0 s.self_mac,
      poke_out head 14 num 12 (omega arith) ∙ t,
      poke_out head 14 num 13 (omega arith) ∙ c,
      poke_self head 14 num l ∙ count,
      InRows-congr ts 0 m (notice s m num)
          (λ a k.
            poke_out head 14 num a (omega arith)
            ∙ set_header_out named 6 1 7 a (omega arith)
            ∙ named_out a k)
          rows,
    )

-- Where a node has left, the routing table can be read, at most 20 nodes of the list are not in it,
-- every address has 6 bytes and no address is in the list twice: exactly the nodes that the table
-- does not have are taken off the list. If there are any, the server gets one message from the
-- root's address: a request to unregister nodes, with their number and their addresses, row by row
-- in the order of the list; and otherwise none.
pub root_do_child_offline_lem :
    (table : List Mac) (s : RootState)
    → AllMac table
    → HasMacs s.nodes
    → IsUnique s.nodes
    → length s.self_mac ≡ 6
    → length (gone table s.nodes) ≤ 20
    → let gs = gone table s.nodes in
      let o = root_do_child_offline (some table) s 2 in
      ((b : Mac) → version_of o.1.nodes b ≡ (if is_in table b then version_of s.nodes b else none))
      × IsUnique o.1.nodes
      × (length gs ≡ 0 → o.0 ≡ [])
      × (1 ≤ length gs
          → (m : Store) × ((o.0 ≡ send m 1436 ∷ [])
              × (read m 0 6 ≡ s.self_mac)
              × (m 12 ≡ 1)
              × (m 13 ≡ 7)
              × (m 14 ≡ length gs)
              × InRows gs 0 m))
unfolding root_do_child_offline
root_do_child_offline_lem table s tm nm u six small =
    let w0 : Walk = record { nodes = s.nodes; rm_num = 0; msg = put_table table 0 s.msg } in
    let w = offline_loop (length table) s.nodes w0 in
    let (nodes, num, rows) =
      offline_loop_lem table s.nodes w0 nm (λ b. in_table-put_table table 0 s.msg b tm)
        (omega (arith, small)) in
    let (maps, unique) = unregistered table s w nodes u in
    let count : w.rm_num ≡ length (gone table s.nodes) = omega (arith, num) in
    let told =
      notice_lem (gone table s.nodes) s w.msg w.rm_num six (omega (arith, num, small)) count rows in
    elim (dec_lt 0 (length (gone table s.nodes))) [
      | yes some_ ↦
          let counted : w.rm_num ≢ 0 = omega (arith, num) in
          rw (ne→== w.rm_num 0 counted) (
            maps,
            unique,
            (λ z. absurd (omega (arith, z, some_))),
            λ l. (notice s w.msg w.rm_num, (refl, told.0, told.1, told.2, told.3, told.4)),
          )
      | no none_ ↦
          let zero_ : w.rm_num ≡ 0 = omega (arith, num) in
          rw (eq→== w.rm_num 0 zero_) (maps, unique, (λ z. refl), λ l. absurd (omega (arith, l)))
    ]
  where
    unregistered :
        (table : List Mac) (s : RootState) (w : Walk)
        → w.nodes ≡ del_all (gone table s.nodes) s.nodes
        → IsUnique s.nodes
        → ((b : Mac)
            → version_of w.nodes b ≡ (if is_in table b then version_of s.nodes b else none))
          × IsUnique w.nodes
    unregistered table s w e u =
        let same = sym e in
        subst
          (λ ns.
            ((b : Mac) → version_of ns b ≡ (if is_in table b then version_of s.nodes b else none))
            × IsUnique ns)
          same
          (
            (λ b.
                (version_of-del_all (gone table s.nodes) s.nodes b u).0
                ∙ is_in-gone table s.nodes b),
            (version_of-del_all (gone table s.nodes) s.nodes [] u).1,
          )
