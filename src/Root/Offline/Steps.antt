-- ===== src/Root/Offline/Steps.antt =====
-- The walk over the device list that takes the nodes off that have left.
use esp32_mesh.Common.{
  ℕ, suc, ◌+◌, ◌<◌, ◌≤◌, ◌≡◌, refl, sym, ap, ◌∙◌, true, false, inl, inr, List, [], ◌∷◌, arith,
  length, if◌then◌else◌, Bool-cases,
}
use esp32_mesh.Common.Memory.{Store, read, read_congr, memcpy_out}
use esp32_mesh.Message.{put_bytes, read-put_bytes}
use esp32_mesh.DevList.{Mac, NodeInfo, del_node}
use esp32_mesh.DevList.Laws.{HasMacs}
use esp32_mesh.Root.Offline.{gone_row, in_table, Walk, offline_loop}
use esp32_mesh.Root.Offline.Table.{is_in, HasTable, HasTable-put_bytes}

-- The addresses of the nodes that the table does not have, in the order of the list.
abbrev pub gone : List Mac → List NodeInfo → List Mac
gone table [] = []
gone table (n ∷ ns) = if is_in table n.mac_addr then gone table ns else n.mac_addr ∷ gone table ns

-- The addresses stand in the rows of the message from number `i` on.
abbrev pub InRows : List Mac → ℕ → Store → Type 0
InRows [] i m = Unit {0}
InRows (t ∷ ts) i m = (read m (gone_row i) 6 ≡ t) × InRows ts (suc i) m

abbrev pub del_all : List Mac → List NodeInfo → List NodeInfo
del_all [] ns = ns
del_all (t ∷ ts) ns = del_all ts (del_node ns t)

-- What the walk leaves, step by step.
abbrev pub step : Walk → Mac → Walk
step w mac = record {
  nodes = del_node w.nodes mac;
  rm_num = suc w.rm_num;
  msg = put_bytes w.msg (gone_row w.rm_num) mac;
}

offline_loop_out :
    (table : List Mac) (rest : List NodeInfo) (w : Walk) (a : ℕ)
    → HasMacs rest
    → a < gone_row w.rm_num
    → (offline_loop (length table) rest w).msg a ≡ w.msg a
unfolding offline_loop put_bytes
offline_loop_out table [] w a h l = refl
offline_loop_out table (n ∷ rest) w a h l =
    elim (Bool-cases (in_table (length table) 0 w.msg n.mac_addr)) [
      | inl y ↦ rw y (offline_loop_out table rest w a h.1 l)
      | inr e ↦ rw e (
          offline_loop_out table rest (step w n.mac_addr) a h.1 (omega arith)
          ∙ memcpy_out w.msg (gone_row w.rm_num) _ 0 (length n.mac_addr) a (omega arith))
    ]

pub offline_loop_lem :
    (table : List Mac) (rest : List NodeInfo) (w : Walk)
    → HasMacs rest
    → HasTable table w.msg
    → w.rm_num + length (gone table rest) ≤ 20
    → let r = offline_loop (length table) rest w in
      (r.nodes ≡ del_all (gone table rest) w.nodes)
      × (r.rm_num ≡ w.rm_num + length (gone table rest))
      × InRows (gone table rest) w.rm_num r.msg
unfolding offline_loop
offline_loop_lem table [] w h t l = (refl, omega arith, tt)
offline_loop_lem table (n ∷ rest) w h t l = elim (Bool-cases (is_in table n.mac_addr)) [
  | inl y ↦
      let found : in_table (length table) 0 w.msg n.mac_addr ≡ true = t n.mac_addr ∙ y in
      rw (y, found) (offline_loop_lem table rest w h.1 t (ground (arith, y)))
  | inr e ↦
      let missed : in_table (length table) 0 w.msg n.mac_addr ≡ false = t n.mac_addr ∙ e in
      let w1 = step w n.mac_addr in
      let r = offline_loop (length table) rest w1 in
      let room : suc w.rm_num + length (gone table rest) ≤ 20 = ground (arith, e) in
      let (nodes, num, rows) =
        offline_loop_lem table rest w1 h.1
          (HasTable-put_bytes table w.msg w.rm_num n.mac_addr h.0 (omega arith) t) room in
      let row : read r.msg (gone_row w.rm_num) 6 ≡ n.mac_addr =
        read_congr r.msg w1.msg (gone_row w.rm_num) (gone_row w.rm_num) 6
          (λ j k. offline_loop_out table rest w1 (gone_row w.rm_num + j) h.1 (omega arith))
        ∙ ap (read w1.msg (gone_row w.rm_num)) (sym h.0)
        ∙ read-put_bytes w.msg (gone_row w.rm_num) n.mac_addr in
      rw (e, missed) (nodes, num ∙ omega arith, (row, rows))
]
