-- ===== src/Root/RegisterLayout.antt =====
-- Where the registration of the nodes stands in the message to the server.
use esp32_mesh.Common.{
  ℕ, ◌+◌, ◌%◌, ◌<◌, ◌≤◌, ◌≡◌, ◌≢◌, refl, sym, ap, ◌∙◌, Bool, true, List, [], ◌∷◌, ◌++◌, arith,
  length, ne→==,
}
use esp32_mesh.Common.Memory.{Store, read, poke, poke_out, poke_self, memcpy_out, read_congr}
use esp32_mesh.Message.{
  set_header_out, put_bytes, put_text, read-put_bytes, read-put_bytes_out, read-put_text,
  read-put_text_out,
}
use esp32_mesh.Effect.{send}
use esp32_mesh.DevList.{NodeInfo}
use esp32_mesh.DevList.Laws.{HasMacs}
use esp32_mesh.Config.Text.{cstr}
use esp32_mesh.Root.State.{RootState}
use esp32_mesh.Root.Register.{reg_payload, put_nodes, server_header, root_send_register}

-- The sum that the code calls `offset`, after a node.
abbrev pub next_offset : ℕ → NodeInfo → ℕ
next_offset offset n = offset + 6 + length (cstr n.version) + 1

-- Every node of the list stands in the message, its address in row `offset` and its version, with its
-- end, in row `6 + offset`, rows of 21 bytes, both within the 1436 bytes that are sent.
abbrev pub InRows : List NodeInfo → ℕ → Store → Type 0
InRows [] offset m = Unit {0}
InRows (n ∷ ns) offset m =
    (reg_payload (6 + offset) + (length (cstr n.version) + 1) ≤ 1436)
    × (read m (reg_payload offset) 6 ≡ n.mac_addr)
    × (read m (reg_payload (6 + offset)) (length (cstr n.version) + 1) ≡ cstr n.version ++ 0 ∷ [])
    × InRows ns (next_offset offset n) m

-- The rows of these nodes from `offset` on end within the message.
abbrev pub Fits : List NodeInfo → ℕ → Type 0
Fits [] offset = Unit {0}
Fits (n ∷ ns) offset =
    (reg_payload (6 + offset) + (length (cstr n.version) + 1) ≤ 1436)
    × Fits ns (next_offset offset n)

-- What stands before the rows that are still to be written stays.
put_nodes_below :
    (ns : List NodeInfo) (offset : ℕ) (m : Store) (o k : ℕ)
    → HasMacs ns
    → o + k ≤ reg_payload offset
    → read (put_nodes ns offset m) o k ≡ read m o k
unfolding put_nodes
put_nodes_below [] offset m o k h b = refl
put_nodes_below (n ∷ ns) offset m o k h b =
    put_nodes_below ns (next_offset offset n)
      (put_text (put_bytes m (reg_payload offset) n.mac_addr) (reg_payload (6 + offset))
        (cstr n.version))
      o k h.1 (omega arith)
    ∙ read-put_text_out (put_bytes m (reg_payload offset) n.mac_addr) (reg_payload (6 + offset))
        (cstr n.version) o k (omega arith)
    ∙ read-put_bytes_out m (reg_payload offset) n.mac_addr o k (omega arith)

put_nodes-InRows :
    (ns : List NodeInfo) (offset : ℕ) (m : Store)
    → HasMacs ns
    → Fits ns offset
    → InRows ns offset (put_nodes ns offset m)
unfolding put_nodes
put_nodes-InRows [] offset m h fit = tt
put_nodes-InRows (n ∷ ns) offset m h fit =
    let a = put_bytes m (reg_payload offset) n.mac_addr in
    let b = put_text a (reg_payload (6 + offset)) (cstr n.version) in
    let len = length (cstr n.version) + 1 in
    (
      fit.0,
      put_nodes_below ns (next_offset offset n) b (reg_payload offset) 6 h.1 (omega arith)
          ∙ read-put_text_out a (reg_payload (6 + offset)) (cstr n.version) (reg_payload offset) 6
              (omega arith)
          ∙ ap (read a (reg_payload offset)) (sym h.0)
          ∙ read-put_bytes m (reg_payload offset) n.mac_addr,
      put_nodes_below ns (next_offset offset n) b (reg_payload (6 + offset)) len h.1 (omega arith)
          ∙ read-put_text a (reg_payload (6 + offset)) (cstr n.version),
      put_nodes-InRows ns (next_offset offset n) b h.1 fit.1,
    )

InRows-congr :
    (ns : List NodeInfo) (offset : ℕ) (m m' : Store)
    → ((a : ℕ) → 15 ≤ a → m' a ≡ m a)
    → InRows ns offset m
    → InRows ns offset m'
InRows-congr [] offset m m' h r = tt
InRows-congr (n ∷ ns) offset m m' h r = (
  r.0,
  read_congr m' m (reg_payload offset) (reg_payload offset) 6 (λ i l. h _ (omega arith)) ∙ r.1,
  read_congr m' m (reg_payload (6 + offset)) (reg_payload (6 + offset))
        (length (cstr n.version) + 1) (λ i l. h _ (omega arith))
      ∙ r.2,
  InRows-congr ns (next_offset offset n) m m' h r.3,
)

-- A root with between 1 and 255 nodes in its list, all addresses of 6 bytes, whose rows end within the
-- 1436 bytes of a message, and whose messages are taken, sends two of them. The second has the number of
-- the nodes, and, within the bytes that are sent, each node of the list, in order: the address of a node with `offset` bytes registered before it stands 21 * offset bytes
-- into the payload, and its version 21 * 6 bytes behind that, not, as the comment on the message
-- says, right behind each other.
pub root_send_register-InRows :
    (device_version : List ℕ) (sends : ℕ → Bool) (s : RootState)
    → ((k : ℕ) → sends k ≡ true)
    → 0 < length s.nodes
    → length s.nodes < 256
    → length s.self_mac ≡ 6
    → HasMacs s.nodes
    → Fits s.nodes 0
    → (first : Store) × (second : Store) × (root_send_register device_version sends s
        ≡ (true, send first 1436 ∷ send second 1436 ∷ [], second))
      × (second 14 ≡ length s.nodes)
      × InRows s.nodes 0 second
unfolding root_send_register
root_send_register-InRows device_version sends s ok some_ few six macs fit =
    let m1 = put_text (server_header s.msg s.self_mac 5) 14 device_version in
    let m2 = put_nodes s.nodes 0 m1 in
    let num = length s.nodes % 256 in
    let head = server_header m2 s.self_mac 6 in
    let kept : (a : ℕ) → 15 ≤ a → poke head 14 num a ≡ m2 a = λ a l.
      poke_out head 14 num a (omega arith)
      ∙ set_header_out _ 6 1 6 a (omega arith)
      ∙ (unfold put_bytes in memcpy_out m2 0 _ 0 _ a (omega arith)) in
    let counted : num ≢ 0 = omega arith in
    (
      m1,
      poke head 14 num,
      rw (ok 0, ne→== num 0 counted, ok 1),
      poke_self head 14 num (omega arith) ∙ omega arith,
      InRows-congr s.nodes 0 m2 (poke head 14 num) kept (put_nodes-InRows s.nodes 0 m1 macs fit),
    )
