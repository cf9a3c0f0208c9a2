-- ===== src/Root/Registration.antt =====
-- A node's registration from the message it sends to the list that the root keeps.
use esp32_mesh.Common.{
  ℕ, ◌+◌, ◌≡◌, refl, List, [], ◌∷◌, ◌++◌, ◌-◌, ◌≤◌, ◌<◌, bytes_eq_refl, some, arith, bytes_eq,
  length, if◌then◌else◌,
}
use mathlib.Core.Path.{ap, ◌∙◌}
use esp32_mesh.Common.Memory.{Store, read, read_congr, read-append}
use esp32_mesh.Message.{set_header, set_header_out, put_bytes}
use esp32_mesh.DevList.{Mac}
use esp32_mesh.DevList.Laws.{version_of, IsUnique, add_newnode_refines}
use esp32_mesh.Effect.{Effect}
use esp32_mesh.Node.Handlers.{register_msg}
use esp32_mesh.Node.Ping.{register_msg_lem}
use esp32_mesh.Config.Text.{cstr}
use esp32_mesh.Config.File.{Free, before_lem}
use mathlib.Core.List.{append_assoc}
use esp32_mesh.Root.State.{RootState, RootEnv, send_if_open}
use esp32_mesh.Root.FromNode.{version_in, root_do_process_register, process_node_data}

version_in-set_header : (m : Store) → version_in (set_header m 6 1 6) ≡ version_in m
unfolding version_in
version_in-set_header m =
    read_congr (set_header m 6 1 6) m 21 21 16
      (λ j l. set_header_out m 6 1 6 (21 + j) (omega arith))

-- Where there is memory for a node and no address is in the list twice, a request to register a node
-- succeeds, whatever else the message holds: the list then maps the sender to the 16 bytes of the
-- message that stand for the version, and every other address to what it had, and no address is in
-- it twice.
pub process_node_data-registers :
    (env : RootEnv) (s : RootState) (which : Mac) (old : List ℕ)
    → env.block ≡ some old
    → s.msg 12 ≡ 1
    → s.msg 13 ≡ 6
    → IsUnique s.nodes
    → (es : List Effect) × ((s' : RootState) × ((process_node_data env s which ≡ some (es, s'))
          × ((b : Mac)
              → version_of s'.nodes b
                ≡ (if bytes_eq which b then some (version_in s.msg) else version_of s.nodes b))
          × IsUnique s'.nodes))
unfolding process_node_data root_do_process_register
process_node_data-registers env s which old mem t c u =
    let m = set_header s.msg 6 1 6 in
    let m1 = if s.sock_open then put_bytes m 0 s.self_mac else m in
    let (r, done, maps, unique) = add_newnode_refines old (version_in m) s.nodes which u in
    (
      send_if_open s m1,
      (
        record s { nodes = r; msg = m1 },
        (
          (rw (t, c, mem, done) refl),
          (λ b.
              maps b
              ∙ ap (λ v. if bytes_eq which b then some v else version_of s.nodes b)
                  (version_in-set_header s.msg)),
          unique,
        ),
      ),
    )

version_in-read :
    (m sender : Store)
    → ((a : ℕ) → a < 1430 → m (6 + a) ≡ sender a)
    → version_in m ≡ read sender 15 16
unfolding version_in
version_in-read m sender sent =
    read_congr m sender 21 15 16 (λ j l. ap m (from_node j) ∙ sent (15 + j) (omega arith))
  where
    from_node : (j : ℕ) → 21 + j ≡ 6 + (15 + j)
    from_node j = omega arith

-- A node's registration reaches the list. Where the buffer holds, behind its address field, the
-- message by which a node registers, for an address of 6 bytes and a version of at most 15 bytes
-- without a zero, where there is memory for a node and no address is in the list twice: handling the
-- message succeeds, and the list then has, for that address, the version as a text.
pub registration :
    (env : RootEnv) (s : RootState) (buffer : Store) (mac version : List ℕ) (old : List ℕ)
    → env.block ≡ some old
    → ((a : ℕ) → a < 1430 → s.msg (6 + a) ≡ register_msg buffer mac version a)
    → length mac ≡ 6
    → length version ≤ 15
    → Free 0 version
    → IsUnique s.nodes
    → (es : List Effect) × ((s' : RootState) × ((v : List ℕ) × ((process_node_data env s mac
              ≡ some (es, s'))
            × (version_of s'.nodes mac ≡ some v)
            × (cstr v ≡ version))))
registration env s buffer mac version old mem sent six short ended u =
    let (type, cmd, named, text) = register_msg_lem buffer mac version six in
    let sender = register_msg buffer mac version in
    let rest = read sender (15 + (length version + 1)) (15 - length version) in
    let split : 16 ≡ (length version + 1) + (15 - length version) = omega arith in
    let whole : version_in s.msg ≡ read sender 15 ((length version + 1) + (15 - length version)) =
      version_in-read s.msg sender sent ∙ ap (read sender 15) split in
    let found : (if bytes_eq mac mac then some (version_in s.msg) else version_of s.nodes mac)
        ≡ some (version_in s.msg) =
      rw (bytes_eq_refl mac) refl in
    let r =
      process_node_data-registers env s mac old mem (sent 6 (omega arith) ∙ type)
        (sent 7 (omega arith) ∙ cmd) u in
    (
      r.0,
      (
        r.1.0,
        (
          version_in s.msg,
          (
            r.1.1.0,
            r.1.1.1 mac ∙ found,
            ap cstr (
                  whole
                  ∙ read-append sender 15 (length version + 1) (15 - length version)
                  ∙ ap (λ t. t ++ rest) text
                  ∙ append_assoc version (0 ∷ []) rest)
                ∙ before_lem 0 version rest ended,
          ),
        ),
      ),
    )
