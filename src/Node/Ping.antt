-- ===== src/Node/Ping.antt =====
-- When a node registers with the root, and what it sends.
use esp32_mesh.Common.{
  ℕ, zero, suc, ◌+◌, ◌*◌, ◌<◌, ◌≤◌, ◌≡◌, refl, sym, ap, ◌∙◌, inl, inr, ◌⊎◌, ◌≢◌, ne→==, true, false,
  not, List, [], ◌∷◌, ◌++◌, arith, length, length-append, bytes_eq, bytes_eq_iff, if◌then◌else◌,
  Bool-cases, dec_lt,
}
use esp32_mesh.Common.Memory.{
  Store, read, memcpy_out, read-memcpy, read-memcpy_out, of_bytes, poke, poke_out,
}
use esp32_mesh.Wire.RootPing
use esp32_mesh.Effect.{mesh_write}
use esp32_mesh.Common.{none}
use esp32_mesh.Message.{
  set_header, set_header_fields, put_text, put_bytes, read-put_bytes, read-of_bytes,
}
use esp32_mesh.Node.Handlers.{
  NodeState, Surroundings, is_listed, register_msg, node_handle_ping_from_root,
}

-- The ping names this address among its first `n`, from number `i` on.
abbrev pub Names : ℕ → ℕ → Store → List ℕ → Type 0
Names n i msg mac = (j : ℕ) × (i ≤ j) × (j < i + n) × (mac ≡ read msg (RootPing.node_mac + 6 * j) 6)

-- The loop over the addresses of a ping finds the node's own exactly where the ping names it.
pub is_listed-Names :
    (n i : ℕ) (msg : Store) (mac : List ℕ)
    → (is_listed n i msg mac ≡ true → Names n i msg mac)
      × (Names n i msg mac → is_listed n i msg mac ≡ true)
unfolding is_listed
is_listed-Names zero i msg mac = ((λ h. cc), λ w. absurd (omega (arith, w.1, w.2)))
is_listed-Names (suc n) i msg mac =
    let here = read msg (RootPing.node_mac + 6 * i) 6 in
    elim (Bool-cases (bytes_eq mac here)) [
      | inl hit ↦
          rw hit ((λ h. (i, omega arith, omega arith, (bytes_eq_iff mac here).0 hit)), λ w. refl)
      | inr miss ↦ rw miss (
        (λ h.
            let (j, a, b, e) = (is_listed-Names n (i + 1) msg mac).0 h in
            (j, omega (arith, a), omega (arith, b), e)),
        λ w. (is_listed-Names n (i + 1) msg mac).1 (w.0, later w miss, omega (arith, w.2), w.3),
      )
    ]
  where
    later :
        (w : Names (suc n) i msg mac)
        → bytes_eq mac (read msg (RootPing.node_mac + 6 * i) 6) ≡ false
        → i + 1 ≤ w.0
    later w miss = elim (dec_lt i w.0) [
      | yes p ↦ omega arith
      | no p ↦
          let e : w.0 ≡ i = omega (arith, w.1) in
          absurd (
            cc (
              miss,
              (bytes_eq_iff mac (read msg (RootPing.node_mac + 6 * i) 6)).1
                  (w.3 ∙ ap (λ k. read msg (RootPing.node_mac + 6 * k) 6) e),
            ))
    ]

-- The registration of a node with an address of 6 bytes is a request to register a node, with the
-- address and, as a text with its end, the version, in the places that `device_version_t` gives
-- them.
pub register_msg_lem :
    (msg : Store) (self_mac version : List ℕ)
    → length self_mac ≡ 6
    → let m = register_msg msg self_mac version in
      (m 6 ≡ 1)
      × (m 7 ≡ 6)
      × (read m 9 6 ≡ self_mac)
      × (read m 15 (length version + 1) ≡ version ++ 0 ∷ [])
unfolding register_msg put_text put_bytes
register_msg_lem msg self_mac version six =
    let head = set_header msg 0 1 6 in
    let flag = poke head 8 1 in
    let addr = put_bytes flag 9 self_mac in
    let text = version ++ 0 ∷ [] in
    let (t, c) = set_header_fields msg 0 1 6 (omega arith) (omega arith) in
    let ends : length version + 1 ≡ length text = omega (arith, length-append version (0 ∷ [])) in
    (
      memcpy_out addr 15 _ 0 _ 6 (omega arith)
          ∙ memcpy_out flag 9 _ 0 _ 6 (omega arith)
          ∙ poke_out head 8 1 6 (omega arith)
          ∙ t,
      memcpy_out addr 15 _ 0 _ 7 (omega arith)
          ∙ memcpy_out flag 9 _ 0 _ 7 (omega arith)
          ∙ poke_out head 8 1 7 (omega arith)
          ∙ c,
      read-memcpy_out addr 15 _ 0 _ 9 6 (omega arith)
          ∙ ap (read addr 9) (sym six)
          ∙ read-put_bytes flag 9 self_mac,
      read-memcpy addr 15 (of_bytes text) 0 (length version + 1) 0 (length version + 1)
            (omega arith)
          ∙ ap (read (of_bytes text) 0) ends
          ∙ read-of_bytes text,
    )

-- A ping of a kind that asks the nodes to register: of the root for a new device, or of every 8 seconds.
abbrev pub Asks : NodeState → Type 0
Asks s = (s.msg RootPing.force ≡ 1) ⊎ (s.msg RootPing.force ≡ 3)

-- The ping in the buffer is from the root that the node remembers.
abbrev pub IsKnownRoot : NodeState → Type 0
IsKnownRoot s = s.root_mac ≡ read s.msg RootPing.root_mac 6

-- It names the node.
abbrev pub IsNamed : NodeState → Type 0
IsNamed s = Names (s.msg RootPing.node_count) 0 s.msg s.self_mac

-- What the node calls, where the ping asks.
asked_effects :
    (env : Surroundings) (s : NodeState)
    → Asks s
    → let o = node_handle_ping_from_root env s in
      let sent = mesh_write none (register_msg s.msg s.self_mac env.device_version) 1430 ∷ [] in
      (o.effects ≡ (
        if not (bytes_eq s.root_mac (read s.msg RootPing.root_mac 6))
        then sent
        else (if is_listed (s.msg RootPing.node_count) 0 s.msg s.self_mac then [] else sent)))
      × (o.state.root_mac ≡ read s.msg RootPing.root_mac 6)
unfolding node_handle_ping_from_root
asked_effects env s asks =
    let same = bytes_eq_iff s.root_mac (read s.msg RootPing.root_mac 6) in
    (ground (arith, asks), ground (arith, asks, same))

silent_effects :
    (env : Surroundings) (s : NodeState)
    → ¬ Asks s
    → let o = node_handle_ping_from_root env s in (o.effects ≡ []) × (o.state.root_mac ≡ s.root_mac)
unfolding node_handle_ping_from_root
silent_effects env s silent =
    let one : s.msg RootPing.force ≢ 1 = λ e. silent (inl e) in
    let three : s.msg RootPing.force ≢ 3 = λ e. silent (inr e) in
    rw (ne→== (s.msg RootPing.force) 1 one, ne→== (s.msg RootPing.force) 3 three) (refl, refl)

-- A ping that makes the node register.
registers :
    (env : Surroundings) (s : NodeState)
    → Asks s
    → (¬ IsKnownRoot s) ⊎ (¬ IsNamed s)
    → (node_handle_ping_from_root env s).effects
      ≡ mesh_write none (register_msg s.msg s.self_mac env.device_version) 1430 ∷ []
registers env s asks (inl new) = elim (Bool-cases (bytes_eq s.root_mac (read s.msg 9 6))) [
  | inl same ↦ absurd (new ((bytes_eq_iff s.root_mac (read s.msg 9 6)).0 same))
  | inr other ↦ (asked_effects env s asks).0 ∙ (rw other refl)
]
registers env s asks (inr unnamed) = elim (Bool-cases (is_listed (s.msg 15) 0 s.msg s.self_mac)) [
  | inl hit ↦ absurd (unnamed ((is_listed-Names (s.msg 15) 0 s.msg s.self_mac).0 hit))
  | inr miss ↦ (asked_effects env s asks).0 ∙ (rw miss (ground arith))
]

keeps_still :
    (env : Surroundings) (s : NodeState)
    → Asks s
    → IsKnownRoot s
    → IsNamed s
    → (node_handle_ping_from_root env s).effects ≡ []
keeps_still env s asks known named =
    let same = (bytes_eq_iff s.root_mac (read s.msg 9 6)).1 known in
    let hit = (is_listed-Names (s.msg 15) 0 s.msg s.self_mac).1 named in
    (asked_effects env s asks).0 ∙ (rw (same, hit) refl)

handle_ping_keeps :
    (env : Surroundings) (s : NodeState)
    → let o = node_handle_ping_from_root env s in
      (o.state.self_mac ≡ s.self_mac) × (o.state.led ≡ s.led) × (o.state.files ≡ s.files)
unfolding node_handle_ping_from_root
handle_ping_keeps env s = (ground arith, ground arith, ground arith)

-- What a node with an address of 6 bytes makes of a ping of the root that has at most 235 addresses,
-- which is what a message has room for. A ping of a kind that asks, and that is from another root than
-- the node remembers or names no address that is the node's, makes it send one message to the root and
-- do no more: a request to register a node, with the node's address and, as a text with its end, its
-- version, which fits the message. A ping that asks, from the known root and with the node's address
-- among those it names, and a ping of another kind make it call nothing. The node then remembers the
-- root of a ping that asks; its address, its light and its settings stay.
pub node_handle_ping_from_root_lem :
    (env : Surroundings) (s : NodeState)
    → length s.self_mac ≡ 6
    → length env.device_version ≤ 1414
    → s.msg RootPing.node_count ≤ 235
    → let o = node_handle_ping_from_root env s in
      let size = length env.device_version + 1 in
      (Asks s
        → (¬ IsKnownRoot s) ⊎ (¬ IsNamed s)
        → (m : Store) × ((o.effects ≡ mesh_write none m 1430 ∷ [])
            × (m 6 ≡ 1)
            × (m 7 ≡ 6)
            × (read m 9 6 ≡ s.self_mac)
            × (read m 15 size ≡ env.device_version ++ 0 ∷ [])
            × (15 + size ≤ 1430)))
      × (Asks s → IsKnownRoot s → IsNamed s → o.effects ≡ [])
      × (Asks s → o.state.root_mac ≡ read s.msg RootPing.root_mac 6)
      × (¬ Asks s → (o.effects ≡ []) × (o.state.root_mac ≡ s.root_mac))
      × (o.state.self_mac ≡ s.self_mac)
      × (o.state.led ≡ s.led)
      × (o.state.files ≡ s.files)
node_handle_ping_from_root_lem env s six short few =
    let told = register_msg_lem s.msg s.self_mac env.device_version six in
    let kept = handle_ping_keeps env s in
    (
      (λ asks must. (
        register_msg s.msg s.self_mac env.device_version,
        (registers env s asks must, told.0, told.1, told.2, told.3, omega arith),
      )),
      keeps_still env s,
      (λ asks. (asked_effects env s asks).1),
      silent_effects env s,
      kept.0,
      kept.1,
      kept.2,
    )
