-- ===== src/Root/Relay/Answer.antt =====
-- The light of a node switched by the server, and the node's answer on its way back to the server.
use mathlib.Core.Option
use mathlib.Core.List.{append_assoc}
use mathlib.Core.Option.{map}
use esp32_mesh.Common.{
  ℕ, ◌+◌, ◌<◌, ◌≡◌, refl, sym, ap, ◌∙◌, Bool, true, false, [], ◌∷◌, ◌++◌, none, some, arith, length,
  bytes_eq,
}
use esp32_mesh.Common.Memory.{Store, memset, poke, memcpy, memcpy_in, read}
use esp32_mesh.Effect.{at, mesh_write, send, feed_dog_in}
use esp32_mesh.Message.{
  set_header, set_header_out, set_header_fields, put_bytes, read-put_bytes, put_bytes_out,
}
use esp32_mesh.Light.{set_light_color}
use esp32_mesh.Light.Laws.{pins, set_light_color-pins}
use esp32_mesh.DevList.{Mac}
use esp32_mesh.Node.Handlers.{NodeState, Surroundings, Outcome, node_handle_led}
use esp32_mesh.Node.Task.{message, node_round, then_feed}
use esp32_mesh.Node.Lamp.{led_request}
use esp32_mesh.Root.State.{RootState, RootEnv}
use esp32_mesh.Root.FromNode.{process_node_data}
use esp32_mesh.Root.MeshTask.{MeshTask, MeshSeen, at_buffer, after_handler, read_phase}
use esp32_mesh.Root.MeshTask.Reading.{waiting, message_of, landed, landed_sent, read_phase-node}

-- A message with a header of 0xff, this type, command and first byte.
abbrev pub IsMessage : (type cmd value : ℕ) → Store → Type 0
IsMessage type cmd value m =
    ((a : ℕ) → a < 6 → m a ≡ 255) × (m 6 ≡ type) × (m 7 ≡ cmd) × (m 8 ≡ value)

set_header-IsMessage :
    (m : Store) (type cmd : ℕ)
    → type < 256
    → cmd < 256
    → IsMessage type cmd (m 8) (set_header m 0 type cmd)
unfolding set_header memset poke
set_header-IsMessage m type cmd t c =
    let fields = set_header_fields m 0 type cmd t c in
    (header m type cmd, fields.0, fields.1, set_header_out m 0 type cmd 8 (omega arith))
  where
    header : (m : Store) (type cmd a : ℕ) → a < 6 → set_header m 0 type cmd a ≡ 255
    header m type cmd a l = ground arith

-- A node that reads a request for its light sets it, drives the pins, and answers the root with the
-- colour.
node_round-light :
    (env : Surroundings) (s : NodeState) (src : Mac) (packet : Store) (colour : ℕ)
    → IsMessage 1 4 colour packet
    → (answer : Store) × ((s' : NodeState) × ((node_round s (message env false src packet 1430)
            ≡ some (pins colour ++ mesh_write none answer 1430 ∷ feed_dog_in 10 ∷ [], s'))
          × (s'.led ≡ colour)
          × IsMessage 2 4 colour answer))
unfolding node_round node_handle_led set_light_color
node_round-light env s src packet colour is =
    let m = memcpy s.msg 0 packet 0 1430 in
    let s1 = record s { msg = m } in
    let read_in : (a : ℕ) → a < 1430 → m a ≡ packet a = λ a l.
      memcpy_in s.msg 0 packet 0 1430 a (omega arith) (omega arith) ∙ ap packet (omega arith) in
    let told = read_in 8 (omega arith) ∙ is.3 in
    let o = then_feed (node_handle_led env s1) in
    let answer = set_header m 0 2 4 in
    let made = set_header-IsMessage m 2 4 (omega arith) (omega arith) in
    let sent = mesh_write none answer 1430 ∷ [] in
    (
      answer,
      (
        o.state,
        (
          ap (Option.map (λ (o : Outcome). (o.effects, o.state))) (
                led_request env s1 (read_in 6 (omega arith) ∙ is.1)
                  (read_in 7 (omega arith) ∙ is.2))
              ∙ ap (λ es. some (es, o.state))
                  (append_assoc (set_light_color (m 8)).1 sent (feed_dog_in 10 ∷ [])
                    ∙ ap (λ ps. ps ++ mesh_write none answer 1430 ∷ feed_dog_in 10 ∷ [])
                        (set_light_color-pins (m 8) ∙ ap pins told)),
          told,
          (made.0, made.1, made.2, made.3 ∙ told),
        ),
      ),
    )

process_node_data-light :
    (env : RootEnv) (s : RootState) (mac : Mac)
    → s.sock_open ≡ true
    → s.msg 12 ≡ 2
    → s.msg 13 ≡ 4
    → let m = put_bytes s.msg 0 mac in
      process_node_data env s mac ≡ some (send m 1436 ∷ [], record s { msg = m })
unfolding process_node_data
process_node_data-light env s mac opened t c = rw (opened, t, c) refl

-- The root passes a node's answer about its light on to the server.
read_phase-light :
    (seen : MeshSeen) (mem : Store) (errors : ℕ) (begun : Bool) (root : RootState) (last : ℕ)
    → (mac : Mac) (answer : Store) (colour : ℕ) → root.sock_open ≡ true
    → length mac ≡ 6
    → bytes_eq mac root.self_mac ≡ false
    → IsMessage 2 4 colour answer
    → (m : Store) × ((t : MeshTask) × ((read_phase
              (record seen { incoming = some (message_of mac answer) })
              (waiting mem errors begun root last)
            ≡ some (send m 1436 ∷ [], t))
          × (read m 0 6 ≡ mac)
          × ((a : ℕ) → a < 1430 → m (6 + a) ≡ answer a)))
read_phase-light seen mem errors begun root last mac answer colour opened six other is =
    let t = waiting (landed mem answer mac) errors begun root last in
    let s = at_buffer t in
    let at_node : (a : ℕ) → a < 1430 → s.msg (6 + a) ≡ answer a =
      λ a l. landed_sent mem answer mac a six l in
    let m = put_bytes s.msg 0 mac in
    let passed =
      process_node_data-light seen.env s mac opened (at_node 6 (omega arith) ∙ is.1)
        (at_node 7 (omega arith) ∙ is.2) in
    (
      m,
      (
        _,
        (
          read_phase-node seen mem errors begun root last mac answer other is.0
              ∙ ap (Option.map (after_handler t)) passed,
          address m six (read-put_bytes s.msg 0 mac),
          λ a l. put_bytes_out s.msg 0 mac (6 + a) (omega arith) ∙ at_node a l,
        ),
      ),
    )
  where
    address : (m : Store) → length mac ≡ 6 → read m 0 (length mac) ≡ mac → read m 0 6 ≡ mac
    address m six e = let size : 6 ≡ length mac = sym six in ap (read m 0) size ∙ e

-- A node that reads a message as the root passes it on, with a request for its light, sets the light to
-- the colour of the message, drives the pins of this colour, and answers; and the root, with an open
-- socket, another address than the node's 6 bytes, and its two pointers at the start of its buffer, as
-- they are where no photo is being gathered, sends one message to the server when it reads this answer:
-- the node's address, and behind it the answer to the request for the light, with the colour.
pub light_answered :
    (env : Surroundings) (s : NodeState) (src : Mac) (packet : Store) (colour : ℕ)
    → (seen : MeshSeen) (mem : Store) (errors : ℕ) (begun : Bool) (root : RootState) (last : ℕ)
    → (mac : Mac) → IsMessage 1 4 colour packet
    → root.sock_open ≡ true
    → length mac ≡ 6
    → bytes_eq mac root.self_mac ≡ false
    → (answer m : Store) × ((s' : NodeState) × ((t : MeshTask) × ((node_round s
                (message env false src packet 1430)
              ≡ some (pins colour ++ mesh_write none answer 1430 ∷ feed_dog_in 10 ∷ [], s'))
            × (s'.led ≡ colour)
            × (read_phase
                  (record seen { incoming = some (message_of mac answer) })
                  (waiting mem errors begun root last)
                ≡ some (send m 1436 ∷ [], t))
            × (read m 0 6 ≡ mac)
            × IsMessage 2 4 colour (at m 6))))
light_answered env s src packet colour seen mem errors begun root last mac is opened six other =
    let (answer, (s', (ran, lit, answers))) = node_round-light env s src packet colour is in
    let (m, (t, (sent, named, body))) =
      read_phase-light seen mem errors begun root last mac answer colour opened six other answers in
    (
      answer,
      m,
      (
        s',
        (
          t,
          (
            ran,
            lit,
            sent,
            named,
            (
              (λ a l. body a (omega arith) ∙ answers.0 a l),
              body 6 (omega arith) ∙ answers.1,
              body 7 (omega arith) ∙ answers.2,
              body 8 (omega arith) ∙ answers.3,
            ),
          ),
        ),
      ),
    )
