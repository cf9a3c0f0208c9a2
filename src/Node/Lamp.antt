-- ===== src/Node/Lamp.antt =====
-- The server's commands for the light of a node, from the message to the answer.
use esp32_mesh.Common.Runs.{if-Holds}
use esp32_mesh.Common.{◌<◌, ◌≡◌, refl, ap, ◌∙◌, [], ◌∷◌, Option, none, some, arith, ◌==◌}
use esp32_mesh.Common.Memory.{Store, poke, poke_self, poke_out}
use esp32_mesh.Effect.{mesh_write, feed_dog_in}
use esp32_mesh.Message.{set_header, set_header_fields}
use esp32_mesh.Light.{set_light_color, get_light_color}
use esp32_mesh.Photo.Node.Chunks.{node_send_pic_total}
use esp32_mesh.Node.Handlers.{
  NodeState, Surroundings, Outcome, node_handle_led, node_handle_ping_from_tcpserver,
}
use esp32_mesh.Node.Task.{on_request, on_message, of_sent, then_feed}
use mathlib.Core.Option

abbrev pub Ends : Option Outcome → Type 0
Ends r = (o : Outcome) × (r ≡ some o)

-- Every message that a node reads is handled to its end, whatever it holds and whatever the camera and
-- the mesh answer.
pub on_message_total : (env : Surroundings) (s : NodeState) → Ends (on_message env s)
unfolding on_message on_request
on_message_total env s =
    let (r, runs) = node_send_pic_total env.no_mem env.write env.camera s.msg in
    let photo = ap (Option.map (λ r. then_feed (of_sent s r))) runs in
    if-Holds Ends (s.msg 6 == 1)
      (if-Holds Ends (s.msg 7 == 2) (_, refl)
        (if-Holds Ends (s.msg 7 == 3) (then_feed (of_sent s r), photo)
          (if-Holds Ends (s.msg 7 == 4) (_, refl)
            (if-Holds Ends (s.msg 7 == 8) (_, refl)
              (if-Holds Ends (s.msg 7 == 9) (_, refl)
                (if-Holds Ends (s.msg 7 == 10) (_, refl) (_, refl)))))))
      (_, refl)

pub led_request :
    (env : Surroundings) (s : NodeState)
    → s.msg 6 ≡ 1
    → s.msg 7 ≡ 4
    → on_message env s ≡ some (then_feed (node_handle_led env s))
unfolding on_message on_request
led_request env s t c = ground (arith, t, c)

ping_request :
    (env : Surroundings) (s : NodeState)
    → s.msg 6 ≡ 1
    → s.msg 7 ≡ 8
    → on_message env s ≡ some (then_feed (node_handle_ping_from_tcpserver env s))
unfolding on_message on_request
ping_request env s t c = ground (arith, t, c)

-- A node that has been told a colour, as a byte, answers the next ping from the server with it: a
-- response to the ping, whose first byte is the colour.
pub ping_after_led :
    (env env' : Surroundings) (s : NodeState) (ping : Store)
    → s.msg 6 ≡ 1
    → s.msg 7 ≡ 4
    → s.msg 8 < 256
    → ping 6 ≡ 1
    → ping 7 ≡ 8
    → (o : Outcome) × (on_message env s ≡ some o)
      × ((o' : Outcome) × (on_message env' (record o.state { msg = ping }) ≡ some o')
          × ((answer : Store) × (o'.effects ≡ mesh_write none answer 1430 ∷ feed_dog_in 10 ∷ [])
              × (answer 6 ≡ 2)
              × (answer 7 ≡ 8)
              × (answer 8 ≡ s.msg 8)))
unfolding node_handle_led node_handle_ping_from_tcpserver set_light_color get_light_color
ping_after_led env env' s ping t c byte t' c' =
    let o = then_feed (node_handle_led env s) in
    let s' = record o.state { msg = ping } in
    let head = set_header ping 0 2 8 in
    let (a, b) = set_header_fields ping 0 2 8 (omega arith) (omega arith) in
    (
      o,
      led_request env s t c,
      (
        then_feed (node_handle_ping_from_tcpserver env' s'),
        ping_request env' s' t' c',
        (
          poke head 8 (s.msg 8),
          refl,
          poke_out head 8 (s.msg 8) 6 (omega arith) ∙ a,
          poke_out head 8 (s.msg 8) 7 (omega arith) ∙ b,
          poke_self head 8 (s.msg 8) byte,
        ),
      ),
    )
