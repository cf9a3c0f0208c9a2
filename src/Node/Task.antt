-- ===== src/Node/Task.antt =====
-- `node_task` of main/node_task.c: the loop that reads messages and hands them out.
use esp32_mesh.Common.{
  ℕ, Bool, true, false, List, [], ◌∷◌, ◌++◌, Option, none, some, ◌==◌, if◌then◌else◌,
}
use mathlib.Core.Option
use esp32_mesh.Common.Memory.{Store, memcpy}
use esp32_mesh.Wire.BusCmd
use esp32_mesh.Wire.BusType
use esp32_mesh.Wire.Msg
use esp32_mesh.Effect.{Effect, feed_dog_in, upgrade}
use esp32_mesh.Photo.Node.{Sent, node_send_pic, mdf_ok}
use esp32_mesh.Node.Handlers.{
  NodeState, Surroundings, Outcome, node_handle_led, node_handle_ping_from_tcpserver,
  node_handle_switch, node_handle_ping_from_root,
}

-- The outcome of a handler, and the `period_feed_dog_in_second(10)` behind it.
abbrev pub then_feed : Outcome → Outcome
then_feed o = record o { effects = o.effects ++ feed_dog_in 10 ∷ [] }

abbrev pub of_sent : NodeState → Sent → Outcome
of_sent s r = record { ret = r.ret; effects = r.effects; state = record s { msg = r.msg } }

abbrev pub quiet : NodeState → Outcome
quiet s = record { ret = mdf_ok; effects = []; state = s }

-- The switch on `cmd` of a request, lines 263 to 315. The results of the handlers are only logged.
-- `none` would be a photo loop without an end.
unfoldable pub on_request : Surroundings → NodeState → ℕ → Option Outcome
on_request env s cmd =
    if cmd == BusCmd.restart
    then some (record { ret = mdf_ok; effects = feed_dog_in 0 ∷ feed_dog_in 0 ∷ []; state = s })
    else (if cmd == BusCmd.pic
        then Option.map (λ r. then_feed (of_sent s r))
            (node_send_pic env.no_mem env.write env.camera s.msg)
        else (if cmd == BusCmd.led
            then some (then_feed (node_handle_led env s))
            else (if cmd == BusCmd.ping
                then some (then_feed (node_handle_ping_from_tcpserver env s))
                else (if cmd == BusCmd.switch
                    then some (then_feed (node_handle_switch env s))
                    else (if cmd == BusCmd.root_send_ping
                        then some (then_feed (node_handle_ping_from_root env s))
                        else some (quiet s))))))

-- Lines 259 to 321: a message that is no request is only logged.
unfoldable pub on_message : Surroundings → NodeState → Option Outcome
on_message env s =
    if s.msg Msg.type == BusType.request then on_request env s (s.msg Msg.cmd) else some (quiet s)

-- What a round of the loop finds: the mesh gone or this node the root (the loop ends), no message, or a
-- message of `size` bytes, which may be a part of an upgrade.
pub data Round : Type 0 where
  disconnected became_root nothing : Round
  message : Surroundings → (is_upgrade : Bool) → (src : List ℕ) → Store → (size : ℕ) → Round

-- A round: `none` where the loop ends, else the calls made and the state after it.
unfoldable pub node_round : NodeState → Round → Option (List Effect × NodeState)
node_round s disconnected = none
node_round s became_root = none
node_round s nothing = some ([], s)
node_round s (message env true src p size) =
    let s1 = record s { msg = memcpy s.msg 0 p 0 size } in some (upgrade src s1.msg size ∷ [], s1)
node_round s (message env false src p size) =
    Option.map (λ (o : Outcome). (o.effects, o.state))
      (on_message env (record s { msg = memcpy s.msg 0 p 0 size }))

-- `node_task`: the rounds until one ends the loop; what is left of them is never run.
unfoldable pub node_task : NodeState → List Round → List Effect × NodeState
node_task s [] = ([], s)
node_task s (r ∷ rs) = elim (node_round s r) [
  | none ↦ ([], s)
  | some (e, s') ↦ let (es, s2) = node_task s' rs in (e ++ es, s2)
]
