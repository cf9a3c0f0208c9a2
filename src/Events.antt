-- ===== src/Events.antt =====
-- `event_loop_cb` of main/router.c: which tasks the events of the mesh start, and what they put on the
-- queues MeshQueue and tcpQueue, which app_main makes for three messages each.
pub mod Laws
pub mod Queues
pub mod Departures
pub mod Arrivals
mod Tests
use esp32_mesh.Common.{
  ℕ, Bool, true, false, not, ◌&&◌, List, [], ◌∷◌, ◌++◌, Option, none, some, length, leb, ltb,
  if◌then◌else◌,
}
use esp32_mesh.Wire.QueueMsg
use esp32_mesh.Effect.{Effect}
use esp32_mesh.Watchdog.{feed_dog}

-- The events of the switch; of MDF_EVENT_MUPGRADE_STATUS the progress in percent.
pub data Event : Type 0 where
  started parent_connected parent_disconnected routing_table_add routing_table_remove : Event
  root_got_ip mupgrade_started other : Event
  mupgrade_status : ℕ → Event

pub data Task : Type 0 where
  node_task tcp_client_read_task root_mesh_read_task : Task

-- The handles of the two tasks of the root, as whether they are set, and the queues, `none` before they
-- are made.
pub record EventState : Type 0 where
  pub tcp_task : Bool
  pub mesh_task : Bool
  pub mesh_queue : Option (List ℕ)
  pub tcp_queue : Option (List ℕ)

-- What the surroundings answer during an event: whether this device is the root, what
-- getNodeTaskRunStatus gives, and whether there is memory for a task; and whether the two tasks of the
-- root have come to their end since the event before.
pub record Seen : Type 0 where
  pub is_root : Bool
  pub node_running : Bool
  pub creates : Task → Bool
  pub tcp_ended : Bool
  pub mesh_ended : Bool

abbrev pub queue_size : ℕ
queue_size = 3

-- if (queue) xQueueSend(queue, &qmsg, 0): a message for a full queue is dropped.
abbrev pub send_to : Option (List ℕ) → ℕ → Option (List ℕ)
send_to none cmd = none
send_to (some q) cmd = if ltb (length q) queue_size then some (q ++ cmd ∷ []) else some q

-- xTaskCreatePinnedToCore
abbrev pub start : Seen → Task → Bool → List Task
start seen t wanted = if wanted && seen.creates t then t ∷ [] else []

-- What an event does: the tasks it starts, the calls, and the new state.
pub record Reaction : Type 0 where
  pub tasks : List Task
  pub effects : List Effect
  pub state : EventState

abbrev pub nothing : EventState → Reaction
nothing s = record { tasks = []; effects = []; state = s }

-- `event_loop_cb(event, ctx)`
unfoldable pub event_loop_cb : Seen → EventState → Event → Reaction
event_loop_cb seen s started = nothing s
event_loop_cb seen s parent_connected = record (nothing s) {
  tasks = start seen node_task (not seen.is_root && not seen.node_running);
}
event_loop_cb seen s parent_disconnected = nothing s
event_loop_cb seen s routing_table_add =
    nothing (record s { mesh_queue = send_to s.mesh_queue QueueMsg.node_add })
event_loop_cb seen s routing_table_remove =
    nothing (record s { tcp_queue = send_to s.tcp_queue QueueMsg.node_remove })
event_loop_cb seen s root_got_ip =
    let tcp = start seen tcp_client_read_task (not s.tcp_task) in
    let mesh = start seen root_mesh_read_task (not s.mesh_task) in
    if seen.is_root
    then record {
      tasks = tcp ++ mesh;
      effects = [];
      state = record s {
        tcp_task = if s.tcp_task then true else seen.creates tcp_client_read_task;
        mesh_task = if s.mesh_task then true else seen.creates root_mesh_read_task;
      };
    }
    else nothing s
event_loop_cb seen s mupgrade_started = nothing s
event_loop_cb seen s (mupgrade_status percent) = record (nothing s) {
  effects = if leb 100 percent then feed_dog ++ (feed_dog ++ feed_dog) else [];
}
event_loop_cb seen s other = nothing s

-- A task of the root that comes to its end sets its handle back to NULL.
abbrev pub cleared : Seen → EventState → EventState
cleared seen s = record s {
  tcp_task = if seen.tcp_ended then false else s.tcp_task;
  mesh_task = if seen.mesh_ended then false else s.mesh_task;
}

-- A sequence of events, each with what is seen at its time, behind what has ended before it.
pub event_loop : EventState → List (Seen × Event) → List Task × EventState
unfolding event_loop_cb
event_loop s [] = ([], s)
event_loop s (e ∷ es) =
    let r = event_loop_cb e.0 (cleared e.0 s) e.1 in
    let rest = event_loop r.state es in (r.tasks ++ rest.0, rest.1)
