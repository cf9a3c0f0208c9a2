-- ===== src/Events/Queues.antt =====
-- What is on the queues of the mesh's events: the messages that only one event sends.
use esp32_mesh.Common.{ℕ, ◌≡◌, refl, ap, List, [], ◌∷◌, ◌++◌, Option, none, some, length, ltb}
use esp32_mesh.Common.Runs.{if-Holds}
use esp32_mesh.Events.{
  cleared, Event, EventState, Seen, Reaction, send_to, event_loop_cb, event_loop, started,
  parent_connected, parent_disconnected, routing_table_add, routing_table_remove, root_got_ip,
  mupgrade_started, other, mupgrade_status,
}

-- All messages of a queue that has been made are this one.
abbrev pub AllOf : ℕ → Option (List ℕ) → Type 0
AllOf cmd none = ⊥
AllOf cmd (some []) = Unit {0}
AllOf cmd (some (x ∷ xs)) = (x ≡ cmd) × AllOf cmd (some xs)

-- The first message, which the loop over the mesh takes.
abbrev pub first_of : Option (List ℕ) → Option ℕ
first_of none = none
first_of (some []) = none
first_of (some (x ∷ xs)) = some x

-- Such a message waits.
abbrev pub IsWaiting : ℕ → Option (List ℕ) → Type 0
IsWaiting cmd o = AllOf cmd o × (first_of o ≡ some cmd)

append-AllOf : (cmd : ℕ) (q : List ℕ) → AllOf cmd (some q) → AllOf cmd (some (q ++ cmd ∷ []))
append-AllOf cmd [] h = (refl, tt)
append-AllOf cmd (x ∷ xs) h = (h.0, append-AllOf cmd xs h.1)

pub send_to-AllOf : (cmd : ℕ) (o : Option (List ℕ)) → AllOf cmd o → AllOf cmd (send_to o cmd)
send_to-AllOf cmd none h = h
send_to-AllOf cmd (some q) h =
    if-Holds (AllOf cmd) (ltb (length q) 3) {x = some (q ++ cmd ∷ [])} {y = some q}
      (append-AllOf cmd q h) h

send_to-first : (cmd : ℕ) (o : Option (List ℕ)) → AllOf cmd o → first_of (send_to o cmd) ≡ some cmd
send_to-first cmd none h = absurd h
send_to-first cmd (some []) h = refl
send_to-first cmd (some (x ∷ xs)) h =
    if-Holds (λ o. first_of o ≡ some cmd) (ltb (length (x ∷ xs)) 3)
      {x = some (x ∷ (xs ++ cmd ∷ []))} {y = some (x ∷ xs)} (ap some h.0) (ap some h.0)

pub send_to-IsWaiting :
    (cmd : ℕ) (o : Option (List ℕ)) → AllOf cmd o → IsWaiting cmd (send_to o cmd)
send_to-IsWaiting cmd o h = (send_to-AllOf cmd o h, send_to-first cmd o h)

-- A property of MeshQueue and tcpQueue that what is sent to them does not break.
pub record IsSent (P : Option (List ℕ) → Option (List ℕ) → Type 0) : Type 0 where
  pub add : (m t : Option (List ℕ)) → P m t → P (send_to m 1) t
  pub remove : (m t : Option (List ℕ)) → P m t → P m (send_to t 2)

module _ (P : Option (List ℕ) → Option (List ℕ) → Type 0) (p : IsSent P) where
  abbrev On : EventState → Type 0
  On s = P s.mesh_queue s.tcp_queue

  pub event_loop_cb-Keeps :
      (seen : Seen) (s : EventState) (e : Event) → On s → On (event_loop_cb seen s e).state
  unfolding event_loop_cb
  event_loop_cb-Keeps seen s started h = h
  event_loop_cb-Keeps seen s parent_connected h = h
  event_loop_cb-Keeps seen s parent_disconnected h = h
  event_loop_cb-Keeps seen s routing_table_add h = p.add s.mesh_queue s.tcp_queue h
  event_loop_cb-Keeps seen s routing_table_remove h = p.remove s.mesh_queue s.tcp_queue h
  event_loop_cb-Keeps seen s root_got_ip h =
      if-Holds (λ (r : Reaction). On r.state) seen.is_root h h
  event_loop_cb-Keeps seen s mupgrade_started h = h
  event_loop_cb-Keeps seen s (mupgrade_status n) h = h
  event_loop_cb-Keeps seen s other h = h

  pub event_loop-Keeps : (s : EventState) (es : List (Seen × Event)) → On s → On (event_loop s es).1
  unfolding event_loop
  event_loop-Keeps s [] h = h
  event_loop-Keeps s (e ∷ es) h =
      event_loop-Keeps (event_loop_cb e.0 (cleared e.0 s) e.1).state es
        (event_loop_cb-Keeps e.0 (cleared e.0 s) e.1 h)

-- Once an event has led from `P` to `R`, which later events keep, `R` holds at the end.
pub event_loop-Reaches :
    (P R : Option (List ℕ) → Option (List ℕ) → Type 0)
    → IsSent P
    → IsSent R
    → (e : Event)
    → ((seen : Seen) (s : EventState)
        → P s.mesh_queue s.tcp_queue
        → let s' = (event_loop_cb seen s e).state in R s'.mesh_queue s'.tcp_queue)
    → (s : EventState) (before after : List (Seen × Event)) (seen : Seen)
    → P s.mesh_queue s.tcp_queue
    → let s' = (event_loop s (before ++ (seen, e) ∷ after)).1 in R s'.mesh_queue s'.tcp_queue
unfolding event_loop
event_loop-Reaches P R p r e leads s [] after seen h =
    event_loop-Keeps R r (event_loop_cb seen (cleared seen s) e).state after
      (leads seen (cleared seen s) h)
event_loop-Reaches P R p r e leads s (b ∷ before) after seen h =
    event_loop-Reaches P R p r e leads (event_loop_cb b.0 (cleared b.0 s) b.1).state before after
      seen (event_loop_cb-Keeps P p b.0 (cleared b.0 s) b.1 h)
