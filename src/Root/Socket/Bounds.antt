-- ===== src/Root/Socket/Bounds.antt =====
-- What the loop over the socket keeps, whatever the server sends.
use esp32_mesh.Common.{
  length-take_le, ℕ, ◌+◌, ◌-◌, ◌<◌, ◌≤◌, ◌≡◌, inl, inr, List, [], ◌∷◌, ◌++◌, Option, none, some,
  arith, length, length-append, take, leb, ltb, ◌==◌, ltb→lt, bytes_eq, if◌then◌else◌, Bool-cases,
}
use esp32_mesh.Common.Runs.{if-Holds}
use esp32_mesh.Common.Memory.{read}
use esp32_mesh.DevList.{Mac, check_node_is_exist}
use esp32_mesh.Root.MeshTask.{ServerMsg}
use esp32_mesh.Root.Socket.{
  SocketTask, SocketSeen, Found, select_failed, nothing, read_failed, stream, enqueue, dispatch_to,
  dispatch, closed, take_bytes, empty_read, after_read, restarted, on_found, socket_round,
  socket_rounds,
}

abbrev pub QueueFits : Option (List ServerMsg) → Type 0
QueueFits none = Unit {0}
QueueFits (some qs) = length qs ≤ 3

-- Less than a command is waited for, at most 20 empty reads are counted, and the queue has at most 3
-- commands.
pub record Inv (t : SocketTask) : Type 0 where
  pub waits : t.already < 101
  pub counts : t.maybe_close ≤ 20
  pub fits : QueueFits t.queue

abbrev SameCounts : SocketTask → SocketTask → Type 0
SameCounts t u = (u.already ≡ t.already) × (u.maybe_close ≡ t.maybe_close)

push-length :
    (qs : List ServerMsg) (q : ServerMsg)
    → length qs ≤ 3
    → length (if ltb (length qs) 3 then qs ++ q ∷ [] else qs) ≤ 3
push-length qs q h = elim (Bool-cases (ltb (length qs) 3)) [
  | inl room ↦ rw room (omega (arith, length-append qs (q ∷ []), ltb→lt (length qs) 3 room))
  | inr full ↦ rw full h
]

enqueue-Inv : (t : SocketTask) (dest : Option Mac) → Inv t → Inv (enqueue t dest)
enqueue-Inv t dest v = go t.queue v.fits
  where
    go : (o : Option (List ServerMsg)) → QueueFits o → Inv (enqueue (record t { queue = o }) dest)
    go none h = record { waits = v.waits; counts = v.counts; fits = tt }
    go (some qs) h = record { waits = v.waits; counts = v.counts; fits = push-length qs _ h }

dispatch-Inv : (seen : SocketSeen) (t : SocketTask) → Inv t → Inv (dispatch seen t)
unfolding dispatch_to
dispatch-Inv seen t v =
    if-Holds Inv (bytes_eq seen.self_mac (read t.buffer 0 6)) (enqueue-Inv t none v) (
      if-Holds Inv (check_node_is_exist seen.nodes (read t.buffer 0 6))
        (enqueue-Inv t (some (read t.buffer 0 6)) v) v)

closed-Inv : (t : SocketTask) → Inv t → Inv (closed t)
closed-Inv t v = record { waits = v.waits; counts = omega arith; fits = v.fits }

empty_read-Inv : (t : SocketTask) → Inv t → Inv (empty_read t)
unfolding empty_read
empty_read-Inv t v = elim (Bool-cases (ltb 20 (t.maybe_close + 1))) [
  | inl many ↦ rw many (closed-Inv t v)
  | inr few ↦
      rw few (record { waits = v.waits; counts = ground (arith, few, v.counts); fits = v.fits })
]

take_bytes-Inv :
    (seen : SocketSeen) (t : SocketTask) (got : List ℕ)
    → Inv t
    → length got ≤ 101 - t.already
    → Inv (take_bytes seen t got)
unfolding take_bytes
take_bytes-Inv seen t got v l = elim (Bool-cases (101 == (t.already + length got))) [
  | inl whole ↦
      rw whole
        (dispatch-Inv seen _ (record { waits = omega arith; counts = omega arith; fits = v.fits }))
  | inr part ↦
      rw part
        (record { waits = ground (arith, part, l, v.waits); counts = omega arith; fits = v.fits })
]

after_read-Inv :
    (seen : SocketSeen) (t : SocketTask) (got : List ℕ)
    → Inv t
    → length got ≤ 101 - t.already
    → Inv (after_read seen t got)
unfolding after_read
after_read-Inv seen t [] v l = dispatch-Inv seen (empty_read t) (empty_read-Inv t v)
after_read-Inv seen t (c ∷ got) v l = take_bytes-Inv seen t (c ∷ got) v l

restarted-Inv : (t : SocketTask) → Inv t → Inv (restarted t)
restarted-Inv t v =
    if-Holds Inv (leb 101 t.already) {x = record t { already = 0 }}
      (record { waits = omega arith; counts = v.counts; fits = v.fits }) v

on_found-Inv : (seen : SocketSeen) (t : SocketTask) (f : Found) → Inv t → Inv (on_found seen t f)
unfolding on_found
on_found-Inv seen t select_failed v = record { waits = v.waits; counts = v.counts; fits = v.fits }
on_found-Inv seen t nothing v = v
on_found-Inv seen t read_failed v =
    dispatch-Inv seen (closed (restarted t)) (closed-Inv (restarted t) (restarted-Inv t v))
on_found-Inv seen t (stream bytes) v =
    after_read-Inv seen (restarted t) (take (101 - (restarted t).already) bytes) (restarted-Inv t v)
      (length-take_le (101 - (restarted t).already) bytes)

pub socket_round-Inv : (seen : SocketSeen) (t : SocketTask) → Inv t → Inv (socket_round seen t).1
unfolding socket_round
socket_round-Inv seen t v =
    if-Holds Inv seen.device_ota v (if-Holds Inv t.sock_open (on_found-Inv seen t seen.found v) v)

-- Whatever the socket gives, round after round, less than a whole command is waited for, at most 20
-- empty reads are counted, and the queue has at most 3 commands, if that is so at first.
pub socket_rounds-Inv :
    (t : SocketTask) (rounds : List SocketSeen) → Inv t → Inv (socket_rounds t rounds).1
unfolding socket_rounds
socket_rounds-Inv t [] v = record { waits = v.waits; counts = v.counts; fits = v.fits }
socket_rounds-Inv t (seen ∷ rest) v =
    socket_rounds-Inv (socket_round seen t).1 rest (socket_round-Inv seen t v)
