-- ===== src/Root/Socket/Queueing.antt =====
-- What the loop over the socket does to the queue: each round leaves it, or sends one command to it.
use esp32_mesh.Common.{
  ℕ, ◌+◌, ◌-◌, ◌<◌, ◌≡◌, ◌∙◌, true, false, inl, inr, List, [], ◌∷◌, ◌++◌, Option, none, some, arith,
  length, take, leb, ltb, ◌==◌, bytes_eq, if◌then◌else◌, Bool-cases,
}
use esp32_mesh.Common.Runs.{if-Holds}
use esp32_mesh.Common.Memory.{Store, memcpy_out, memset, memset_in, read}
use esp32_mesh.DevList.{Mac, check_node_is_exist}
use esp32_mesh.Root.MeshTask.{ServerMsg}
use esp32_mesh.Root.Socket.{
  SocketTask, SocketSeen, Found, select_failed, nothing, read_failed, stream, queued_command,
  enqueue, dispatch_to, closed, take_bytes, empty_read, after_read, restarted, on_found,
  socket_round,
}

abbrev pub IsHeader : Store → Type 0
IsHeader c = (j : ℕ) → j < 6 → c j ≡ 255

-- A destination that a command may be given: the root itself, or another device that is in the list.
abbrev pub IsDest : SocketSeen → Option Mac → Type 0
IsDest seen none = Unit {0}
IsDest seen (some a) =
    (check_node_is_exist seen.nodes a ≡ true) × (bytes_eq seen.self_mac a ≡ false)

-- xQueueSend to a queue for 3 commands.
abbrev pub sent_to : List ServerMsg → ServerMsg → List ServerMsg
sent_to qs item = if ltb (length qs) 3 then qs ++ item ∷ [] else qs

-- A property of the queue that a command which may be given does not break.
abbrev pub Takes : SocketSeen → (Option (List ServerMsg) → Type 0) → Type 0
Takes seen Q =
    (qs : List ServerMsg) (item : ServerMsg)
    → IsHeader item.command
    → IsDest seen item.dest
    → Q (some qs)
    → Q (some (sent_to qs item))

queued-IsHeader : (local buffer : Store) → IsHeader (queued_command local buffer)
queued-IsHeader local buffer j l =
    memcpy_out (memset local 0 255 6) 6 _ 6 95 j (omega arith)
    ∙ memset_in local 0 255 6 j (omega arith) (omega arith)

module _ (seen : SocketSeen) (Q : Option (List ServerMsg) → Type 0) (takes : Takes seen Q) where
  abbrev Keeps : SocketTask → Type 0
  Keeps t = Q t.queue

  enqueue-Keeps :
      (t : SocketTask) (dest : Option Mac) → IsDest seen dest → Keeps t → Keeps (enqueue t dest)
  enqueue-Keeps t dest to h = go t.queue h
    where
      go : (o : Option (List ServerMsg)) → Q o → Keeps (enqueue (record t { queue = o }) dest)
      go none q = q
      go (some qs) q = takes qs _ (queued-IsHeader t.local t.buffer) to q

  dispatch-Keeps : (t : SocketTask) (header : Mac) → Keeps t → Keeps (dispatch_to seen t header)
  unfolding dispatch_to
  dispatch-Keeps t header h = elim (Bool-cases (bytes_eq seen.self_mac header)) [
    | inl mine ↦ rw mine (enqueue-Keeps t none tt h)
    | inr other ↦ elim (Bool-cases (check_node_is_exist seen.nodes header)) [
      | inl known ↦ rw (other, known) (enqueue-Keeps t (some header) (known, other) h)
      | inr unknown ↦ rw (other, unknown) h
    ]
  ]

  after_read-Keeps : (t : SocketTask) (got : List ℕ) → Keeps t → Keeps (after_read seen t got)
  unfolding after_read empty_read take_bytes
  after_read-Keeps t [] h = dispatch-Keeps (empty_read t) (read (empty_read t).buffer 0 6) (
      if-Holds Keeps (ltb 20 (t.maybe_close + 1)) {x = closed t}
        {y = record t { maybe_close = t.maybe_close + 1 }} h h)
  after_read-Keeps t (c ∷ got) h =
      if-Holds Keeps (101 == (t.already + length (c ∷ got))) (dispatch-Keeps _ _ h) h

  on_found-Keeps : (t : SocketTask) (f : Found) → Keeps t → Keeps (on_found seen t f)
  unfolding on_found
  on_found-Keeps t select_failed h = h
  on_found-Keeps t nothing h = h
  on_found-Keeps t read_failed h =
      dispatch-Keeps (closed (restarted t)) _
        (if-Holds Keeps (leb 101 t.already) {x = record t { already = 0 }} {y = t} h h)
  on_found-Keeps t (stream bytes) h =
      after_read-Keeps (restarted t) (take (101 - (restarted t).already) bytes)
        (if-Holds Keeps (leb 101 t.already) {x = record t { already = 0 }} {y = t} h h)

  pub socket_round-Keeps : (t : SocketTask) → Keeps t → Keeps (socket_round seen t).1
  unfolding socket_round
  socket_round-Keeps t h =
      if-Holds Keeps seen.device_ota h
        (if-Holds Keeps t.sock_open (on_found-Keeps t seen.found h) h)
