-- ===== src/Root/Socket/Silence.antt =====
-- What the loop over the socket does when the server has closed the connection: `read` then gives
-- nothing at once, every time.
use esp32_mesh.Common.{
  ℕ, zero, suc, ◌+◌, ◌<◌, ◌≤◌, ◌≡◌, refl, sym, ap, ◌∙◌, true, false, inl, inr, List, [], ◌∷◌, ◌++◌,
  Option, none, some, arith, length, take, ◌-◌, leb, ltb, lt→ltb, bytes_eq, if◌then◌else◌,
  Bool-cases, dec_lt,
}
use esp32_mesh.Common.Memory.{Store, read}
use mathlib.Core.List.{append-nil}
use esp32_mesh.DevList.{Mac, check_node_is_exist}
use esp32_mesh.Root.MeshTask.{ServerMsg}
use esp32_mesh.Root.Socket.{
  SocketTask, SocketSeen, stream, queued_command, enqueue, dispatch_to, dispatch, closed,
  empty_read, after_read, on_found, restarted, socket_round,
}
use esp32_mesh.Root.Socket.Commands.{between, queued_for}

-- What handing a command out leaves alone.
enqueue_keeps :
    (t : SocketTask) (dest : Option Mac)
    → ((enqueue t dest).sock_open ≡ t.sock_open) × ((enqueue t dest).maybe_close ≡ t.maybe_close)
enqueue_keeps t dest = go t.queue
  where
    go :
        (o : Option (List ServerMsg))
        → ((enqueue (record t { queue = o }) dest).sock_open ≡ t.sock_open)
          × ((enqueue (record t { queue = o }) dest).maybe_close ≡ t.maybe_close)
    go none = (refl, refl)
    go (some qs) = (refl, refl)

dispatch_to_keeps :
    (seen : SocketSeen) (t : SocketTask) (header : Mac)
    → let u = dispatch_to seen t header in
      (u.sock_open ≡ t.sock_open) × (u.maybe_close ≡ t.maybe_close)
unfolding dispatch_to
dispatch_to_keeps seen t header = elim (Bool-cases (bytes_eq seen.self_mac header)) [
  | inl mine ↦ rw mine (enqueue_keeps t none)
  | inr other ↦ elim (Bool-cases (check_node_is_exist seen.nodes header)) [
    | inl known ↦ rw (other, known) (enqueue_keeps t (some header))
    | inr unknown ↦ rw (other, unknown) (refl, refl)
  ]
]

-- The rounds that find the end of the stream.
abbrev pub empty_reads : ℕ → SocketSeen → SocketTask → SocketTask
empty_reads zero seen t = t
empty_reads (suc n) seen t = empty_reads n seen (socket_round seen t).1

abbrev pub AtEnd : SocketSeen → Type 0
AtEnd seen = (seen.device_ota ≡ false) × (seen.found ≡ stream [])

take-nil : (n : ℕ) → ◌≡◌ {A = List ℕ} (take n []) []
take-nil zero = refl
take-nil (suc n) = refl

empty_step :
    (seen : SocketSeen) (t : SocketTask)
    → AtEnd seen
    → t.sock_open ≡ true
    → (socket_round seen t).1 ≡ dispatch seen (empty_read (restarted t))
unfolding socket_round on_found after_read
empty_step seen t ends up =
    ap (λ b. if b then t else (if t.sock_open then on_found seen t seen.found else t)) ends.0
    ∙ ap (λ b. if b then on_found seen t seen.found else t) up
    ∙ ap (on_found seen t) ends.1
    ∙ ap (after_read seen (restarted t)) (take-nil (101 - (restarted t).already))

restarted_keeps :
    (t : SocketTask)
    → ((restarted t).sock_open ≡ t.sock_open) × ((restarted t).maybe_close ≡ t.maybe_close)
restarted_keeps t = elim (Bool-cases (leb 101 t.already)) [
  | inl full ↦ rw full (refl, refl)
  | inr part ↦ rw part (refl, refl)
]

empty_read_lem :
    (t : SocketTask)
    → t.sock_open ≡ true
    → ((empty_read t).sock_open ≡ leb (t.maybe_close + 1) 20)
      × ((empty_read t).maybe_close ≡ (if ltb 20 (t.maybe_close + 1) then 0 else t.maybe_close + 1))
unfolding empty_read
empty_read_lem t up = (ground (arith, up), ground (arith, up))

-- One such round on an open socket.
empty_round :
    (seen : SocketSeen) (t : SocketTask)
    → AtEnd seen
    → t.sock_open ≡ true
    → let u = (socket_round seen t).1 in
      (u.sock_open ≡ leb (t.maybe_close + 1) 20)
      × (u.maybe_close ≡ (if ltb 20 (t.maybe_close + 1) then 0 else t.maybe_close + 1))
empty_round seen t ends up =
    let r = restarted t in
    let step = empty_step seen t ends up in
    let kept = restarted_keeps t in
    let out = dispatch_to_keeps seen (empty_read r) (read (empty_read r).buffer 0 6) in
    let read_ = empty_read_lem r (kept.0 ∙ up) in
    (
      ap (λ (u : SocketTask). u.sock_open) step ∙ out.0 ∙ read_.0 ∙ ap (λ k. leb (k + 1) 20) kept.1,
      ap (λ (u : SocketTask). u.maybe_close) step
          ∙ out.1
          ∙ read_.1
          ∙ ap (λ k. if ltb 20 (k + 1) then 0 else k + 1) kept.1,
    )

closed_stays :
    (n : ℕ) (seen : SocketSeen) (t : SocketTask)
    → t.sock_open ≡ false
    → (empty_reads n seen t).sock_open ≡ false
unfolding socket_round
closed_stays zero seen t h = h
closed_stays (suc n) seen t h = closed_stays n seen (socket_round seen t).1 (ground (arith, h))

open_while :
    (n k : ℕ) (seen : SocketSeen) (t : SocketTask)
    → AtEnd seen
    → t.sock_open ≡ true
    → t.maybe_close ≡ k
    → k ≤ 20
    → (empty_reads n seen t).sock_open ≡ leb (k + n) 20
open_while zero k seen t ends up at_k l = ground (arith, up, l)
open_while (suc n) k seen t ends up at_k l =
    let u = (socket_round seen t).1 in
    let step = empty_round seen t ends up in
    elim (dec_lt k 20) [
      | yes few ↦
          let still : u.sock_open ≡ true = step.0 ∙ ground (arith, at_k, few) in
          let more : u.maybe_close ≡ suc k = step.1 ∙ ground (arith, at_k, few) in
          open_while n (suc k) seen u ends still more (omega arith)
          ∙ ap (λ m. leb m 20) (omega arith)
      | no many ↦
          let shut : u.sock_open ≡ false = step.0 ∙ ground (arith, at_k, many) in
          closed_stays n seen u shut ∙ ground (arith, many)
    ]

-- Where the server has closed the connection and none of the reads before was empty, the root notices
-- after 21 empty reads in a row, and not before: after `n` of them its socket is open exactly if `n` is
-- at most 20.
pub empty_reads_close :
    (n : ℕ) (seen : SocketSeen) (t : SocketTask)
    → AtEnd seen
    → t.sock_open ≡ true
    → t.maybe_close ≡ 0
    → (empty_reads n seen t).sock_open ≡ leb n 20
empty_reads_close n seen t ends up fresh =
    open_while n 0 seen t ends up fresh (omega arith) ∙ ap (λ m. leb m 20) (omega arith)

enqueue_queue :
    (t : SocketTask) (dest : Option Mac) (qs : List ServerMsg)
    → length qs < 3
    → (enqueue (record t { queue = some qs }) dest).queue
      ≡ some (qs ++ record { dest = dest; command = queued_command t.local t.buffer } ∷ [])
enqueue_queue t dest qs room = rw (lt→ltb (length qs) 3 room) refl

dispatch_to_queue :
    (seen : SocketSeen) (t : SocketTask) (qs : List ServerMsg) (header : Mac)
    → length qs < 3
    → (dispatch_to seen (record t { queue = some qs }) header).queue
      ≡ some (qs ++ queued_for seen header (queued_command t.local t.buffer))
unfolding dispatch_to
dispatch_to_queue seen t qs header room = elim (Bool-cases (bytes_eq seen.self_mac header)) [
  | inl mine ↦ rw mine (enqueue_queue t none qs room)
  | inr other ↦ elim (Bool-cases (check_node_is_exist seen.nodes header)) [
    | inl known ↦ rw (other, known) (enqueue_queue t (some header) qs room)
    | inr unknown ↦ rw (other, unknown) (ap some (sym (append-nil qs)))
  ]
]

-- Every empty read hands the command in the buffer out once more: the last command that came is queued
-- again, for whom it was, where the queue has room.
pub empty_read_replays :
    (seen : SocketSeen) (buffer local : Store) (k : ℕ) (qs : List ServerMsg)
    → AtEnd seen
    → length qs < 3
    → (socket_round seen (between buffer k local qs)).1.queue
      ≡ some (qs ++ queued_for seen (read buffer 0 6) (queued_command local buffer))
unfolding empty_read
empty_read_replays seen buffer local k qs ends room =
    let t = between buffer k local qs in
    ap (λ (u : SocketTask). u.queue) (empty_step seen t ends refl)
    ∙ elim (Bool-cases (ltb 20 (k + 1))) [
      | inl many ↦ rw many (dispatch_to_queue seen (closed t) qs (read buffer 0 6) room)
      | inr few ↦
          rw few
            (dispatch_to_queue seen (record t { maybe_close = k + 1 }) qs (read buffer 0 6) room)
    ]
