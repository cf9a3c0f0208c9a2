-- ===== src/Root/Socket/Commands.antt =====
-- What becomes of a command that the server sends: in one piece, in two, and behind a full item.
use esp32_mesh.Common.{
  take_all, take-append, ℕ, ◌+◌, ◌-◌, ◌*◌, ◌<◌, ◌≤◌, ◌≡◌, refl, sym, ap, ◌∙◌, true, false, inl, inr,
  Option, List, [], ◌∷◌, ◌++◌, none, some, arith, length, get_or, lt→ltb, leb, eq→==, ne→==,
  bytes_eq, if◌then◌else◌, Bool-cases,
}
use esp32_mesh.Common.Memory.{
  Store, memcpy, memcpy_in, memcpy_out, memset, memset_in, of_bytes, read, read_congr, read-memcpy,
}
use mathlib.Core.List.{append-nil}
use esp32_mesh.Message.{put_bytes, put_bytes_in, put_bytes_out}
use esp32_mesh.DevList.{Mac, check_node_is_exist}
use esp32_mesh.Root.MeshTask.{ServerMsg}
use esp32_mesh.Root.Socket.{
  SocketTask, SocketSeen, stream, queued_command, enqueue, dispatch_to, take_bytes, after_read,
  on_found, socket_round,
}

-- The loop with an open socket, between two commands, and room in the queue.
abbrev pub between : Store → (empty_reads : ℕ) → Store → List ServerMsg → SocketTask
between buffer empty_reads local qs = record {
  buffer = buffer;
  already = 0;
  maybe_close = empty_reads;
  sock_open = true;
  local = local;
  queue = some qs;
}

abbrev pub header_of : List ℕ → Mac
header_of cmd = read (of_bytes cmd) 0 6

-- A command as it is queued: a header of 0xff and the bytes of the command behind its header.
abbrev pub IsCommand : List ℕ → Store → Type 0
IsCommand cmd c = ((j : ℕ) → j < 6 → c j ≡ 255) × ((j : ℕ) → 6 ≤ j → j < 101 → c j ≡ get_or cmd j 0)

after_read_some :
    (seen : SocketSeen) (t : SocketTask) (got : List ℕ)
    → 0 < length got
    → after_read seen t got ≡ take_bytes seen t got
unfolding after_read
after_read_some seen t [] h = absurd (omega arith)
after_read_some seen t (c ∷ got) h = refl

header_read :
    (buffer : Store) (cmd : List ℕ)
    → length cmd ≡ 101
    → read (put_bytes buffer 0 cmd) 0 6 ≡ header_of cmd
unfolding put_bytes
header_read buffer cmd whole = read-memcpy buffer 0 (of_bytes cmd) 0 (length cmd) 0 6 (omega arith)

queued-IsCommand :
    (local buffer : Store) (cmd : List ℕ)
    → length cmd ≡ 101
    → IsCommand cmd (queued_command local (put_bytes buffer 0 cmd))
unfolding put_bytes
queued-IsCommand local buffer cmd whole = (
  (λ j l.
      memcpy_out (memset local 0 255 6) 6 _ 6 95 j (omega arith)
      ∙ memset_in local 0 255 6 j (omega arith) (omega arith)),
  λ j low high.
      memcpy_in (memset local 0 255 6) 6 (memcpy buffer 0 (of_bytes cmd) 0 (length cmd)) 6 95 j
        (omega arith) (omega arith)
      ∙ memcpy_in buffer 0 (of_bytes cmd) 0 (length cmd) (6 + (j - 6)) (omega arith) (omega arith)
      ∙ ap (λ k. get_or cmd k 0) (omega arith),
)

-- Whom a command with this header is for: this device, a node of the list, or nobody.
abbrev pub queued_for : SocketSeen → Mac → Store → List ServerMsg
queued_for seen header c =
    if bytes_eq seen.self_mac header
    then record { dest = none; command = c } ∷ []
    else (if check_node_is_exist seen.nodes header
        then record { dest = some header; command = c } ∷ []
        else [])

pub dispatch_to_lem :
    (seen : SocketSeen) (buffer local : Store) (k : ℕ) (qs : List ServerMsg) (header : Mac)
    → length qs < 3
    → let t = dispatch_to seen (between buffer k local qs) header in
      (t.queue ≡ some (qs ++ queued_for seen header (queued_command local buffer)))
      × (t.already ≡ 0)
      × (t.maybe_close ≡ k)
      × (t.sock_open ≡ true)
unfolding dispatch_to
dispatch_to_lem seen buffer local k qs header room =
    elim (Bool-cases (bytes_eq seen.self_mac header)) [
      | inl mine ↦ rw (mine, lt→ltb (length qs) 3 room) (refl, refl, refl, refl)
      | inr other ↦ elim (Bool-cases (check_node_is_exist seen.nodes header)) [
        | inl known ↦ rw (other, known, lt→ltb (length qs) 3 room) (refl, refl, refl, refl)
        | inr unknown ↦ rw (other, unknown) (ap some (sym (append-nil qs)), refl, refl, refl)
      ]
    ]

take_bytes_whole :
    (seen : SocketSeen) (buffer local : Store) (k : ℕ) (qs : List ServerMsg) (cmd : List ℕ)
    → length cmd ≡ 101
    → take_bytes seen (between buffer k local qs) cmd
      ≡ dispatch_to seen (between (put_bytes buffer 0 cmd) 0 local qs) (header_of cmd)
unfolding take_bytes
take_bytes_whole seen buffer local k qs cmd whole =
    let now = put_bytes buffer 0 cmd in
    rw (eq→== 101 (0 + length cmd) (omega arith))
      (ap (dispatch_to seen (between now 0 local qs)) (header_read buffer cmd whole))

pub socket_round-IsCommand :
    (seen : SocketSeen) (buffer local : Store) (k : ℕ) (qs : List ServerMsg) (cmd later : List ℕ)
    → seen.device_ota ≡ false
    → seen.found ≡ stream (cmd ++ later)
    → length cmd ≡ 101
    → length qs < 3
    → let t = (socket_round seen (between buffer k local qs)).1 in
      (c : Store) × ((t.queue ≡ some (qs ++ queued_for seen (header_of cmd) c))
        × IsCommand cmd c
        × (t.already ≡ 0)
        × (t.maybe_close ≡ 0)
        × (t.sock_open ≡ true))
unfolding socket_round on_found after_read dispatch_to take_bytes
socket_round-IsCommand seen buffer local k qs cmd later idle came whole room =
    let c = queued_command local (put_bytes buffer 0 cmd) in
    let t = between buffer k local qs in
    let step : (socket_round seen t).1
        ≡ dispatch_to seen (between (put_bytes buffer 0 cmd) 0 local qs) (header_of cmd) =
      rw (idle, came, take-append 101 cmd later whole)
        (after_read_some seen t cmd (omega arith)
          ∙ take_bytes_whole seen buffer local k qs cmd whole) in
    let told = dispatch_to_lem seen (put_bytes buffer 0 cmd) local 0 qs (header_of cmd) room in
    (
      c,
      (
        ap (λ (u : SocketTask). u.queue) step ∙ told.0,
        queued-IsCommand local buffer cmd whole,
        ap (λ (u : SocketTask). u.already) step ∙ told.1,
        ap (λ (u : SocketTask). u.maybe_close) step ∙ told.2,
        ap (λ (u : SocketTask). u.sock_open) step ∙ told.3,
      ),
    )

-- The loop with the first `k` bytes of a command read.
abbrev pub partly : Store → (k : ℕ) → Store → List ServerMsg → SocketTask
partly buffer k local qs = record (between buffer 0 local qs) { already = k }

first_part :
    (seen : SocketSeen) (buffer local : Store) (k : ℕ) (qs : List ServerMsg) (part : List ℕ)
    → seen.device_ota ≡ false
    → seen.found ≡ stream part
    → 0 < length part
    → length part < 101
    → (socket_round seen (between buffer k local qs)).1
      ≡ partly (put_bytes buffer 0 part) (0 + length part) local qs
unfolding socket_round on_found take_bytes after_read dispatch_to
first_part seen buffer local k qs part idle came some_ short =
    rw (idle, came, take_all 101 part (omega arith))
      (after_read_some seen (between buffer k local qs) part some_
        ∙ (rw (ne→== 101 (0 + length part) (omega arith)) refl))

second_part :
    (seen : SocketSeen) (buffer local : Store) (k : ℕ) (qs : List ServerMsg) (part : List ℕ)
    → seen.device_ota ≡ false
    → seen.found ≡ stream part
    → 0 < k
    → k < 101
    → k + length part ≡ 101
    → let now = put_bytes buffer (101 * k) part in
      (socket_round seen (partly buffer k local qs)).1
      ≡ dispatch_to seen (between now 0 local qs) (read now 0 6)
unfolding socket_round on_found take_bytes after_read dispatch_to
second_part seen buffer local k qs part idle came pos short whole =
    let open_ : leb 101 k ≡ false = ground arith in
    let now = put_bytes buffer (101 * k) part in
    rw (idle, came, open_, take_all (101 - k) part (omega arith))
      (after_read_some seen (partly buffer k local qs) part (omega arith)
        ∙ rw (eq→== 101 (k + length part) (omega arith)) refl)

enqueue_buffer :
    (t : SocketTask) (dest : Option Mac) (q : Option (List ServerMsg))
    → (enqueue (record t { queue = q }) dest).buffer ≡ t.buffer
enqueue_buffer t dest none = refl
enqueue_buffer t dest (some qs) = refl

-- A command that goes to the queue stays in the buffer.
dispatch_to_buffer :
    (seen : SocketSeen) (t : SocketTask) (header : Mac)
    → (dispatch_to seen t header).buffer ≡ t.buffer
unfolding dispatch_to
dispatch_to_buffer seen t header = elim (Bool-cases (bytes_eq seen.self_mac header)) [
  | inl mine ↦ rw mine (enqueue_buffer t none t.queue)
  | inr other ↦ elim (Bool-cases (check_node_is_exist seen.nodes header)) [
    | inl known ↦ rw (other, known) (enqueue_buffer t (some header) t.queue)
    | inr unknown ↦ rw (other, unknown) refl
  ]
]

-- A command that is read in two pieces, between two others, where the first piece has from 6 to 13
-- bytes, with an open socket, room in the queue and no update under way, is put together wrongly: the
-- second piece goes behind 101 times the length of the first, which is still in the buffer, and what is
-- queued, exactly if the header of the command is that of this device or of a node of the list, and for
-- that device, has behind the bytes of the first piece what the buffer held there before.
pub socket_round-split :
    (seen seen' : SocketSeen) (buffer local : Store) (k : ℕ) (qs : List ServerMsg)
    (one two : List ℕ)
    → seen.device_ota ≡ false
    → seen'.device_ota ≡ false
    → seen.found ≡ stream one
    → seen'.found ≡ stream two
    → 6 ≤ length one
    → length one ≤ 13
    → length one + length two ≡ 101
    → length qs < 3
    → let t = (socket_round seen (between buffer k local qs)).1 in
      let t' = (socket_round seen' t).1 in
      (c : Store) × ((t'.queue ≡ some (qs ++ queued_for seen' (header_of one) c))
        × ((j : ℕ) → j < length two → t'.buffer (101 * length one + j) ≡ get_or two j 0)
        × (101 * length one + length two ≤ 1436)
        × ((j : ℕ) → length one ≤ j → j < 101 → c j ≡ buffer j)
        × ((j : ℕ) → 6 ≤ j → j < length one → c j ≡ get_or one j 0))
socket_round-split seen seen' buffer local k qs one two idle idle' came came' some_ short whole
      room =
    let first = put_bytes buffer 0 one in
    let now = put_bytes first (101 * (0 + length one)) two in
    let header : read now 0 6 ≡ header_of one = read_congr now (of_bytes one) 0 0 6 (λ i l.
      put_bytes_out first (101 * (0 + length one)) two (0 + i) (omega arith)
      ∙ put_bytes_in buffer 0 one (0 + i) (omega arith) (omega arith)
      ∙ ap (λ k. get_or one k 0) (omega arith)) in
    let step : (socket_round seen' (socket_round seen (between buffer k local qs)).1).1
        ≡ dispatch_to seen' (between now 0 local qs) (header_of one) =
      ap (λ (u : SocketTask). (socket_round seen' u).1)
        (first_part seen buffer local k qs one idle came (omega arith) (omega arith))
      ∙ second_part seen' first local (0 + length one) qs two idle' came' (omega arith)
          (omega arith) (omega arith)
      ∙ ap (dispatch_to seen' (between now 0 local qs)) header in
    (
      queued_command local now,
      (
        ap (λ (u : SocketTask). u.queue) step
            ∙ (dispatch_to_lem seen' now local 0 qs (header_of one) room).0,
        (λ j l.
            ap (λ (u : SocketTask). u.buffer (101 * length one + j)) step
            ∙ ap (λ (m : Store). m (101 * length one + j))
                (dispatch_to_buffer seen' (between now 0 local qs) (header_of one))
            ∙ put_bytes_in first (101 * (0 + length one)) two (101 * length one + j) (omega arith)
                (omega arith)
            ∙ ap (λ i. get_or two i 0) (omega arith)),
        omega arith,
        (λ j past high.
            stale local now j (omega arith) high
            ∙ put_bytes_out first (101 * (0 + length one)) two j (omega arith)
            ∙ put_bytes_out buffer 0 one j (omega arith)),
        λ j low high.
            stale local now j low (omega arith)
            ∙ put_bytes_out first (101 * (0 + length one)) two j (omega arith)
            ∙ put_bytes_in buffer 0 one j (omega arith) (omega arith)
            ∙ ap (λ i. get_or one i 0) (omega arith),
      ),
    )
  where
    stale : (local now : Store) (j : ℕ) → 6 ≤ j → j < 101 → queued_command local now j ≡ now j
    stale local now j low high =
        memcpy_in (memset local 0 255 6) 6 now 6 95 j (omega arith) (omega arith)
        ∙ ap now (omega arith)
