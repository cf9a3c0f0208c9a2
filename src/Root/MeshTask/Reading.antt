-- ===== src/Root/MeshTask/Reading.antt =====
-- A message from a node that the root reads while it waits at the start of its buffer.
use mathlib.Core.Option
use mathlib.Core.Option.{map}
use esp32_mesh.Common.{
  ℕ, ◌+◌, ◌-◌, ◌<◌, ◌≡◌, refl, ap, ◌∙◌, Bool, true, false, List, some, arith, length, bytes_eq,
  bytes_eq_iff,
}
use esp32_mesh.Common.Memory.{Store, memcpy, memcpy_in, memcpy_out, read, read_congr}
use esp32_mesh.Message.{put_bytes}
use esp32_mesh.Root.State.{RootState}
use esp32_mesh.Root.FromNode.{process_node_data}
use esp32_mesh.Root.MeshTask.{
  MeshTask, MeshSeen, Incoming, normal_header, at_buffer, with_mem, after_handler, read_phase,
  read_message,
}

-- The loop's state where the root waits at the start of its buffer.
abbrev pub waiting : Store → (errors : ℕ) → Bool → RootState → (last : ℕ) → MeshTask
waiting mem errors begun root last = record {
  gather = record { mem = mem; msg = 0; cmd = 6; err_count = errors; started = begun };
  root = root;
  last = last;
}

-- A whole message from a device.
abbrev pub message_of : List ℕ → Store → Incoming
message_of mac packet = record { src = mac; upgrades = false; packet = packet; size = 1430 }

-- The buffer after a message of a node has been read, and the sender's address has been put in front of it.
abbrev pub landed : Store → Store → List ℕ → Store
landed mem sender mac = put_bytes (memcpy mem 6 sender 0 1430) 0 mac

pub landed_sent :
    (mem sender : Store) (mac : List ℕ) (a : ℕ)
    → length mac ≡ 6
    → a < 1430
    → landed mem sender mac (0 + (6 + a)) ≡ sender a
unfolding put_bytes
landed_sent mem sender mac a six l =
    memcpy_out (memcpy mem 6 sender 0 1430) 0 _ 0 (length mac) (0 + (6 + a)) (omega arith)
    ∙ memcpy_in mem 6 sender 0 1430 (0 + (6 + a)) (omega arith) (omega arith)
    ∙ ap sender (omega arith)

header_normal :
    (mem sender : Store)
    → ((a : ℕ) → a < 6 → sender a ≡ 255)
    → bytes_eq (read (memcpy mem 6 sender 0 1430) 6 6) normal_header ≡ true
header_normal mem sender ff =
    (bytes_eq_iff (read (memcpy mem 6 sender 0 1430) 6 6) normal_header).1 (
      read_congr (memcpy mem 6 sender 0 1430) (λ a. 255) 6 6 6
        (λ j l.
          memcpy_in mem 6 sender 0 1430 (6 + j) (omega arith) (omega arith)
          ∙ ff (0 + (6 + j - 6)) (omega arith)))

read_message_node :
    (seen : MeshSeen) (t : MeshTask) (p : Incoming)
    → bytes_eq p.src t.root.self_mac ≡ false
    → let t1 = with_mem t (put_bytes t.gather.mem t.gather.msg p.src) in
      read_message seen t p true
      ≡ Option.map (after_handler t1) (process_node_data seen.env (at_buffer t1) p.src)
unfolding read_message
read_message_node seen t p other = rw other refl

-- A message with a header of 0xff from another device is handed to `do_process_data_from_node`.
pub read_phase-node :
    (seen : MeshSeen) (mem : Store) (errors : ℕ) (begun : Bool) (root : RootState) (last : ℕ)
    → (mac : List ℕ) (packet : Store) → bytes_eq mac root.self_mac ≡ false
    → ((a : ℕ) → a < 6 → packet a ≡ 255)
    → let t = waiting (landed mem packet mac) errors begun root last in
      read_phase
        (record seen { incoming = some (message_of mac packet) })
        (waiting mem errors begun root last)
      ≡ Option.map (after_handler t) (process_node_data seen.env (at_buffer t) mac)
unfolding read_phase read_message
read_phase-node seen mem errors begun root last mac packet other ff =
    let read_in = waiting (memcpy mem 6 packet 0 1430) errors begun root last in
    ap (read_message seen read_in (message_of mac packet)) (header_normal mem packet ff)
    ∙ read_message_node seen read_in (message_of mac packet) other
