-- ===== src/Root/Socket/Tests.antt =====
-- The loop over the socket, with a command for the light of the first node of the list.
use esp32_mesh.Common.{
  ℕ, ◌+◌, ◌<◌, ◌≤◌, ◌≡◌, refl, false, List, [], ◌++◌, some, arith, get_or, take, drop, leb,
}
use esp32_mesh.Common.Memory.{Store, of_bytes}
use esp32_mesh.Root.TestData.{mac_root, two, light_command}
use esp32_mesh.Root.Socket.{SocketTask, SocketSeen, stream, socket_round}
use esp32_mesh.Root.Socket.Commands.{between, header_of, queued_for, socket_round-split}
use esp32_mesh.Root.Socket.Silence.{empty_reads, empty_reads_close}

abbrev empty : Store
empty a = 0

abbrev reading : List ℕ → SocketSeen
reading bytes = record {
  self_mac = mac_root;
  nodes = two;
  device_ota = false;
  found = stream bytes;
}

abbrev fresh : SocketTask
fresh = between empty 0 empty []

socket_round-split_example :
    let t = (socket_round (reading (take 8 light_command)) fresh).1 in
    let t' = (socket_round (reading (drop 8 light_command)) t).1 in
    (c : Store) × ((t'.queue
        ≡ some (
            [] ++ queued_for (reading (drop 8 light_command)) (header_of (take 8 light_command)) c))
      × ((j : ℕ) → j < 93 → t'.buffer (808 + j) ≡ get_or (drop 8 light_command) j 0)
      × (808 + 93 ≤ 1436)
      × ((j : ℕ) → 8 ≤ j → j < 101 → c j ≡ empty j)
      × ((j : ℕ) → 6 ≤ j → j < 8 → c j ≡ get_or (take 8 light_command) j 0))
socket_round-split_example =
    socket_round-split (reading (take 8 light_command)) (reading (drop 8 light_command)) empty empty
      0 [] (take 8 light_command) (drop 8 light_command) refl refl refl refl (omega arith)
      (omega arith) refl (omega arith)

empty_reads_close_example : (empty_reads 21 (reading []) fresh).sock_open ≡ leb 21 20
empty_reads_close_example = empty_reads_close 21 (reading []) fresh (refl, refl) refl refl

-- What is left in the buffer of the command for the first node.
abbrev left : Store
left = of_bytes light_command
