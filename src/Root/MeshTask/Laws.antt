-- ===== src/Root/MeshTask/Laws.antt =====
-- What becomes of a node's registration, and of the root's own with the server, in the root's loop.
use mathlib.Core.Option
use mathlib.Core.Option.{map}
use esp32_mesh.Common.{
  ℕ, ◌<◌, ◌≤◌, ◌≡◌, refl, ap, ◌∙◌, Bool, true, false, List, [], some, arith, length, bytes_eq,
}
use esp32_mesh.Common.Memory.{Store, memcpy_out, memset_in, poke_out}
use esp32_mesh.Effect.{Effect}
use esp32_mesh.Message.{set_header, put_bytes, put_text}
use esp32_mesh.DevList.Laws.{version_of, IsUnique}
use esp32_mesh.Config.Text.{cstr}
use esp32_mesh.Config.File.{Free}
use esp32_mesh.Node.Handlers.{register_msg}
use esp32_mesh.Root.State.{RootState}
use esp32_mesh.Root.Registration.{registration}
use esp32_mesh.Root.MeshTask.{
  MeshTask, MeshSeen, Incoming, at_buffer, put_back, after_handler, register_phase, read_phase,
}
use esp32_mesh.Root.MeshTask.Reading.{waiting, message_of, landed, landed_sent, read_phase-node}

-- Once a connection has been made, the socket stays set and the root does not register with the
-- server again, whether the messages of its registration could be sent or not: the next round goes
-- on without any.
pub register_phase_once :
    (seen seen' : MeshSeen) (t : MeshTask)
    → t.root.sock_open ≡ false
    → seen.connects ≡ true
    → let r = register_phase seen t in
      (r.2.root.sock_open ≡ true) × (register_phase seen' r.2 ≡ (true, [], r.2))
unfolding register_phase
register_phase_once seen seen' t closed connected = rw (closed, connected) (refl, refl)

-- The message by which a node registers has the header of a message that is no photo.
register_msg_header :
    (buffer : Store) (mac version : List ℕ) (a : ℕ)
    → a < 6
    → register_msg buffer mac version a ≡ 255
unfolding register_msg set_header put_text put_bytes
register_msg_header buffer mac version a l =
    let ff = memset_in buffer 0 255 6 a (omega arith) (omega arith) in
    memcpy_out _ 15 _ 0 _ a (omega arith)
    ∙ memcpy_out _ 9 _ 0 _ a (omega arith)
    ∙ poke_out _ 8 1 a (omega arith)
    ∙ poke_out _ 7 6 a (omega arith)
    ∙ poke_out _ 6 1 a (omega arith)
    ∙ ff

abbrev pub registration_of : Store → (mac version : List ℕ) → Incoming
registration_of buffer mac version = message_of mac (register_msg buffer mac version)

-- A registration that the root reads from the mesh while it waits at the start of its buffer reaches
-- its list: where the sender is another device with an address of 6 bytes and a version of at most
-- 15 bytes without a zero, there is memory for a node and no address is in the list twice, the read
-- is handled to its end, and the list then has, for the sender, its version as a text.
pub read_phase-registers :
    (seen : MeshSeen) (mem : Store) (errors : ℕ) (begun : Bool) (root : RootState) (last : ℕ)
    → (buffer : Store) (mac version old : List ℕ) → seen.env.block ≡ some old
    → bytes_eq mac root.self_mac ≡ false
    → length mac ≡ 6
    → length version ≤ 15
    → Free 0 version
    → IsUnique root.nodes
    → (es : List Effect) × ((t : MeshTask) × ((v : List ℕ) × ((read_phase
                (record seen { incoming = some (registration_of buffer mac version) })
                (waiting mem errors begun root last)
              ≡ some (es, t))
            × (version_of t.root.nodes mac ≡ some v)
            × (cstr v ≡ version))))
read_phase-registers seen mem errors begun root last buffer mac version old block other six short
      ended u =
    let sender = register_msg buffer mac version in
    let t = waiting (landed mem sender mac) errors begun root last in
    let (es, s) =
      registration seen.env (at_buffer t) buffer mac version old block
        (λ a l. landed_sent mem sender mac a six l) six short ended u in
    let (r, v) = s in
    let step =
      read_phase-node seen mem errors begun root last mac sender other
        (register_msg_header buffer mac version) in
    (es, (put_back t r, (v.0, (step ∙ ap (Option.map (after_handler t)) v.1.0, v.1.1, v.1.2))))
