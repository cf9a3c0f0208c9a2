-- ===== src/Root/Restart.antt =====
-- `root_do_restart` of main/router.c. The command and the answer share the message buffer: the list of
-- the devices that could not be told is written over the command's own list of devices.
use esp32_mesh.Common.{
  ℕ, zero, suc, ◌+◌, ◌*◌, Bool, true, false, ◌&&◌, List, [], ◌∷◌, ◌++◌, some, ◌==◌, leb, bytes_eq,
  if◌then◌else◌,
}
use esp32_mesh.Common.Memory.{Store, poke, read}
use esp32_mesh.Wire.{addr_len, child_packet_len, root_packet_len}
use esp32_mesh.Wire.BusCmd
use esp32_mesh.Wire.BusType
use esp32_mesh.Wire.BusStatus
use esp32_mesh.Wire.RootMsg
use esp32_mesh.Wire.DeviceRestart
use esp32_mesh.Wire.RespRestart
use esp32_mesh.Message.{set_header, put_bytes}
use esp32_mesh.Effect.{Effect, at, send, mesh_write, root_write, reboot}
use esp32_mesh.Photo.Node.{mdf_ok}
use esp32_mesh.Root.State.{RootState, RootEnv, type_at}

-- What the loop over the devices has done: the writes, the number of those that failed, whether this
-- device was among them, and the message buffer.
pub record Restarted : Type 0 where
  pub effects : List Effect
  pub errors : ℕ
  pub restart_self : Bool
  pub msg : Store

-- pServerCmd->tDevRestart.tDevAddr[i]
abbrev pub device : Store → ℕ → List ℕ
device m i = read m (RootMsg.node + DeviceRestart.dev_addr + addr_len * i) addr_len

abbrev pub was_written : Effect → Restarted → Restarted
was_written e r = record r { effects = e ∷ r.effects }

-- Lines 834 to 856: the devices from number `i` on, `n` of them; `w` writes and `e` errors so far.
-- Whatever the number says, the addresses are read from the buffer behind each other.
unfoldable pub restart_loop : (ℕ → ℕ) → List ℕ → (n i w e : ℕ) → Bool → Store → Restarted
restart_loop write self_mac zero i w e self m = record {
  effects = [];
  errors = e;
  restart_self = self;
  msg = m;
}
restart_loop write self_mac (suc n) i w e self m =
    let dest = device m i in
    let told = mesh_write (some dest) (at m RootMsg.node) child_packet_len in
    let skip = restart_loop write self_mac n (i + 1) w e true m in
    let good = was_written told (restart_loop write self_mac n (i + 1) (w + 1) e self m) in
    let bad = was_written told (
      restart_loop write self_mac n (i + 1) (w + 1) (e + 1) self
        (put_bytes m (RootMsg.node + RespRestart.dev_addr + addr_len * e) dest)) in
    if bytes_eq self_mac dest then skip else (if write w == mdf_ok then good else bad)

-- Lines 858 to 863: the answer to the server.
unfoldable pub restart_answer : Bool → Restarted → Store
restart_answer sock_open r =
    if leb 1 r.errors && sock_open
    then poke
        (poke (poke r.msg type_at BusType.response) (RootMsg.node + RespRestart.response)
          BusStatus.restart_error)
        (RootMsg.node + RespRestart.number) r.errors
    else r.msg

abbrev pub broadcast : List ℕ
broadcast = 255 ∷ 255 ∷ 255 ∷ 255 ∷ 255 ∷ 255 ∷ []

-- `root_do_restart(pRootMessage, pServerCmd)` where both are there.
unfoldable pub root_do_restart : RootEnv → RootState → List Effect × RootState
root_do_restart env s =
    let m = set_header s.msg RootMsg.node BusType.request BusCmd.restart in
    let num = s.msg (RootMsg.node + DeviceRestart.number) in
    let r = restart_loop env.write s.self_mac num 0 0 0 false m in
    let answer = restart_answer s.sock_open r in
    if num == 0
    then (
      root_write broadcast (at m RootMsg.node) child_packet_len ∷ reboot ∷ [],
      record s { msg = m },
    )
    else (
      r.effects
          ++ ((if leb 1 r.errors && s.sock_open then send answer root_packet_len ∷ [] else [])
              ++ (if r.restart_self then reboot ∷ [] else [])),
      record s { msg = answer },
    )
