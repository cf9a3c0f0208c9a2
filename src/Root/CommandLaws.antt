-- ===== src/Root/CommandLaws.antt =====
-- What the server is answered, and when an update of the devices begins.
use esp32_mesh.Common.{
  ℕ, ◌+◌, ◌*◌, ◌<◌, ◌≤◌, ◌≡◌, refl, sym, ap, ◌∙◌, ◌⊎◌, inl, inr, true, false, List, [], ◌∷◌, ◌++◌,
  some, arith, length, ◌==◌, ltb, if◌then◌else◌,
}
use esp32_mesh.Common.Memory.{Store, poke, poke_out, poke_self, length-read}
use esp32_mesh.Effect.{Effect, send, start_ota, start_ota_read}
use esp32_mesh.Message.{set_header}
use esp32_mesh.Light.{set_light_color, get_light_color}
use esp32_mesh.Light.Laws.{pins, set_light_color-pins}
use esp32_mesh.Config.{Files}
use esp32_mesh.Root.State.{RootState, RootEnv}
use esp32_mesh.Root.Command.{
  ota_dest_data, root_do_ota, set_work_mode, answer, and_then, on_server_request,
  process_server_data,
}

-- A command that only asks for an answer with one byte: LED, PING or SWITCH.
abbrev pub IsSimple : ℕ → Type 0
IsSimple cmd = (cmd ≡ 4) ⊎ ((cmd ≡ 8) ⊎ (cmd ≡ 9))

-- The byte that answers it.
abbrev pub reply : RootState → ℕ → ℕ
reply s cmd = if cmd == 8 then get_light_color s.led else s.msg 14

answer_fields :
    (m : Store) (cmd value : ℕ)
    → cmd < 256
    → value < 256
    → let a = poke (poke m 13 cmd) 14 value in (a 12 ≡ m 12) × (a 13 ≡ cmd) × (a 14 ≡ value)
answer_fields m cmd value c v = (
  poke_out (poke m 13 cmd) 14 value 12 (omega arith) ∙ poke_out m 13 cmd 12 (omega arith),
  poke_out (poke m 13 cmd) 14 value 13 (omega arith) ∙ poke_self m 13 cmd c,
  poke_self (poke m 13 cmd) 14 value v,
)

-- The pins that a command drives, the light behind it, and the settings.
abbrev pub pins_for : RootState → ℕ → List Effect
pins_for s cmd = if cmd == 4 then pins (s.msg 14) else []

abbrev pub light_after : RootState → ℕ → ℕ
light_after s cmd = if cmd == 4 then s.msg 14 else s.led

abbrev pub files_after : RootEnv → RootState → ℕ → Files
files_after env s cmd = if cmd == 9 then set_work_mode env (s.msg 14) s.files else s.files

-- A command that is answered with this byte, in the message that held it.
abbrev written : Store → (cmd value : ℕ) → Store
written m cmd value = poke (poke m 13 cmd) 14 value

-- The calls and the state after it.
abbrev pub answered : RootEnv → RootState → (cmd value : ℕ) → List Effect × RootState
answered env s cmd value = (
  pins_for s cmd ++ send (written s.msg cmd value) 1436 ∷ [],
  record s {
    led = light_after s cmd;
    files = files_after env s cmd;
    msg = written s.msg cmd value;
  },
)

answer_open :
    (s : RootState) (cmd value : ℕ)
    → s.sock_open ≡ true
    → answer s s.msg cmd value
      ≡ (send (written s.msg cmd value) 1436 ∷ [], record s { msg = written s.msg cmd value })
answer_open s cmd value opened =
    ap
      (λ b.
        if b
        then (send (written s.msg cmd value) 1436 ∷ [], record s { msg = written s.msg cmd value })
        else ([], s))
      opened

request_handled :
    (env : RootEnv) (s : RootState) (cmd : ℕ)
    → s.msg 12 ≡ 1
    → s.msg 13 ≡ cmd
    → process_server_data env s ≡ on_server_request env s cmd
unfolding process_server_data
request_handled env s cmd t e =
    ap (λ n. if n == 1 then on_server_request env s (s.msg 13) else some ([], s)) t
    ∙ ap (on_server_request env s) e

simple_answered :
    (env : RootEnv) (s : RootState)
    → s.sock_open ≡ true
    → IsSimple (s.msg 13)
    → on_server_request env s (s.msg 13) ≡ some (answered env s (s.msg 13) (reply s (s.msg 13)))
unfolding on_server_request get_light_color set_light_color
simple_answered env s opened (inl e) =
    ap (on_server_request env s) e
    ∙ ap (λ r. some (and_then (set_light_color (s.msg 14)).1 r))
        (answer_open (record s { led = s.msg 14 }) 4 (s.msg 14) opened)
    ∙ ap
        (λ ps. some (
          ps ++ send (written s.msg 4 (s.msg 14)) 1436 ∷ [],
          record s { led = s.msg 14; msg = written s.msg 4 (s.msg 14) },
        ))
        (set_light_color-pins (s.msg 14))
    ∙ ap (λ c. some (answered env s c (reply s c))) (sym e)
simple_answered env s opened (inr (inl e)) =
    ap (on_server_request env s) e
    ∙ ap some (answer_open s 8 s.led opened)
    ∙ ap (λ c. some (answered env s c (reply s c))) (sym e)
simple_answered env s opened (inr (inr e)) =
    ap (on_server_request env s) e
    ∙ ap some (
        answer_open (record s { files = set_work_mode env (s.msg 14) s.files }) 9 (s.msg 14) opened)
    ∙ ap (λ c. some (answered env s c (reply s c))) (sym e)

-- Where the socket is open, the request for the light, a ping or a change of mode, with bytes in the
-- message and for the light, makes the root drive the pins of the colour asked for, for a request for
-- the light only, and then send one message and do no more: the message of the command, with the colour
-- asked for, the colour it has or the mode asked for in its first byte and all else as it was, so
-- that its type stays that of a request. Only the light of a request for the light, the settings of
-- a change of mode, and the message change.
pub process_server_data_answers :
    (env : RootEnv) (s : RootState)
    → s.sock_open ≡ true
    → s.msg 12 ≡ 1
    → IsSimple (s.msg 13)
    → s.msg 14 < 256
    → s.led < 256
    → (m : Store) × ((process_server_data env s
          ≡ some (
            pins_for s (s.msg 13) ++ send m 1436 ∷ [],
            record s {
              led = light_after s (s.msg 13);
              files = files_after env s (s.msg 13);
              msg = m;
            },
          ))
        × (m 12 ≡ 1)
        × (m 13 ≡ s.msg 13)
        × (m 14 ≡ reply s (s.msg 13))
        × ((a : ℕ) → (a < 13) ⊎ (15 ≤ a) → m a ≡ s.msg a))
unfolding get_light_color
process_server_data_answers env s opened t simple v l =
    let cmd = s.msg 13 in
    let value = reply s cmd in
    let byte : value < 256 = ground (arith, v, l) in
    let named : cmd < 256 = omega (arith, simple) in
    let told = answer_fields s.msg cmd value named byte in
    (
      written s.msg cmd value,
      (
        request_handled env s cmd t refl ∙ simple_answered env s opened simple,
        told.0 ∙ t,
        told.1,
        told.2,
        λ a h.
            poke_out (poke s.msg 13 cmd) 14 value a (omega arith)
            ∙ poke_out s.msg 13 cmd a (omega arith),
      ),
    )

-- Whatever number of devices the command gives, what is copied for the update task fits its 61 bytes.
pub length-ota_dest_data : (m : Store) → length (ota_dest_data m) ≤ 61
unfolding ota_dest_data
length-ota_dest_data m =
    let num = if ltb 10 (m 46) then 10 else m 46 in
    let small : num ≤ 10 = ground arith in omega (arith, small, length-read m 46 (num * 6 + 1))

-- An update task that is running is not started again: after a first command for an update, which
-- starts the task, a second command, whatever it holds, is only answered, that an update is running.
pub root_do_ota_once :
    (env : RootEnv) (s : RootState) (m2 : Store) (block : List ℕ)
    → env.block ≡ some block
    → s.ota_read_task ≡ false
    → let o = root_do_ota env s in
      (o.0
        ≡ (if s.ota_read_handle then [] else start_ota_read ∷ [])
          ++ start_ota (ota_dest_data (set_header s.msg 6 2 (s.msg 13))) ∷ [])
      × ((busy : Store) × (((root_do_ota env (record o.1 { msg = m2 })).0 ≡ send busy 1436 ∷ [])
            × (busy 12 ≡ 2)
            × (busy 13 ≡ 1)
            × (busy 14 ≡ 100)))
unfolding root_do_ota
root_do_ota_once env s m2 block mem idle =
    let head = set_header m2 6 2 (m2 13) in
    let told = answer_fields head 1 100 (omega arith) (omega arith) in
    let type : head 12 ≡ 2 = unfold set_header poke in ground arith in
    rw (mem, idle) (refl, (_, (refl, told.0 ∙ type, told.1, told.2)))
