-- ===== src/Root/CommandTests.antt =====
-- The theorems on the server's commands and on the registration, with two nodes in the list.
use esp32_mesh.Common.{
  ℕ, ◌<◌, ◌≤◌, ◌≡◌, ◌⊎◌, refl, true, [], ◌∷◌, ◌++◌, some, arith, length, inl, ◌==◌, if◌then◌else◌,
}
use esp32_mesh.Common.Memory.{Store}
use esp32_mesh.Effect.{send, reboot}
use esp32_mesh.Config.Text.{before}
use esp32_mesh.Message.{set_header}
use esp32_mesh.Root.State.{RootState}
use esp32_mesh.Root.Register.{root_send_register}
use esp32_mesh.Root.RegisterLayout.{root_send_register-InRows}
use esp32_mesh.Root.RegisterLayout
use esp32_mesh.Root.Restart.{root_do_restart}
use esp32_mesh.Root.RestartLaws.{devices, tell_others, includes, root_do_restart_told}
use esp32_mesh.Root.Command.{process_server_data}
use esp32_mesh.Root.CommandLaws.{reply, pins_for, process_server_data_answers}
use esp32_mesh.Root.TestData.{mac_root, mac_a, mac_b, two, state, env, message}

-- Two devices are to restart: the first node and the root.
abbrev restart_both : Store
restart_both = message (1 ∷ 2 ∷ 2 ∷ mac_a ++ mac_root)

root_do_restart_told_example :
    let s = state restart_both in
    let ds = devices 2 0 s.msg in
    (root_do_restart env s).0
    ≡ tell_others s.self_mac (set_header s.msg 6 1 2) ds
      ++ (if includes s.self_mac ds then reboot ∷ [] else [])
root_do_restart_told_example =
    root_do_restart_told env (state restart_both) (λ k. refl) λ e. omega (arith, e)

-- Two nodes are to restart, and the first cannot be told.
abbrev restart_nodes : Store
restart_nodes = message (1 ∷ 2 ∷ 2 ∷ mac_a ++ mac_b)

root_send_register-InRows_example :
    (first : Store) × (second : Store) × (root_send_register
        (48 ∷ [])
        (λ k. true)
        (state (message []))
      ≡ (true, send first 1436 ∷ send second 1436 ∷ [], second))
    × (second 14 ≡ length two)
    × RegisterLayout.InRows two 0 second
unfolding before
root_send_register-InRows_example =
    root_send_register-InRows (48 ∷ []) (λ k. true) (state (message [])) (λ k. refl) (omega arith)
      (omega arith) refl (refl, (refl, tt)) (omega arith, (omega arith, tt))

-- The server asks for the light.
abbrev make_red : RootState
make_red = state (message (1 ∷ 4 ∷ 2 ∷ []))

process_server_data_answers_example :
    (m : Store) × ((process_server_data env make_red
        ≡ some (
          pins_for make_red 4 ++ send m 1436 ∷ [],
          record make_red { led = 2; files = make_red.files; msg = m },
        ))
      × (m 12 ≡ 1)
      × (m 13 ≡ 4)
      × (m 14 ≡ reply make_red 4)
      × ((a : ℕ) → (a < 13) ⊎ (15 ≤ a) → m a ≡ make_red.msg a))
process_server_data_answers_example =
    process_server_data_answers env make_red refl refl (inl refl) (omega arith) (omega arith)

-- An update of 200 devices.
abbrev update_many : Store
update_many a = if a == 46 then 200 else 1
