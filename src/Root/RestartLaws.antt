-- ===== src/Root/RestartLaws.antt =====
-- Which devices a restart reaches.
use esp32_mesh.Common.{
  ℕ, zero, suc, ◌+◌, ◌*◌, ◌≤◌, ◌≡◌, ◌≢◌, refl, inl, inr, Bool, true, false, ◌||◌, List, [], ◌∷◌,
  ◌++◌, some, arith, ◌==◌, bytes_eq, if◌then◌else◌, ne→==, Bool-cases,
}
use esp32_mesh.Common.Memory.{Store, read, read_congr, memcpy}
use mathlib.Core.Path.{ap₂}
use esp32_mesh.Effect.{Effect, at, mesh_write, reboot}
use esp32_mesh.Message.{set_header, set_header_out, put_bytes}
use esp32_mesh.Photo.Node.{mdf_ok}
use esp32_mesh.Root.State.{RootState, RootEnv}
use esp32_mesh.Root.Restart.{device, restart_loop, restart_answer, root_do_restart}

-- The devices of the list from number `i` on, `n` of them.
abbrev pub devices : ℕ → ℕ → Store → List (List ℕ)
devices zero i m = []
devices (suc n) i m = device m i ∷ devices n (i + 1) m

-- The writes that tell each of the devices but this one, in the order of the list.
abbrev pub tell_others : List ℕ → Store → List (List ℕ) → List Effect
tell_others self_mac m [] = []
tell_others self_mac m (d ∷ ds) =
    if bytes_eq self_mac d
    then tell_others self_mac m ds
    else mesh_write (some d) (at m 6) 1430 ∷ tell_others self_mac m ds

abbrev pub includes : List ℕ → List (List ℕ) → Bool
includes self_mac [] = false
includes self_mac (d ∷ ds) = bytes_eq self_mac d || includes self_mac ds

restart_loop_told :
    (write : ℕ → ℕ) (self_mac : List ℕ)
    → ((k : ℕ) → write k ≡ mdf_ok)
    → (n i w : ℕ) (self : Bool) (m : Store)
    → restart_loop write self_mac n i w 0 self m ≡ record {
      effects = tell_others self_mac m (devices n i m);
      errors = 0;
      restart_self = self || includes self_mac (devices n i m);
      msg = m;
    }
unfolding restart_loop
restart_loop_told write self_mac ok zero i w self m = ground arith
restart_loop_told write self_mac ok (suc n) i w self m = ground (
  arith,
  ok w,
  restart_loop_told write self_mac ok n (i + 1) w true m,
  restart_loop_told write self_mac ok n (i + 1) (w + 1) self m,
)

devices_congr :
    (n i : ℕ) (m m' : Store) → ((a : ℕ) → 14 ≤ a → m' a ≡ m a) → devices n i m' ≡ devices n i m
devices_congr zero i m m' h = refl
devices_congr (suc n) i m m' h =
    ap₂ ◌∷◌ (read_congr m' m (15 + 6 * i) (15 + 6 * i) 6 (λ j l. h (15 + 6 * i + j) (omega arith)))
      (devices_congr n (i + 1) m m' h)

-- Where every write is accepted, a restart of listed devices tells each of them but the root, in the
-- order of the list, and sends the server nothing; the root restarts, after that, exactly if the list
-- names it.
pub root_do_restart_told :
    (env : RootEnv) (s : RootState)
    → ((k : ℕ) → env.write k ≡ mdf_ok)
    → s.msg 14 ≢ 0
    → let ds = devices (s.msg 14) 0 s.msg in
      (root_do_restart env s).0
      ≡ tell_others s.self_mac (set_header s.msg 6 1 2) ds
        ++ (if includes s.self_mac ds then reboot ∷ [] else [])
unfolding root_do_restart restart_answer
root_do_restart_told env s ok some_ =
    let m = set_header s.msg 6 1 2 in
    let same =
      devices_congr (s.msg 14) 0 s.msg m (λ a l. set_header_out s.msg 6 1 2 a (omega arith)) in
    rw
      (
        ne→== (s.msg 14) 0 some_,
        restart_loop_told env.write s.self_mac ok (s.msg 14) 0 0 false m,
        same,
      )
      refl

-- Of two or more devices that are to restart, neither the first nor the device whose address is read
-- second being the root, where the first cannot be told: the first is noted over the list itself, so
-- that the second write goes to an address that begins with the last byte of the first.
pub restart_loop_overwrites :
    (write : ℕ → ℕ) (self_mac : List ℕ) (n : ℕ) (m : Store)
    → bytes_eq self_mac (device m 0) ≡ false
    → (write 0 == mdf_ok) ≡ false
    → bytes_eq self_mac (m 20 ∷ read m 22 5) ≡ false
    → (q : Store) × ((rest : List Effect) × ((restart_loop write self_mac
            (suc (suc n))
            0
            0
            0
            false
            m).effects
          ≡ mesh_write (some (device m 0)) (at m 6) 1430
            ∷ mesh_write (some (m 20 ∷ read m 22 5)) (at q 6) 1430
            ∷ rest))
unfolding restart_loop put_bytes memcpy
restart_loop_overwrites write self_mac n m other failed other' =
    let q = put_bytes m 16 (device m 0) in
    elim (Bool-cases (write 1 == mdf_ok)) [
      | inl good ↦ (
        q,
        ((restart_loop write self_mac n 2 2 1 false q).effects, rw (other, failed, other', good)),
      )
      | inr bad ↦ (
        q,
        (
          (restart_loop write self_mac n 2 2 2 false (put_bytes q 22 (m 20 ∷ read m 22 5))).effects,
          rw (other, failed, other', bad),
        ),
      )
    ]
