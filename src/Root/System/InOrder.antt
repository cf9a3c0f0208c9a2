-- ===== src/Root/System/InOrder.antt =====
-- The commands of the server are taken from the queue in the order in which they were put there.
use mathlib.Core.Option
use mathlib.Core.Option.{none-ne-some, some-injective}
use mathlib.Core.Path.{subst}
use mathlib.Core.List.{append_assoc}
use esp32_mesh.Common.{
  ℕ, zero, suc, ◌<◌, ◌≤◌, ◌≡◌, ◌≢◌, refl, sym, ap, ◌∙◌, List, [], ◌∷◌, ◌++◌, Option, none, some,
  arith, length, drop, ltb,
}
use esp32_mesh.Common.Runs.{if-Holds}
use esp32_mesh.Effect.{Effect}
use esp32_mesh.Root.MeshTask.{
  MeshSeen, ServerMsg, ping_phase, register_phase, server_phase, read_phase,
}
use esp32_mesh.Root.Socket.{SocketSeen, Found, received}
use esp32_mesh.Root.Socket.Queueing.{Takes, socket_round-Keeps}
use esp32_mesh.Root.Ota.{ota_ended}
use esp32_mesh.Root.System.{
  MeshAt, at_begin, at_offline, at_server, at_read, System, sees, with_root, socket_step, server_at,
  phase_at, mesh_step, look,
}

-- The steps of the system, with the number of times that the loop over the mesh has looked at the queue.
pub data Looks (s : System) : ℕ → System → Type 0 where
  start : Looks s 0 s
  reads : {n : ℕ} {t u : System} → Looks s n t → (f : Found) → u ≡ (socket_step f t).1 → Looks s n u
  ends :
      {n : ℕ} {t u : System} → Looks s n t → u ≡ with_root t (ota_ended t.mesh.root) → Looks s n u
  passes :
      {n : ℕ} {t u : System}
      → Looks s n t
      → (seen : MeshSeen) (es : List Effect) → t.at ≢ at_server
      → mesh_step seen t ≡ some (es, u)
      → Looks s n u
  looks :
      {n : ℕ} {t u : System}
      → Looks s n t
      → (seen : MeshSeen) (es : List Effect) → t.at ≡ at_server
      → mesh_step seen t ≡ some (es, u)
      → Looks s (suc n) u

-- The command stands in the queue behind these.
abbrev IsBehind : List ServerMsg → ServerMsg → Option (List ServerMsg) → Type 0
IsBehind before q o = (after : List ServerMsg) × (o ≡ some (before ++ q ∷ after))

-- What is sent to the queue stands behind what is there.
IsBehind-Takes :
    (before : List ServerMsg) (q : ServerMsg) (seen : SocketSeen) → Takes seen (IsBehind before q)
IsBehind-Takes before q seen qs item head to (after, e) =
    if-Holds (λ l. IsBehind before q (some l)) (ltb (length qs) 3)
      (
        after ++ item ∷ [],
        ap some (
            ap (λ l. l ++ item ∷ []) (some-injective _ _ e)
            ∙ append_assoc before (q ∷ after) (item ∷ [])),
      )
      (after, e)

-- A result of a call on what may be a fault.
pub map-Result {ℓ} :
    {A B : Type ℓ} (Q : B → Type 0) (f : A → B) (o : Option A) (b : B)
    → ((x : A) → Q (f x))
    → Option.map f o ≡ some b
    → Q b
map-Result Q f none b each e = absurd (none-ne-some b e)
map-Result Q f (some x) b each e = subst Q (some-injective (f x) b e) (each x)

phase_at-socket :
    (at : MeshAt) (seen : MeshSeen) (s : System) (r : List Effect × System)
    → at ≢ at_server
    → phase_at at seen s ≡ some r
    → r.1.socket ≡ s.socket
unfolding phase_at
phase_at-socket at_begin seen s r other e =
    subst (λ (x : List Effect × System). x.1.socket ≡ s.socket) (some-injective _ r e)
      (if-Holds (λ (x : List Effect × System). x.1.socket ≡ s.socket) s.mesh.root.device_ota refl
        (if-Holds (λ (x : List Effect × System). x.1.socket ≡ s.socket)
          (register_phase seen (ping_phase seen s.mesh).1).0 refl refl))
phase_at-socket at_offline seen s r other e =
    subst (λ (x : List Effect × System). x.1.socket ≡ s.socket) (some-injective _ r e) refl
phase_at-socket at_server seen s r other e = absurd (other refl)
phase_at-socket at_read seen s r other e =
    map-Result (λ (x : List Effect × System). x.1.socket ≡ s.socket) _ (read_phase seen s.mesh) r
      (λ x. refl) e

server_at-queue :
    (s : System) (q : ServerMsg) (qs : List ServerMsg) (seen : MeshSeen) (r : List Effect × System)
    → server_at s (some (q ∷ qs)) seen ≡ some r
    → r.1.socket.queue ≡ some qs
server_at-queue s q qs seen r e =
    map-Result (λ (x : List Effect × System). x.1.socket.queue ≡ some qs) _
      (server_phase (record seen { server_queue = some (received s.sqmsg q) }) s.mesh) r (λ x. refl)
      e

drop-suc {ℓ} :
    {A : Type ℓ} (xs : List A) (n : ℕ) → n < length xs → (x : A) × (drop n xs ≡ x ∷ drop (suc n) xs)
drop-suc [] n l = absurd (omega arith)
drop-suc (x ∷ xs) zero l = (x, refl)
drop-suc (x ∷ xs) (suc n) l = drop-suc xs n (omega arith)

IsBehind-looks :
    (before : List ServerMsg) (q : ServerMsg) (s u : System) (n : ℕ)
    → Looks s n u
    → n ≤ length before
    → IsBehind before q s.socket.queue
    → IsBehind (drop n before) q u.socket.queue
IsBehind-looks before q s u n start l h = h
IsBehind-looks before q s u n (reads {t = t} r f e) l h =
    subst (λ v. IsBehind (drop n before) q v.socket.queue) (sym e)
      (socket_round-Keeps (sees t f) (IsBehind (drop n before) q)
        (IsBehind-Takes (drop n before) q (sees t f))
        (record t.socket { sock_open = t.mesh.root.sock_open })
        (IsBehind-looks before q s t n r l h))
IsBehind-looks before q s u n (ends {t = t} r e) l h =
    subst (λ v. IsBehind (drop n before) q v.socket.queue) (sym e)
      (IsBehind-looks before q s t n r l h)
IsBehind-looks before q s u n (passes {t = t} r seen es other e) l h =
    subst (λ v. IsBehind (drop n before) q v.queue)
      (sym (phase_at-socket t.at seen t (es, u) other e)) (IsBehind-looks before q s t n r l h)
IsBehind-looks before q s u (suc n) (looks {t = t} r seen es at e) l h =
    let (after, queue) = IsBehind-looks before q s t n r (omega arith) h in
    let (x, first) = drop-suc before n (omega arith) in
    let there = queue ∙ ap (λ xs. some (xs ++ q ∷ after)) first in
    (
      after,
      server_at-queue t x (drop (suc n) before ++ q ∷ after) seen (es, u)
          (sym (look t seen at ∙ ap (λ o. server_at t o seen) there) ∙ e),
    )

drop-length {ℓ} : {A : Type ℓ} (xs : List A) → drop (length xs) xs ≡ []
drop-length [] = refl
drop-length (x ∷ xs) = drop-length xs

-- In whatever order the two loops run, a command in the queue is taken when its turn comes: where it
-- stands behind k others, and the loop over the mesh has looked at the queue k times since, then at
-- its next look it is that command that the loop handles, whatever has been queued behind it.
pub looks_in_order :
    (before : List ServerMsg) (q : ServerMsg) (after : List ServerMsg) (s u : System)
    (seen : MeshSeen)
    → s.socket.queue ≡ some (before ++ q ∷ after)
    → Looks s (length before) u
    → u.at ≡ at_server
    → (later : List ServerMsg) × ((u.socket.queue ≡ some (q ∷ later))
        × (mesh_step seen u ≡ server_at u (some (q ∷ later)) seen))
looks_in_order before q after s u seen there r at =
    let (later, queue) =
      IsBehind-looks before q s u (length before) r (omega arith) (after, there) in
    let first = queue ∙ ap (λ xs. some (xs ++ q ∷ later)) (drop-length before) in
    (later, (first, look u seen at ∙ ap (λ o. server_at u o seen) first))
