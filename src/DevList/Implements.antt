-- ===== src/DevList/Implements.antt =====
-- main/node_dev_list.c is a registry of devices.
use mathlib.Core.Option
use esp32_mesh.Common.{ℕ, ◌≡◌, refl, ap, ◌∙◌, List, [], ◌∷◌, Option, some}
use esp32_mesh.DevList.{Mac, NodeInfo, AddStatus, add_newnode, del_node}
use esp32_mesh.DevList.Laws.{
  version_of, IsUnique, upsert, version_of-upsert, upsert-IsUnique, add_newnode-upsert,
  del_node_refines,
}
use esp32_mesh.DevList.Registry.{Registry, Event, joined, left, last_version, replay, find-replay}

-- A list in which no address is twice.
abbrev pub UniqueList : Type 0
UniqueList = (ns : List NodeInfo) × IsUnique ns

abbrev pub dev_list : Registry
dev_list = record {
  State = UniqueList;
  set = λ l a v. (upsert l.0 a v, upsert-IsUnique l.0 a v l.1);
  drop = λ l a. (del_node l.0 a, (del_node_refines l.0 a l.1).1);
  find = λ l b. version_of l.0 b;
  find-set = λ l a v b. version_of-upsert l.0 a v b;
  find-drop = λ l a b. (del_node_refines l.0 a l.1).0 b;
}

-- The calls of the list for the events, with a block for each new node; `none` is a fault.
abbrev pub call_all : List ℕ → List Event → List NodeInfo → Option (List NodeInfo)
call_all old [] ns = some ns
call_all old (joined a v ∷ es) ns =
    Option.bind (add_newnode (some old) ns a (some v)) (λ r. call_all old es r.1)
call_all old (left a ∷ es) ns = call_all old es (del_node ns a)

pub call_all-replay :
    (old : List ℕ) (es : List Event) (l : UniqueList)
    → call_all old es l.0 ≡ some (replay dev_list es l).0
unfolding Option.bind
call_all-replay old [] l = refl
call_all-replay old (joined a v ∷ es) l =
    ap (λ o. Option.bind o (λ (r : AddStatus × List NodeInfo). call_all old es r.1))
      (add_newnode-upsert old v l.0 a)
    ∙ call_all-replay old es (upsert l.0 a v, upsert-IsUnique l.0 a v l.1)
call_all-replay old (left a ∷ es) l =
    call_all-replay old es (del_node l.0 a, (del_node_refines l.0 a l.1).1)

-- Where there is memory for each node, any sequence of registrations and removals, from a list in which
-- no address is twice, is carried out to its end; no address is then in the list twice, and for each
-- address the list has what the last event about it says: the version it registered with, nothing
-- where it was taken off, and what it had where nothing happened to it.
pub call_all-refines :
    (old : List ℕ) (es : List Event) (ns : List NodeInfo)
    → IsUnique ns
    → (r : List NodeInfo) × ((call_all old es ns ≡ some r)
        × IsUnique r
        × ((b : Mac) → version_of r b ≡ last_version es (version_of ns b) b))
call_all-refines old es ns u =
    let l = replay dev_list es (ns, u) in
    (l.0, (call_all-replay old es (ns, u), l.1, find-replay dev_list es (ns, u)))
