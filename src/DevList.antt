-- ===== src/DevList.antt =====
-- main/node_dev_list.c: the list of the nodes that have registered with the root, `g_node_info_ptr`,
-- first node first. `malloc` is outside the program: its result is an argument, `none` for NULL and
-- otherwise the bytes that the new block happens to hold where the version goes.
pub mod Laws
pub mod Registry
pub mod Implements
mod Tests
use mathlib.Core.Option
use esp32_mesh.Common.{
  ℕ, Bool, true, false, List, [], ◌∷◌, Option, none, some, bytes_eq, if◌then◌else◌,
}

abbrev pub Mac : Type 0
Mac = List ℕ

-- `node_info_t`; the `next` pointers are the list.
pub record NodeInfo : Type 0 where
  pub mac_addr : Mac
  pub version : List ℕ

-- The results of `add_newnode_to_nodedev_list`: 0, ENOMEM and -1.
pub data AddStatus : Type 0 where
  ok enomem failed : AddStatus

-- The `while(1)` loop and what follows it: the node with this address gets the version; where there is
-- none, a node is put behind the last one. `none` is the fault of a `memcpy` from NULL.
pub insert_from :
    Option (List ℕ) → List NodeInfo → Mac → Option (List ℕ) → Option (AddStatus × List NodeInfo)
insert_from block [] addr version = elim block [
  | none ↦ some (failed, [])
  | some old ↦ Option.map (λ v. (ok, record { mac_addr = addr; version = v } ∷ [])) version
]
insert_from block (n ∷ ns) addr version =
    if bytes_eq n.mac_addr addr
    then some (ok, record n { version = Option.get_or version n.version } ∷ ns)
    else Option.map (λ r. (r.0, n ∷ r.1)) (insert_from block ns addr version)

-- `add_newnode_to_nodedev_list(pAddr, pVersion)`; a NULL `pVersion` is `none`.
pub add_newnode :
    Option (List ℕ) → List NodeInfo → Mac → Option (List ℕ) → Option (AddStatus × List NodeInfo)
unfolding insert_from
add_newnode block [] addr version = elim block [
  | none ↦ some (enomem, [])
  | some old ↦ some (ok, record { mac_addr = addr; version = Option.get_or version old } ∷ [])
]
add_newnode block (n ∷ ns) addr version = insert_from block (n ∷ ns) addr version

-- `del_node_from_nodedev_list(pAddr)`
unfoldable pub del_node : List NodeInfo → Mac → List NodeInfo
del_node [] addr = []
del_node (n ∷ ns) addr = if bytes_eq n.mac_addr addr then ns else n ∷ del_node ns addr

-- `check_node_is_exist(pnodeaddr)`
unfoldable pub check_node_is_exist : List NodeInfo → Mac → Bool
check_node_is_exist [] addr = false
check_node_is_exist (n ∷ ns) addr =
    if bytes_eq n.mac_addr addr then true else check_node_is_exist ns addr
