-- ===== src/DevList/Laws.antt =====
-- The device list against a finite map from addresses to versions.

use esp32_mesh.Common.{
  ℕ, ◌≡◌, refl, ◌≢◌, true, List, [], ◌∷◌, Option, length, none, some, arith, bytes_eq, bytes_eq_iff,
  if◌then◌else◌,
}
use esp32_mesh.DevList.{
  Mac, NodeInfo, ok, enomem, failed, insert_from, add_newnode, del_node, check_node_is_exist,
}

-- The version registered for an address.
abbrev pub version_of : List NodeInfo → Mac → Option (List ℕ)
version_of [] a = none
version_of (n ∷ ns) a = if bytes_eq n.mac_addr a then some n.version else version_of ns a

-- No address is registered twice.
abbrev pub IsUnique : List NodeInfo → Type 0
IsUnique [] = Unit {0}
IsUnique (n ∷ ns) = (version_of ns n.mac_addr ≡ none) × IsUnique ns

abbrev pub IsRegistered : List NodeInfo → Mac → Type 0
IsRegistered ns a = version_of ns a ≢ none

-- Every node has an address of 6 bytes.
abbrev pub HasMacs : List NodeInfo → Type 0
HasMacs [] = Unit {0}
HasMacs (n ∷ ns) = (length n.mac_addr ≡ 6) × HasMacs ns

-- The membership test answers whether the map has the address.
pub check_node_is_exist-IsRegistered :
    (ns : List NodeInfo) (a : Mac)
    → ((check_node_is_exist ns a ≡ true) → IsRegistered ns a)
      × (IsRegistered ns a → check_node_is_exist ns a ≡ true)
unfolding check_node_is_exist
check_node_is_exist-IsRegistered [] a = (λ h. ground arith, λ h. absurd (h refl))
check_node_is_exist-IsRegistered (n ∷ ns) a = ground (arith, check_node_is_exist-IsRegistered ns a)

-- The list with the version of one address set: in place, or behind the last node.
pub upsert : List NodeInfo → Mac → List ℕ → List NodeInfo
upsert [] a v = record { mac_addr = a; version = v } ∷ []
upsert (n ∷ ns) a v =
    if bytes_eq n.mac_addr a then record n { version = v } ∷ ns else n ∷ upsert ns a v

pub version_of-upsert :
    (ns : List NodeInfo) (a : Mac) (v : List ℕ) (b : Mac)
    → version_of (upsert ns a v) b ≡ (if bytes_eq a b then some v else version_of ns b)
unfolding upsert
version_of-upsert [] a v b = refl
version_of-upsert (n ∷ ns) a v b = ground (
  arith,
  bytes_eq_iff n.mac_addr a,
  bytes_eq_iff n.mac_addr b,
  bytes_eq_iff a b,
  version_of-upsert ns a v b,
)

pub upsert-IsUnique :
    (ns : List NodeInfo) (a : Mac) (v : List ℕ) → IsUnique ns → IsUnique (upsert ns a v)
unfolding upsert
upsert-IsUnique [] a v u = (refl, tt)
upsert-IsUnique (n ∷ ns) a v u = ground (
  arith,
  bytes_eq_iff a n.mac_addr,
  bytes_eq_iff n.mac_addr a,
  version_of-upsert ns a v n.mac_addr,
  upsert-IsUnique ns a v,
)

insert_from-upsert :
    (old v : List ℕ) (ns : List NodeInfo) (a : Mac)
    → insert_from (some old) ns a (some v) ≡ some (ok, upsert ns a v)
unfolding insert_from upsert
insert_from-upsert old v [] a = refl
insert_from-upsert old v (n ∷ ns) a = ground (arith, insert_from-upsert old v ns a)

pub add_newnode-upsert :
    (old v : List ℕ) (ns : List NodeInfo) (a : Mac)
    → add_newnode (some old) ns a (some v) ≡ some (ok, upsert ns a v)
unfolding add_newnode upsert
add_newnode-upsert old v [] a = refl
add_newnode-upsert old v (n ∷ ns) a = insert_from-upsert old v (n ∷ ns) a

-- With memory for a node and a version given, adding to a list in which no address is twice always
-- succeeds, the list then maps the address to that version and every other address to what it had,
-- and no address is in it twice.
pub add_newnode_refines :
    (old v : List ℕ) (ns : List NodeInfo) (a : Mac)
    → IsUnique ns
    → (r : List NodeInfo) × (add_newnode (some old) ns a (some v) ≡ some (ok, r))
      × ((b : Mac) → version_of r b ≡ (if bytes_eq a b then some v else version_of ns b))
      × IsUnique r
add_newnode_refines old v ns a u = (
  upsert ns a v,
  add_newnode-upsert old v ns a,
  version_of-upsert ns a v,
  upsert-IsUnique ns a v u,
)

insert_from_no_memory :
    (v : List ℕ) (ns : List NodeInfo) (a : Mac)
    → insert_from none ns a (some v)
      ≡ some (if check_node_is_exist ns a then (ok, upsert ns a v) else (failed, ns))
unfolding insert_from upsert check_node_is_exist
insert_from_no_memory v [] a = refl
insert_from_no_memory v (n ∷ ns) a = ground (arith, insert_from_no_memory v ns a)

-- With no memory, a registered address still gets its version, and any other leaves the list as it
-- was, with ENOMEM for an empty list and -1 for one with nodes.
pub add_newnode_no_memory :
    (v : List ℕ) (n : NodeInfo) (ns : List NodeInfo) (a : Mac)
    → (add_newnode none [] a (some v) ≡ some (enomem, []))
      × (add_newnode none (n ∷ ns) a (some v)
          ≡ some (
              if check_node_is_exist (n ∷ ns) a
              then (ok, upsert (n ∷ ns) a v)
              else (failed, n ∷ ns)))
unfolding add_newnode
add_newnode_no_memory v n ns a = (refl, insert_from_no_memory v (n ∷ ns) a)

insert_from_null :
    (old : List ℕ) (ns : List NodeInfo) (a : Mac)
    → insert_from (some old) ns a none ≡ (if check_node_is_exist ns a then some (ok, ns) else none)
unfolding insert_from check_node_is_exist
insert_from_null old [] a = refl
insert_from_null old (n ∷ ns) a = ground (arith, insert_from_null old ns a)

-- A NULL version is guarded only on the first node, which then keeps the bytes that its block held,
-- and on a node found; behind the last node the copy from NULL is a fault.
pub add_newnode_null :
    (old : List ℕ) (n : NodeInfo) (ns : List NodeInfo) (a : Mac)
    → (add_newnode (some old) [] a none ≡ some (ok, record { mac_addr = a; version = old } ∷ []))
      × (add_newnode (some old) (n ∷ ns) a none
          ≡ (if check_node_is_exist (n ∷ ns) a then some (ok, n ∷ ns) else none))
unfolding add_newnode
add_newnode_null old n ns a = (refl, insert_from_null old (n ∷ ns) a)

version_of-del_node :
    (ns : List NodeInfo) (a b : Mac)
    → IsUnique ns
    → version_of (del_node ns a) b ≡ (if bytes_eq a b then none else version_of ns b)
unfolding del_node
version_of-del_node [] a b u = ground arith
version_of-del_node (n ∷ ns) a b u = ground (
  arith,
  bytes_eq_iff n.mac_addr a,
  bytes_eq_iff n.mac_addr b,
  bytes_eq_iff a b,
  version_of-del_node ns a b u.1,
)

del_node-IsUnique : (ns : List NodeInfo) (a : Mac) → IsUnique ns → IsUnique (del_node ns a)
unfolding del_node
del_node-IsUnique [] a u = tt
del_node-IsUnique (n ∷ ns) a u =
    ground (arith, version_of-del_node ns a n.mac_addr u.1, del_node-IsUnique ns a u.1)

-- In a list without duplicates deleting takes exactly this address out of the map, and brings no
-- duplicate in.
pub del_node_refines :
    (ns : List NodeInfo) (a : Mac)
    → IsUnique ns
    → ((b : Mac) → version_of (del_node ns a) b ≡ (if bytes_eq a b then none else version_of ns b))
      × IsUnique (del_node ns a)
del_node_refines ns a u = (λ b. version_of-del_node ns a b u, del_node-IsUnique ns a u)

-- The list as the root keeps it: addresses of 6 bytes, none twice.
abbrev pub IsList : List NodeInfo → Type 0
IsList ns = IsUnique ns × HasMacs ns

upsert-HasMacs :
    (ns : List NodeInfo) (a : Mac) (v : List ℕ)
    → length a ≡ 6
    → HasMacs ns
    → HasMacs (upsert ns a v)
unfolding upsert
upsert-HasMacs [] a v six h = (six, tt)
upsert-HasMacs (n ∷ ns) a v six h = ground (arith, upsert-HasMacs ns a v)

del_node-HasMacs : (ns : List NodeInfo) (a : Mac) → HasMacs ns → HasMacs (del_node ns a)
unfolding del_node
del_node-HasMacs [] a h = tt
del_node-HasMacs (n ∷ ns) a h = ground (arith, del_node-HasMacs ns a)

pub upsert-IsList :
    (ns : List NodeInfo) (a : Mac) (v : List ℕ) → length a ≡ 6 → IsList ns → IsList (upsert ns a v)
upsert-IsList ns a v six l = (upsert-IsUnique ns a v l.0, upsert-HasMacs ns a v six l.1)

pub del_node-IsList : (ns : List NodeInfo) (a : Mac) → IsList ns → IsList (del_node ns a)
del_node-IsList ns a l = (del_node-IsUnique ns a l.0, del_node-HasMacs ns a l.1)
