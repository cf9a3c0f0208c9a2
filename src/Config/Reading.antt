-- ===== src/Config/Reading.antt =====
-- `get_system_config` reads back the settings that stand in the file.
use esp32_mesh.Common.{
  ℕ, zero, suc, ◌-◌, ◌≡◌, refl, ap, sym, ◌∙◌, List, [], ◌∷◌, ◌++◌, length, replicate, take, drop,
  arith, ne→==, Option, some, Bool, true, ltb, if◌then◌else◌,
}
use mathlib.Core.List.{append_assoc, append-nil}
use Prim.Native.Nat.{min}
use esp32_mesh.Config.Items.{
  Item, router_ssid, mesh_id, server_ip, server_port, run_mode, max_layer, backoff_rssi, name,
  all_items, size_of, field, set_field, SystemConfig,
}
use esp32_mesh.Config.Text.{Bytes, newline, before, cstr, fgets, set, copy_field}
use esp32_mesh.Config.{
  Files, InitStatus, system_config_init, or_stop, get_round, line_of, GetStatus, file_of,
  store_value, get_loop, get_system_config,
}
use esp32_mesh.Config.File.{IsValue, Free, fgets_of_line, line_read, value_read, has_equals, body}

-- The settings after the value of one item has been stored.
abbrev pub put : Item → Bytes → SystemConfig → SystemConfig
put i v c = set_field i (copy_field (size_of i) (field i c) v) c

-- The line of an item goes to that item alone.
store_value_lem :
    (i : Item) (v : Bytes) (c : SystemConfig) → store_value all_items (body i v) v c ≡ put i v c
unfolding store_value
store_value_lem router_ssid v c = refl
store_value_lem _ v c = refl

abbrev put_all : List Item → (Item → Bytes) → SystemConfig → SystemConfig
put_all [] value c = c
put_all (i ∷ is) value c = put_all is value (put i (value i) c)

get_round_lem :
    (i : Item) (v : Bytes) (c : SystemConfig)
    → IsValue i v
    → get_round c (before newline (cstr (body i v ++ newline ∷ []))) ≡ some (put i v c)
unfolding get_round
get_round_lem i v c w =
    ap (get_round c) (line_read i v w)
    ∙ rw (has_equals i v w) (
        ap (λ u. some (store_value all_items (body i v) u c)) (value_read i v w)
        ∙ ap some (store_value_lem i v c))

get_loop_step :
    (n : ℕ) (text got rest : Bytes) (c c' : SystemConfig)
    → fgets 127 text [] ≡ (got, rest)
    → get_round c (before newline (cstr got)) ≡ some c'
    → get_loop (suc n) text c ≡ get_loop n rest c'
unfolding get_loop
get_loop_step n text got rest c c' e f =
    ap (λ r. or_stop (get_round c (before newline (cstr r.0))) c (λ d. get_loop n r.1 d)) e
    ∙ ap (λ o. or_stop o c (λ d. get_loop n rest d)) f

get_loop_lem :
    (is : List Item) (value : Item → Bytes) (rest : Bytes) (c : SystemConfig)
    → ((i : Item) → IsValue i (value i))
    → get_loop (length is) (file_of is value ++ rest) c ≡ (GetStatus.ok, put_all is value c)
unfolding get_loop
get_loop_lem [] value rest c w = refl
get_loop_lem (i ∷ is) value rest c w =
    get_loop_step (length is) (file_of (i ∷ is) value ++ rest) (body i (value i) ++ newline ∷ [])
      (file_of is value ++ rest) c (put i (value i) c)
      (ap (λ t. fgets 127 t []) (append_assoc (line_of (name i) (value i)) (file_of is value) rest)
        ∙ fgets_of_line i (value i) (w i) [] (file_of is value ++ rest))
      (get_round_lem i (value i) c (w i))
    ∙ get_loop_lem is value rest (put i (value i) c) w

-- What a text of at most `n` bytes is as a member of `n` bytes: cut to leave room for its end.
abbrev pub zeros : ℕ → Bytes
zeros n = replicate n 0

abbrev pub zeroed : SystemConfig
zeroed = record {
  router_ssid = zeros 32;
  mesh_id = zeros 6;
  server_ip = zeros 16;
  backoff_rssi = zeros 6;
  run_mode = zeros 2;
  server_port = zeros 6;
  max_layer = zeros 2;
}

-- `n` bytes and the end, of which `len` are taken from the value.
cstr_cut :
    (n len : ℕ) (v : Bytes)
    → Free 0 v
    → len ≡ min (suc n) (length v)
    → cstr (set (take len v ++ drop len (zeros (suc n))) n 0) ≡ take n v
unfolding before
cstr_cut zero zero [] f h = refl
cstr_cut (suc n) zero [] f h = refl
cstr_cut n zero (x ∷ xs) f h = absurd (omega arith)
cstr_cut n (suc l) [] f h = absurd (omega arith)
cstr_cut zero (suc l) (x ∷ xs) f h = refl
cstr_cut (suc n) (suc l) (x ∷ xs) f h =
    rw (ne→== x 0 f.0) (ap (λ r. x ∷ r) (cstr_cut n l xs f.1 (omega arith)))

cstr-copy_field :
    (n : ℕ) (v : Bytes) → Free 0 v → cstr (copy_field (suc n) (zeros (suc n)) v) ≡ take n v
unfolding copy_field
cstr-copy_field n v f =
    ap (λ k. cstr (set (take len v ++ drop len (zeros (suc n))) k 0)) (omega arith)
    ∙ cstr_cut n len v f (ground arith)
  where
    len : ℕ
    len = if ltb (suc n) (length v) then suc n else length v

field-put_all :
    (j : Item) (value : Item → Bytes) (c : SystemConfig)
    → field j (put_all all_items value c) ≡ copy_field (size_of j) (field j c) (value j)
field-put_all router_ssid value c = refl
field-put_all _ value c = refl

cstr-zeroed :
    (j : Item) (v : Bytes)
    → Free 0 v
    → cstr (copy_field (size_of j) (field j zeroed) v) ≡ take (size_of j - 1) v
cstr-zeroed router_ssid v f = cstr-copy_field 31 v f
cstr-zeroed mesh_id v f = cstr-copy_field 5 v f
cstr-zeroed server_ip v f = cstr-copy_field 15 v f
cstr-zeroed server_port v f = cstr-copy_field 5 v f
cstr-zeroed run_mode v f = cstr-copy_field 1 v f
cstr-zeroed max_layer v f = cstr-copy_field 1 v f
cstr-zeroed backoff_rssi v f = cstr-copy_field 5 v f

-- From a file with a line for each item in order, with values without a zero or a newline that fit a
-- line, reading into a zeroed structure succeeds, and leaves in each member the item's value, cut to
-- one byte less than the member's size.
pub get_system_config-file_of :
    (value : Item → Bytes) (temp : Option Bytes)
    → ((i : Item) → IsValue i (value i))
    → let r =
        get_system_config
          (record { config = some (file_of all_items value); temp = temp })
          zeroed in
      (r.0 ≡ GetStatus.ok) × ((j : Item) → cstr (field j r.1) ≡ take (size_of j - 1) (value j))
unfolding get_system_config
get_system_config-file_of value temp w =
    let runs =
      ap (λ t. get_loop 7 t zeroed) (sym (append-nil (file_of all_items value)))
      ∙ get_loop_lem all_items value [] zeroed w in
    (
      ap (λ r. r.0) runs,
      λ j.
          ap (λ r. cstr (field j r.1)) runs
          ∙ ap cstr (field-put_all j value zeroed)
          ∙ cstr-zeroed j (value j) (w j).no_nul,
    )

-- A file that is there is left as it is.
pub system_config_init_kept :
    (opened : Bool) (text : Bytes) (temp : Option Bytes)
    → let fs : Files = record { config = some text; temp = temp } in
      system_config_init true true opened fs ≡ (InitStatus.ok, fs)
unfolding system_config_init
system_config_init_kept opened text temp = refl
