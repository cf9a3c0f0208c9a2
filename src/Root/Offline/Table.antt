-- ===== src/Root/Offline/Table.antt =====
-- The routing table in the message buffer.
use esp32_mesh.Common.{
  ℕ, zero, suc, ◌+◌, ◌<◌, ◌≤◌, ◌≡◌, refl, sym, ap, ◌∙◌, Bool, true, false, List, [], ◌∷◌, arith,
  length, bytes_eq, if◌then◌else◌,
}
use esp32_mesh.Common.Memory.{Store, read, read_congr, memcpy_out}
use esp32_mesh.Message.{put_bytes, read-put_bytes}
use esp32_mesh.DevList.{Mac}
use esp32_mesh.Root.Offline.{table_row, gone_row, put_table, in_table}

abbrev pub AllMac : List Mac → Type 0
AllMac [] = Unit {0}
AllMac (t ∷ ts) = (length t ≡ 6) × AllMac ts

abbrev pub is_in : List Mac → Mac → Bool
is_in [] mac = false
is_in (t ∷ ts) mac = if bytes_eq mac t then true else is_in ts mac

put_table_out :
    (ts : List Mac) (i : ℕ) (m : Store) (a : ℕ) → a < table_row i → put_table ts i m a ≡ m a
unfolding put_bytes
put_table_out [] i m a l = refl
put_table_out (t ∷ ts) i m a l =
    put_table_out ts (i + 1) (put_bytes m (table_row i) t) a (omega arith)
    ∙ memcpy_out m (table_row i) _ 0 (length t) a (omega arith)

pub in_table-put_table :
    (ts : List Mac) (i : ℕ) (m : Store) (mac : Mac)
    → AllMac ts
    → in_table (length ts) i (put_table ts i m) mac ≡ is_in ts mac
unfolding in_table
in_table-put_table [] i m mac h = refl
in_table-put_table (t ∷ ts) i m mac h =
    let m1 = put_bytes m (table_row i) t in
    let row : read (put_table ts (i + 1) m1) (table_row i) 6 ≡ t =
      read_congr (put_table ts (i + 1) m1) m1 (table_row i) (table_row i) 6
        (λ j l. put_table_out ts (i + 1) m1 (table_row i + j) (omega arith))
      ∙ ap (read m1 (table_row i)) (sym h.0)
      ∙ read-put_bytes m (table_row i) t in
    rw (row, in_table-put_table ts (i + 1) m1 mac h.1) refl

-- The walk keeps the table: it writes in front of it.
in_table_congr :
    (n i : ℕ) (m m' : Store) (mac : Mac)
    → ((a : ℕ) → table_row 0 ≤ a → m' a ≡ m a)
    → in_table n i m' mac ≡ in_table n i m mac
unfolding in_table
in_table_congr zero i m m' mac h = refl
in_table_congr (suc n) i m m' mac h =
    let row : read m' (table_row i) 6 ≡ read m (table_row i) 6 =
      read_congr m' m (table_row i) (table_row i) 6 (λ j l. h (table_row i + j) (omega arith)) in
    rw (row, in_table_congr n (i + 1) m m' mac h) refl

-- The buffer holds the routing table.
abbrev pub HasTable : List Mac → Store → Type 0
HasTable table m = (mac : Mac) → in_table (length table) 0 m mac ≡ is_in table mac

pub HasTable-put_bytes :
    (table : List Mac) (m : Store) (i : ℕ) (mac : Mac)
    → length mac ≡ 6
    → i < 20
    → HasTable table m
    → HasTable table (put_bytes m (gone_row i) mac)
unfolding put_bytes
HasTable-put_bytes table m i mac six l h b =
    in_table_congr (length table) 0 m (put_bytes m (gone_row i) mac) b
      (λ a k. memcpy_out m (gone_row i) _ 0 (length mac) a (omega arith))
    ∙ h b
