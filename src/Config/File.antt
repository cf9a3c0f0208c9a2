-- ===== src/Config/File.antt =====
-- Lines of the settings file, written and read back.
use esp32_mesh.Common.{
  ℕ, zero, suc, ◌+◌, ◌≤◌, ◌<◌, ◌≡◌, ◌≢◌, refl, ap, sym, ◌∙◌, true, [], ◌∷◌, ◌++◌, length, arith,
  ltb, length-append, lt→ltb,
}
use mathlib.Core.List.{append_assoc}
use esp32_mesh.Config.Items.{
  Item, router_ssid, mesh_id, server_ip, server_port, run_mode, max_layer, backoff_rssi, name,
  item_eq,
}
use esp32_mesh.Config.Text.{
  Bytes, newline, equals, before, after, cstr, take_line, fgets, is_prefix,
}
use esp32_mesh.Config.{line_of, is_in}

-- No byte of the text is `c`.
abbrev pub Free : ℕ → Bytes → Type 0
Free c [] = Unit {0}
Free c (x ∷ xs) = (x ≢ c) × Free c xs

pub Free-append : (c : ℕ) (xs ys : Bytes) → Free c xs → Free c ys → Free c (xs ++ ys)
Free-append c [] ys f g = g
Free-append c (x ∷ xs) ys f g = (f.0, Free-append c xs ys f.1 g)

pub take_line_lem :
    (n : ℕ) (xs rest : Bytes)
    → Free newline xs
    → length xs < n
    → take_line n (xs ++ newline ∷ rest) ≡ (xs ++ newline ∷ [], rest)
unfolding take_line
take_line_lem zero xs rest f h = absurd (omega arith)
take_line_lem (suc n) [] rest f h = refl
take_line_lem (suc n) (x ∷ xs) rest f h = ground (arith, take_line_lem n xs rest f.1)

pub before_lem : (c : ℕ) (xs rest : Bytes) → Free c xs → before c (xs ++ c ∷ rest) ≡ xs
unfolding before
before_lem c [] rest f = ground arith
before_lem c (x ∷ xs) rest f = ground (arith, before_lem c xs rest f.1)

pub before-Free : (c : ℕ) (xs : Bytes) → Free c xs → before c xs ≡ xs
unfolding before
before-Free c [] f = refl
before-Free c (x ∷ xs) f = ground (arith, before-Free c xs f.1)

pub after_lem : (c : ℕ) (xs rest : Bytes) → Free c xs → after c (xs ++ c ∷ rest) ≡ rest
unfolding after
after_lem c [] rest f = ground arith
after_lem c (x ∷ xs) rest f = ground (arith, after_lem c xs rest f.1)

pub fgets_lem :
    (n : ℕ) (xs rest buffer : Bytes)
    → Free newline xs
    → length xs < n
    → fgets n (xs ++ newline ∷ rest) buffer ≡ (xs ++ newline ∷ [], rest)
unfolding fgets
fgets_lem n [] rest buffer f h = take_line_lem n [] rest f h
fgets_lem n (x ∷ xs) rest buffer f h = take_line_lem n (x ∷ xs) rest f h

-- The names of the items hold none of the bytes that end a text, a line or a name, and none begins a
-- line of another.
pub name-Free : (i : Item) → Free 0 (name i) × Free newline (name i) × Free equals (name i)
name-Free router_ssid = omega arith
name-Free _ = omega arith

pub name_of_line :
    (i j : Item) (rest : Bytes) → is_prefix (name j) (name i ++ equals ∷ rest) ≡ item_eq i j
name_of_line router_ssid router_ssid rest = refl
name_of_line router_ssid _ rest = refl
name_of_line mesh_id router_ssid rest = refl
name_of_line mesh_id _ rest = refl
name_of_line server_ip router_ssid rest = refl
name_of_line server_ip _ rest = refl
name_of_line server_port router_ssid rest = refl
name_of_line server_port _ rest = refl
name_of_line run_mode router_ssid rest = refl
name_of_line run_mode _ rest = refl
name_of_line max_layer router_ssid rest = refl
name_of_line max_layer _ rest = refl
name_of_line backoff_rssi router_ssid rest = refl
name_of_line backoff_rssi _ rest = refl

-- A value that fits the line buffer with its item, and has no byte that ends a text or a line.
pub record IsValue (i : Item) (v : Bytes) : Type 0 where
  pub no_nul : Free 0 v
  pub no_newline : Free newline v
  pub fits : length (name i) + length v ≤ 125

-- The text of a line, without its end.
abbrev pub body : Item → Bytes → Bytes
body i v = name i ++ equals ∷ v

module _ (i : Item) (v : Bytes) (w : IsValue i v) where
  pub line_of-body : (rest : Bytes) → line_of (name i) v ++ rest ≡ body i v ++ newline ∷ rest
  line_of-body rest =
      append_assoc (name i) (equals ∷ (v ++ newline ∷ [])) rest
      ∙ ap (λ r. name i ++ equals ∷ r) (append_assoc v (newline ∷ []) rest)
      ∙ sym (append_assoc (name i) (equals ∷ v) (newline ∷ rest))

  pub body-Free-newline : Free newline (body i v)
  body-Free-newline =
      Free-append newline (name i) (equals ∷ v) (name-Free i).1 ((λ e. cc), w.no_newline)

  pub body-Free_nul : Free 0 (body i v)
  body-Free_nul = Free-append 0 (name i) (equals ∷ v) (name-Free i).0 ((λ e. cc), w.no_nul)

  pub fgets_of_line :
      (buffer rest : Bytes)
      → fgets 127 (line_of (name i) v ++ rest) buffer ≡ (body i v ++ newline ∷ [], rest)
  fgets_of_line buffer rest =
      ap (λ t. fgets 127 t buffer) (line_of-body rest)
      ∙ fgets_lem 127 (body i v) rest buffer body-Free-newline
          (omega (arith, length-append (name i) (equals ∷ v), w.fits))

  -- The text of the line as the two loops see it: in the buffer, without its end, and behind the sign.
  pub cstr_of_line : cstr (body i v ++ newline ∷ []) ≡ body i v ++ newline ∷ []
  cstr_of_line =
      before-Free 0 (body i v ++ newline ∷ [])
        (Free-append 0 (body i v) (newline ∷ []) body-Free_nul ((λ e. cc), tt))

  pub line_read : before newline (cstr (body i v ++ newline ∷ [])) ≡ body i v
  line_read = ap (before newline) cstr_of_line ∙ before_lem newline (body i v) [] body-Free-newline

  pub value_read : after equals (body i v) ≡ v
  value_read = after_lem equals (name i) v (name-Free i).2

  pub has_equals : is_in equals (body i v) ≡ true
  unfolding is_in
  has_equals =
      ap (λ b. ltb (length b) (length (body i v))) (before_lem equals (name i) v (name-Free i).2)
      ∙ lt→ltb _ _ (omega (arith, length-append (name i) (equals ∷ v)))
