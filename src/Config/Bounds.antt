-- ===== src/Config/Bounds.antt =====
-- Whatever the file holds, the settings that are read from it are texts that fit their members.
use esp32_mesh.Common.{
  length-take, length-drop, ℕ, zero, suc, ◌-◌, ◌<◌, ◌≤◌, ◌≡◌, refl, ap, sym, ◌∙◌, inl, inr, true,
  false, List, [], ◌∷◌, ◌++◌, Option, none, some, length, take, drop, Bool, arith, ltb,
  length-append, Bool-cases, if◌then◌else◌,
}
use mathlib.Core.Path.{subst}
use esp32_mesh.Config.Items.{
  Item, router_ssid, name, all_items, item_eq, size_of, field, set_field, SystemConfig,
}
use esp32_mesh.Config.Text.{
  length-set, Bytes, equals, newline, before, after, cstr, fgets, is_prefix, set, copy_field,
}
use esp32_mesh.Config.{Files, or_stop, get_round, store_value, is_in, get_loop, get_system_config}
use esp32_mesh.Config.Reading.{zeroed}
use esp32_mesh.Config.Updating.{item_eq→eq}

-- A member of this size that holds a text with its end.
abbrev pub IsText : ℕ → Bytes → Type 0
IsText size f = (length f ≡ size) × (length (cstr f) < size)

-- Every member of the settings is a text.
abbrev pub AreTexts : SystemConfig → Type 0
AreTexts c = (i : Item) → IsText (size_of i) (field i c)

-- A text ends at the latest where a 0 has been put.
length-cstr-set : (xs : Bytes) (i : ℕ) → length (cstr (set xs i 0)) ≤ i
unfolding before
length-cstr-set [] i = omega arith
length-cstr-set (x ∷ xs) zero = omega arith
length-cstr-set (x ∷ xs) (suc i) = ground (arith, length-cstr-set xs i)

copy_field-IsText :
    (size : ℕ) (old value : Bytes)
    → 0 < size
    → length old ≡ size
    → IsText size (copy_field size old value)
unfolding copy_field
copy_field-IsText size old value pos sized =
    let len = if ltb size (length value) then size else length value in
    let fits : len ≤ length value = ground arith in
    let room : len ≤ size = ground arith in
    let joined = take len value ++ drop len old in
    (
      length-set joined (size - 1) 0
          ∙ omega (
            arith,
            length-append (take len value) (drop len old),
            length-take len value fits,
            length-drop len old,
            sized,
            room,
          ),
      omega (arith, length-cstr-set joined (size - 1), pos),
    )

field-set_field :
    (j i : Item) (v : Bytes) (c : SystemConfig)
    → field i (set_field j v c) ≡ (if item_eq i j then v else field i c)
field-set_field j i v c = ground arith

size_pos : (i : Item) → 0 < size_of i
size_pos router_ssid = omega arith
size_pos _ = omega arith

put-AreTexts :
    (j : Item) (value : Bytes) (c : SystemConfig)
    → AreTexts c
    → AreTexts (set_field j (copy_field (size_of j) (field j c) value) c)
put-AreTexts j value c texts i =
    let new = copy_field (size_of j) (field j c) value in
    subst (IsText (size_of i)) (sym (field-set_field j i new c)) (elim (Bool-cases (item_eq i j)) [
      | inl same ↦ rw same (
          subst (λ k. IsText (size_of k) new) (sym (item_eq→eq i j same))
            (copy_field-IsText (size_of j) (field j c) value (size_pos j) (texts j).0))
      | inr other ↦ rw other (texts i)
    ])

store_value-AreTexts :
    (is : List Item) (line value : Bytes) (c : SystemConfig)
    → AreTexts c
    → AreTexts (store_value is line value c)
unfolding store_value
store_value-AreTexts [] line value c texts = texts
store_value-AreTexts (j ∷ is) line value c texts =
    store_value-AreTexts is line value _ (stored (is_prefix (name j) line))
  where
    stored :
        (b : Bool)
        → AreTexts (if b then set_field j (copy_field (size_of j) (field j c) value) c else c)
    stored true = put-AreTexts j value c texts
    stored false = texts

get_round-AreTexts :
    (c : SystemConfig) (line : Bytes)
    → AreTexts c
    → (c' : SystemConfig) → get_round c line ≡ some c'
    → AreTexts c'
unfolding get_round
get_round-AreTexts c line texts c' e = found (is_in equals line) e
  where
    stored : SystemConfig
    stored = store_value all_items line (after equals line) c

    found : (b : Bool) → (if b then some stored else none) ≡ some c' → AreTexts c'
    found false e = ground arith
    found true e =
        subst AreTexts (ap (λ (o : Option SystemConfig). elim o [ none ↦ stored | some x ↦ x ]) e)
          (store_value-AreTexts all_items line (after equals line) c texts)

get_loop-AreTexts :
    (n : ℕ) (text : Bytes) (c : SystemConfig) → AreTexts c → AreTexts (get_loop n text c).1
unfolding get_loop get_round
get_loop-AreTexts zero text c texts = texts
get_loop-AreTexts (suc n) text c texts =
    let (got, rest) = fgets 127 text [] in
    next (get_round c (before newline (cstr got))) rest
      (get_round-AreTexts c (before newline (cstr got)) texts)
      (λ c' texts'. get_loop-AreTexts n rest c' texts')
  where
    next :
        (o : Option SystemConfig) (rest : Bytes)
        → ((c' : SystemConfig) → o ≡ some c' → AreTexts c')
        → ((c' : SystemConfig) → AreTexts c' → AreTexts (get_loop n rest c').1)
        → AreTexts (or_stop o c (λ c'. get_loop n rest c')).1
    next none rest round later = texts
    next (some c') rest round later = later c' (round c' refl)

-- Whatever the settings file holds, and also where it cannot be read to its end, each member of the
-- settings that are read into zeroed ones has its size, and is a text that ends within it.
pub get_system_config-AreTexts : (fs : Files) → AreTexts (get_system_config fs zeroed).1
unfolding get_system_config before
get_system_config-AreTexts fs = read fs.config
  where
    zeroed_texts : AreTexts zeroed
    zeroed_texts router_ssid = (refl, omega arith)
    zeroed_texts _ = (refl, omega arith)

    read :
        (text : Option Bytes) → AreTexts (get_system_config (record fs { config = text }) zeroed).1
    read none = zeroed_texts
    read (some text) = get_loop-AreTexts 7 text zeroed zeroed_texts
