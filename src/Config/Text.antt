-- ===== src/Config/Text.antt =====
-- The calls of the C library on text that main/app_spiffs.c makes, on byte strings.
use esp32_mesh.Common.{
  ◌≡◌, refl, ap, ℕ, zero, suc, ◌-◌, Bool, true, false, ◌&&◌, List, [], ◌∷◌, ◌++◌, length, take,
  drop, ltb, ◌==◌, if◌then◌else◌,
}

abbrev pub Bytes : Type 0
Bytes = List ℕ

abbrev pub newline : ℕ
newline = 10

abbrev pub equals : ℕ
equals = 61

-- The bytes up to the first `c`, all of them where there is none.
unfoldable pub before : ℕ → Bytes → Bytes
before c [] = []
before c (x ∷ xs) = if x == c then [] else x ∷ before c xs

-- The bytes behind the first `c`.
unfoldable pub after : ℕ → Bytes → Bytes
after c [] = []
after c (x ∷ xs) = if x == c then xs else after c xs

-- The text of a character array.
abbrev pub cstr : Bytes → Bytes
cstr = before 0

-- At most `n` bytes, to the first newline, which is taken as well.
unfoldable pub take_line : ℕ → Bytes → Bytes × Bytes
take_line zero text = ([], text)
take_line (suc n) [] = ([], [])
take_line (suc n) (c ∷ text) =
    let rest = take_line n text in if c == newline then (c ∷ [], text) else (c ∷ rest.0, rest.1)

-- fgets(buffer, n + 1, f): what the buffer holds then, and what is left of the file. At the end of the
-- file the buffer keeps what it held.
unfoldable pub fgets : ℕ → Bytes → Bytes → Bytes × Bytes
unfolding take_line
fgets n [] buffer = (buffer, [])
fgets n (c ∷ text) buffer = take_line n (c ∷ text)

-- strncmp(line, item, strlen(item)) == 0
abbrev pub is_prefix : Bytes → Bytes → Bool
is_prefix [] line = true
is_prefix (x ∷ xs) [] = false
is_prefix (x ∷ xs) (y ∷ ys) = x == y && is_prefix xs ys

-- array[i] = v
abbrev pub set : Bytes → ℕ → ℕ → Bytes
set [] i v = []
set (x ∷ xs) zero v = v ∷ xs
set (x ∷ xs) (suc i) v = x ∷ set xs i v

pub length-set : (xs : Bytes) (i v : ℕ) → length (set xs i v) ≡ length xs
length-set [] i v = refl
length-set (x ∷ xs) zero v = refl
length-set (x ∷ xs) (suc i) v = ap suc (length-set xs i v)

-- len = min(strlen(value), sizeof(field)); memcpy(field, value, len); field[sizeof(field) - 1] = 0
unfoldable pub copy_field : ℕ → (old value : Bytes) → Bytes
copy_field size old value =
    let len = if ltb size (length value) then size else length value in
    set (take len value ++ drop len old) (size - 1) 0
