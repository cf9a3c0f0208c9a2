-- ===== src/Httpd/Filter/Ring.antt =====
-- The places of a ring of values, and what its last values add up to.

use native.Mathlib.Nat.{mod-eq_of_lt, mod_self}
use esp32_mesh.Common.{
  ℕ, zero, suc, ◌+◌, ◌-◌, ◌%◌, ◌<◌, ◌≡◌, ◌≢◌, refl, ap, ◌∙◌, inl, inr, List, [], ◌∷◌, get_or,
  length, take, ltb, if◌then◌else◌, arith, Bool-cases, ltb→lt,
}
use esp32_mesh.Config.Text.{set}

-- The index behind another.
abbrev pub next : (size index : ℕ) → ℕ
next size index = if ltb (index + 1) size then index + 1 else 0

pub next_lem : (size index : ℕ) → index < size → (index + 1) % size ≡ next size index
next_lem size index l = elim (Bool-cases (ltb (index + 1) size)) [
  | inl more ↦ rw more (mod-eq_of_lt (ltb→lt (index + 1) size more))
  | inr last ↦
      let all : index + 1 ≡ size = ground arith in rw last (ap (λ k. k % size) all ∙ mod_self size)
]

pub get_or-set : (xs : List ℕ) (i v : ℕ) → i < length xs → get_or (set xs i v) i 0 ≡ v
get_or-set [] i v h = absurd (omega arith)
get_or-set (x ∷ xs) zero v h = refl
get_or-set (x ∷ xs) (suc i) v h = get_or-set xs i v (omega arith)

pub get_or-set_other : (xs : List ℕ) (i j v : ℕ) → j ≢ i → get_or (set xs i v) j 0 ≡ get_or xs j 0
get_or-set_other [] i j v h = refl
get_or-set_other (x ∷ xs) zero zero v h = absurd (h refl)
get_or-set_other (x ∷ xs) zero (suc j) v h = refl
get_or-set_other (x ∷ xs) (suc i) zero v h = refl
get_or-set_other (x ∷ xs) (suc i) (suc j) v h = get_or-set_other xs i j v (λ e. h (ap suc e))

abbrev pub total : List ℕ → ℕ
total [] = 0
total (x ∷ xs) = x + total xs

pub total-take : (n : ℕ) (xs : List ℕ) → total (take (suc n) xs) ≡ total (take n xs) + get_or xs n 0
total-take zero [] = refl
total-take (suc n) [] = refl
total-take zero (x ∷ xs) = omega arith
total-take (suc n) (x ∷ xs) = omega (arith, total-take n xs)

-- All of the values are 32-bit words.
abbrev pub Words : List ℕ → Type 0
Words [] = Unit {0}
Words (x ∷ xs) = (x < 4294967296) × Words xs

pub Words-get_or : (xs : List ℕ) (i : ℕ) → Words xs → get_or xs i 0 < 4294967296
Words-get_or [] i w = omega arith
Words-get_or (x ∷ xs) zero w = w.0
Words-get_or (x ∷ xs) (suc i) w = Words-get_or xs i w.1

-- Where the value stands that came before `age` others.
abbrev pub slot : (size index age : ℕ) → ℕ
slot size index age = if ltb age index then index - 1 - age else size + index - 1 - age

pub slot-next :
    (size index age : ℕ)
    → index < size
    → suc age < size
    → (slot size (next size index) (suc age) ≡ slot size index age) × (slot size index age ≢ index)
slot-next size index age l m = (ground arith, ground arith)

pub slot_first : (size index : ℕ) → index < size → slot size (next size index) 0 ≡ index
slot_first size index l = ground arith

pub slot_last : (n index : ℕ) → index < suc n → slot (suc n) index n ≡ index
slot_last n index l = ground arith
