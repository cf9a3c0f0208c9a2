-- ===== src/Httpd/Decimal.antt =====
-- `%u` of the C library, as main/app_httpd.c prints numbers.
use esp32_mesh.Common.{
  ℕ, zero, suc, ◌+◌, ◌/◌, ◌%◌, ◌≤◌, [], ◌∷◌, ◌++◌, length, length-append, ltb, if◌then◌else◌, arith,
  inl, inr, Bool-cases,
}
use esp32_mesh.Config.Text.{Bytes}

-- The last `room` digits of a number, without zeros in front.
unfoldable pub decimal_of : (room : ℕ) → ℕ → Bytes
decimal_of zero n = []
decimal_of (suc room) n =
    let front = decimal_of room (n / 10) in
    if ltb n 10 then (48 + n) ∷ [] else front ++ (48 + n % 10) ∷ []

-- A 32-bit word has at most 10 digits.
unfoldable pub decimal : ℕ → Bytes
decimal n = decimal_of 10 n

length-decimal_of : (room n : ℕ) → length (decimal_of room n) ≤ room
unfolding decimal_of
length-decimal_of zero n = omega arith
length-decimal_of (suc room) n = elim (Bool-cases (ltb n 10)) [
  | inl small ↦ rw small (omega arith)
  | inr big ↦ rw big (
      omega (
        arith,
        length-append (decimal_of room (n / 10)) ((48 + n % 10) ∷ []),
        length-decimal_of room (n / 10),
      ))
]

pub length-decimal : (n : ℕ) → length (decimal n) ≤ 10
unfolding decimal
length-decimal n = length-decimal_of 10 n
