-- ===== src/Message.antt =====
-- The fields that every message of main/include/common.h begins with, and texts inside a message.
use esp32_mesh.Common.{
  ℕ, suc, ◌+◌, ◌-◌, get_or, ◌≤◌, ◌<◌, ◌≡◌, ◌⊎◌, refl, ap, ◌∙◌, List, [], ◌∷◌, ◌++◌, arith, length,
  length-append,
}
use esp32_mesh.Common.Memory.{
  Store, memset, poke, memcpy, memcpy_in, memcpy_out, of_bytes, read, read_congr, read-memcpy,
  read-memcpy_out,
}
use esp32_mesh.Wire.{packet_header_len}
use esp32_mesh.Wire.Msg

-- u8Header of 0xff, u8Type and u8Cmd of the message at `off`.
unfoldable pub set_header : Store → (off type cmd : ℕ) → Store
set_header m off type cmd =
    poke (poke (memset m (off + Msg.header) 0xff packet_header_len) (off + Msg.type) type)
      (off + Msg.cmd) cmd

-- strncpy(m + off, text, strlen(text) + 1)
unfoldable pub put_text : Store → ℕ → List ℕ → Store
put_text m off text = memcpy m off (of_bytes (text ++ 0 ∷ [])) 0 (length text + 1)

-- memcpy(m + off, bytes, n), for the `n` bytes given.
unfoldable pub put_bytes : Store → ℕ → List ℕ → Store
put_bytes m off bytes = memcpy m off (of_bytes bytes) 0 (length bytes)

pub set_header_out :
    (m : Store) (off type cmd a : ℕ) → (a < off) ⊎ (off + 8 ≤ a) → set_header m off type cmd a ≡ m a
unfolding set_header memset poke
set_header_out m off type cmd a h = ground arith

pub set_header_fields :
    (m : Store) (off type cmd : ℕ)
    → type < 256
    → cmd < 256
    → (set_header m off type cmd (off + 6) ≡ type) × (set_header m off type cmd (off + 7) ≡ cmd)
unfolding set_header memset poke
set_header_fields m off type cmd h k = ground arith

pub read-of_bytes : (xs : List ℕ) → read (of_bytes xs) 0 (length xs) ≡ xs
read-of_bytes [] = refl
read-of_bytes (x ∷ xs) =
    ap (λ r. x ∷ r)
      (read_congr (of_bytes (x ∷ xs)) (of_bytes xs) 1 0 (length xs) (λ i l. shift i)
        ∙ read-of_bytes xs)
  where
    shift : (i : ℕ) → of_bytes (x ∷ xs) (1 + i) ≡ of_bytes xs (0 + i)
    shift i =
        let to_suc : 1 + i ≡ suc i = omega arith in
        let from_zero : i ≡ 0 + i = omega arith in
        ap (of_bytes (x ∷ xs)) to_suc ∙ ap (of_bytes xs) from_zero

-- A byte string that has been put reads back.
pub read-put_bytes :
    (m : Store) (off : ℕ) (bytes : List ℕ) → read (put_bytes m off bytes) off (length bytes) ≡ bytes
unfolding put_bytes
read-put_bytes m off bytes =
    ap (λ a. read (put_bytes m off bytes) a (length bytes)) (omega arith)
    ∙ read-memcpy m off (of_bytes bytes) 0 (length bytes) 0 (length bytes) (omega arith)
    ∙ read-of_bytes bytes

pub read-put_bytes_out :
    (m : Store) (off : ℕ) (bytes : List ℕ) (o k : ℕ)
    → (o + k ≤ off) ⊎ (off + length bytes ≤ o)
    → read (put_bytes m off bytes) o k ≡ read m o k
unfolding put_bytes
read-put_bytes_out m off bytes o k h = read-memcpy_out m off (of_bytes bytes) 0 (length bytes) o k h

-- A text that has been put reads back with its end.
pub read-put_text :
    (m : Store) (off : ℕ) (text : List ℕ)
    → read (put_text m off text) off (length text + 1) ≡ text ++ 0 ∷ []
unfolding put_text
read-put_text m off text =
    let t = text ++ 0 ∷ [] in
    let ends : length text + 1 ≡ length t = omega (arith, length-append text (0 ∷ [])) in
    ap (λ a. read (put_text m off text) a (length text + 1)) (omega arith)
    ∙ read-memcpy m off (of_bytes t) 0 (length text + 1) 0 (length text + 1) (omega arith)
    ∙ ap (read (of_bytes t) 0) ends
    ∙ read-of_bytes t

pub read-put_text_out :
    (m : Store) (off : ℕ) (text : List ℕ) (o k : ℕ)
    → (o + k ≤ off) ⊎ (off + length text + 1 ≤ o)
    → read (put_text m off text) o k ≡ read m o k
unfolding put_text
read-put_text_out m off text o k h = read-memcpy_out m off _ 0 (length text + 1) o k (omega arith)

pub put_bytes_out :
    (m : Store) (off : ℕ) (bytes : List ℕ) (a : ℕ)
    → (a < off) ⊎ (off + length bytes ≤ a)
    → put_bytes m off bytes a ≡ m a
unfolding put_bytes
put_bytes_out m off bytes a h = memcpy_out m off (of_bytes bytes) 0 (length bytes) a h

pub put_bytes_in :
    (m : Store) (off : ℕ) (bytes : List ℕ) (a : ℕ)
    → off ≤ a
    → a < off + length bytes
    → put_bytes m off bytes a ≡ get_or bytes (a - off) 0
unfolding put_bytes
put_bytes_in m off bytes a h k =
    memcpy_in m off (of_bytes bytes) 0 (length bytes) a h k
    ∙ ap (λ i. get_or bytes i 0) (omega arith)
