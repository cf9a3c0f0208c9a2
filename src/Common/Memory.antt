-- ===== src/Common/Memory.antt =====
-- A memory region as a function from offsets to bytes, with `memcpy`, `memset` and the stores of
-- single bytes and little-endian 16-bit words.
use Prim.Native.Nat.{ℕ, zero, suc, ◌+◌, ◌-◌, ◌*◌, ◌/◌, ◌%◌, ◌<◌, ◌≤◌}
use mathlib.Core.Path.{◌≡◌, refl, ap, ap₂, ◌∙◌}
use mathlib.Core.Logic.{◌⊎◌}
use mathlib.Core.Bool.{Bool, ◌&&◌}
use mathlib.Core.List.{List, [], ◌∷◌, ◌++◌}
use native.Mathlib.Omega.{arith}
use esp32_mesh.Common.Tests.{◌==◌, leb, ltb, if◌then◌else◌}
use esp32_mesh.Common.Lists.{length, get_or}

abbrev pub Store : Type 0
Store = ℕ → ℕ

-- `a` is one of the `n` offsets from `off` on.
abbrev pub within : ℕ → ℕ → ℕ → Bool
within off n a = leb off a && ltb a (off + n)

-- memcpy(dst + off, src + from, n)
unfoldable pub memcpy : Store → ℕ → Store → ℕ → ℕ → Store
memcpy dst off src from n a = if within off n a then src (from + (a - off)) else dst a

-- memset(dst + off, b, n)
unfoldable pub memset : Store → ℕ → ℕ → ℕ → Store
memset dst off b n a = if within off n a then b else dst a

-- dst[off] = v
unfoldable pub poke : Store → ℕ → ℕ → Store
poke dst off v a = if a == off then v % 256 else dst a

-- *(uint16_t *)(dst + off) = v
unfoldable pub poke16 : Store → ℕ → ℕ → Store
unfolding poke
poke16 dst off v = poke (poke dst off v) (off + 1) (v / 256)

unfoldable pub peek16 : Store → ℕ → ℕ
peek16 m off = m off + 256 * m (off + 1)

-- A byte string as a region.
abbrev pub of_bytes : List ℕ → Store
of_bytes bs a = get_or bs a 0

-- The `n` bytes from `off` on.
abbrev pub read : Store → ℕ → ℕ → List ℕ
read m off zero = []
read m off (suc n) = m off ∷ read m (suc off) n

pub length-read : (m : Store) (off n : ℕ) → length (read m off n) ≡ n
length-read m off zero = refl
length-read m off (suc n) = ap suc (length-read m (suc off) n)

-- Two regions that agree on a range read the same there.
pub read_congr :
    (m m' : Store) (off off' n : ℕ)
    → ((i : ℕ) → i < n → m (off + i) ≡ m' (off' + i))
    → read m off n ≡ read m' off' n
read_congr m m' off off' zero h = refl
read_congr m m' off off' (suc n) h = ap₂ ◌∷◌ (ground (arith, h 0)) (
    read_congr m m' (suc off) (suc off') n
      (λ i p. ground (arith, h (suc i), shift off i, shift off' i)))
  where
    shift : (a i : ℕ) → suc a + i ≡ a + suc i
    shift a i = omega arith

pub memcpy_in :
    (d : Store) (off : ℕ) (s : Store) (from n a : ℕ)
    → off ≤ a
    → a < off + n
    → memcpy d off s from n a ≡ s (from + (a - off))
unfolding memcpy
memcpy_in d off s from n a h k = ground arith

pub memcpy_out :
    (d : Store) (off : ℕ) (s : Store) (from n a : ℕ)
    → (a < off) ⊎ (off + n ≤ a)
    → memcpy d off s from n a ≡ d a
unfolding memcpy
memcpy_out d off s from n a h = ground arith

pub read-append :
    (m : Store) (off j k : ℕ) → read m off (j + k) ≡ read m off j ++ read m (off + j) k
read-append m off zero k = ap₂ (λ (a n : ℕ). read m a n) (omega arith) (omega arith)
read-append m off (suc j) k =
    ap (read m off) (split_suc j k)
    ∙ ap (λ xs. m off ∷ xs)
        (read-append m (suc off) j k ∙ ap (λ a. read m (suc off) j ++ read m a k) (omega arith))
  where
    split_suc : (j k : ℕ) → suc j + k ≡ suc (j + k)
    split_suc j k = omega arith

-- What `memcpy` has written reads back.
pub read-memcpy :
    (d : Store) (off : ℕ) (s : Store) (from n i k : ℕ)
    → i + k ≤ n
    → read (memcpy d off s from n) (off + i) k ≡ read s (from + i) k
read-memcpy d off s from n i k h =
    read_congr _ _ _ _ k
      λ j p. memcpy_in d off s from n (off + i + j) (omega arith) (omega arith) ∙ ap s (omega arith)

-- It leaves what lies outside its range.
pub read-memcpy_out :
    (d : Store) (off : ℕ) (s : Store) (from n o k : ℕ)
    → (o + k ≤ off) ⊎ (off + n ≤ o)
    → read (memcpy d off s from n) o k ≡ read d o k
read-memcpy_out d off s from n o k h =
    read_congr _ _ _ _ k λ j p. memcpy_out d off s from n (o + j) (omega arith)

pub read-memset :
    (d : Store) (off b n o k : ℕ)
    → (o + k ≤ off) ⊎ (off + n ≤ o)
    → read (memset d off b n) o k ≡ read d o k
unfolding memset
read-memset d off b n o k h = read_congr _ _ _ _ k λ j p. ground arith

pub read-poke :
    (d : Store) (off v o k : ℕ) → (o + k ≤ off) ⊎ (off < o) → read (poke d off v) o k ≡ read d o k
unfolding poke
read-poke d off v o k h = read_congr _ _ _ _ k λ j p. ground arith

pub poke_self : (d : Store) (off v : ℕ) → v < 256 → poke d off v off ≡ v
unfolding poke
poke_self d off v h = ground arith

pub poke_out : (d : Store) (off v a : ℕ) → (a < off) ⊎ (off < a) → poke d off v a ≡ d a
unfolding poke
poke_out d off v a h = ground arith

pub memset_in : (d : Store) (off b n a : ℕ) → off ≤ a → a < off + n → memset d off b n a ≡ b
unfolding memset
memset_in d off b n a h k = ground arith

pub memset_out : (d : Store) (off b n a : ℕ) → (a < off) ⊎ (off + n ≤ a) → memset d off b n a ≡ d a
unfolding memset
memset_out d off b n a h = ground arith

pub peek16-poke16 : (d : Store) (off v : ℕ) → v < 65536 → peek16 (poke16 d off v) off ≡ v
unfolding poke16 poke peek16
peek16-poke16 d off v h = ground arith

pub poke16_out : (d : Store) (off v a : ℕ) → (a < off) ⊎ (off + 1 < a) → poke16 d off v a ≡ d a
unfolding poke16 poke
poke16_out d off v a h = ground arith

pub peek16_congr :
    (m m' : Store) (o o' : ℕ) → m o ≡ m' o' → m (o + 1) ≡ m' (o' + 1) → peek16 m o ≡ peek16 m' o'
unfolding peek16
peek16_congr m m' o o' h k = rw (h, k)
