-- ===== src/Memory/Load.antt =====
-- Little-endian fields of 4 and 8 bytes.
use pupa.Common.{ℕ, zero, suc, ◌+◌, ◌*◌, ◌/◌, ◌%◌, ◌≤◌, ◌<◌, ◌≡◌, refl, ◌∙◌, ◌⊎◌, arith}
use pupa.Memory.Put.{Mem, put, put_inside, put_outside}

-- The number whose bytes are `f 0` to `f (n - 1)`.
unfoldable pub le_value : ℕ → (ℕ → ℕ) → ℕ
le_value zero f = 0
le_value (suc n) f = f 0 + 256 * le_value n (λ i. f (suc i))

-- The byte `i` of `v`.
unfoldable pub byte : ℕ → ℕ → ℕ
byte v zero = v % 256
byte v (suc i) = byte (v / 256) i

-- `v` needs no more than `n` bytes.
abbrev pub Fits : ℕ → ℕ → Type 0
Fits zero v = v ≡ 0
Fits (suc n) v = Fits n (v / 256)

unfoldable pub load : ℕ → Mem → ℕ → ℕ
unfolding le_value
load n m a = le_value n (λ i. m (a + i))

unfoldable pub store : ℕ → Mem → ℕ → ℕ → Mem
unfolding byte put
store n m a v = put m a (byte v) n

le_value-ext : (n : ℕ) (f g : ℕ → ℕ) → ((i : ℕ) → i < n → f i ≡ g i) → le_value n f ≡ le_value n g
unfolding le_value
le_value-ext zero f g h = refl
le_value-ext (suc n) f g h = omega (
  arith,
  h 0 (omega arith),
  le_value-ext n (λ i. f (suc i)) (λ i. g (suc i)) (λ i p. h (suc i) (omega arith)),
)

le_value-byte : (n v : ℕ) → Fits n v → le_value n (byte v) ≡ v
unfolding le_value byte
le_value-byte zero v h = omega arith
le_value-byte (suc n) v h = omega (arith, le_value-byte n (v / 256) h)

-- Two loads agree if the bytes that they read do.
pub load-ext :
    (n : ℕ) (m m' : Mem) (a b : ℕ)
    → ((i : ℕ) → i < n → m (a + i) ≡ m' (b + i))
    → load n m a ≡ load n m' b
unfolding load
load-ext n m m' a b h = le_value-ext n _ _ h

pub load-store_self : (n : ℕ) (m : Mem) (a v : ℕ) → Fits n v → load n (store n m a v) a ≡ v
unfolding load store
load-store_self n m a v h =
    le_value-ext n _ _ (λ i p. put_inside m a (byte v) n (a + i) i refl p) ∙ le_value-byte n v h

-- A write leaves a field alone that it does not overlap.
pub load-put_apart :
    (k : ℕ) (m : Mem) (dst : ℕ) (bytes : ℕ → ℕ) (n b : ℕ)
    → (b + k ≤ dst) ⊎ (dst + n ≤ b)
    → load k (put m dst bytes n) b ≡ load k m b
load-put_apart k m dst bytes n b h =
    load-ext k _ _ b b (λ i p. put_outside m dst bytes n (b + i) (omega arith))

-- A store leaves a field alone that it does not overlap.
pub load-store_apart :
    (n k : ℕ) (m : Mem) (a b v : ℕ)
    → (b + k ≤ a) ⊎ (a + n ≤ b)
    → load k (store n m a v) b ≡ load k m b
unfolding store
load-store_apart n k m a b v h = load-put_apart k m a (byte v) n b h

-- A field is read back from its bytes.
pub load_of_bytes :
    (n : ℕ) (m : Mem) (a v : ℕ)
    → Fits n v
    → ((i : ℕ) → i < n → m (a + i) ≡ byte v i)
    → load n m a ≡ v
unfolding load
load_of_bytes n m a v f h = le_value-ext n _ _ h ∙ le_value-byte n v f
