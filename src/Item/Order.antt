-- ===== src/Item/Order.antt =====
-- The order of the keys: by length first, then byte by byte.
use native.Mathlib.Decide.{ℕ_discrete}
use pupa.Common.{ℕ, zero, suc, ◌<◌, ◌^◌, ◌≡◌, refl, sym, ◌∙◌, Ordering, compare, arith}
use pupa.Memory.{Mem}
use pupa.Item.{Str, diff_sign, memcmp, compare_key, key_len, key_bytes}

-- What the comparison is meant to say of two strings.
unfoldable pub order : Str → Str → Ordering
unfolding memcmp
order a b = elim (compare a.len b.len) [
  | Ordering.lt ↦ Ordering.lt
  | Ordering.gt ↦ Ordering.gt
  | Ordering.eq ↦ memcmp a.len a.bytes b.bytes
]

abbrev pub SameBytes : ℕ → (ℕ → ℕ) → (ℕ → ℕ) → Type 0
SameBytes n p q = (i : ℕ) → i < n → p i ≡ q i

-- Two strings of the same length and bytes.
pub record SameStr (a b : Str) : Type 0 where
  pub same_len : a.len ≡ b.len
  pub same_bytes : SameBytes a.len a.bytes b.bytes

pub SameStr-refl : (a : Str) → SameStr a a
SameStr-refl a = record { same_len = refl; same_bytes = λ i l. refl }

pub SameStr-sym : (a b : Str) → SameStr a b → SameStr b a
SameStr-sym a b s = record {
  same_len = sym s.same_len;
  same_bytes = λ i l. sym (s.same_bytes i (omega (arith, s.same_len)));
}

pub SameStr-trans : (a b c : Str) → SameStr a b → SameStr b c → SameStr a c
SameStr-trans a b c s t = record {
  same_len = s.same_len ∙ t.same_len;
  same_bytes = λ i l. s.same_bytes i l ∙ t.same_bytes i (omega (arith, s.same_len));
}

-- The key of the item at `a`, its '\0' counted.
abbrev pub item_key : Mem → ℕ → Str
item_key m a = record { len = key_len m a; bytes = key_bytes m a }

-- The difference of two `uint32_t` below 2 ^ 31 compares them.
diff_sign_lem : (a b : ℕ) → a < 2 ^ 31 → b < 2 ^ 31 → diff_sign a b ≡ compare a b
unfolding diff_sign
diff_sign_lem a b h k = ground arith

abbrev tail : (ℕ → ℕ) → ℕ → ℕ
tail p i = p (suc i)

memcmp-tail :
    (n : ℕ) (p q : ℕ → ℕ)
    → memcmp (suc n) p q ≡ Ordering.eq
    → memcmp n (tail p) (tail q) ≡ Ordering.eq
unfolding memcmp
memcmp-tail n p q h = ground arith

memcmp-eq : (n : ℕ) (p q : ℕ → ℕ) → memcmp n p q ≡ Ordering.eq → SameBytes n p q
unfolding memcmp
memcmp-eq zero p q h i l = absurd (omega arith)
memcmp-eq (suc n) p q h zero l = ground arith
memcmp-eq (suc n) p q h (suc i) l =
    memcmp-eq n (tail p) (tail q) (memcmp-tail n p q h) i (omega arith)

memcmp_same : (n : ℕ) (p q : ℕ → ℕ) → SameBytes n p q → memcmp n p q ≡ Ordering.eq
unfolding memcmp
memcmp_same zero p q h = refl
memcmp_same (suc n) p q h =
    ground (arith, h 0, memcmp_same n (tail p) (tail q) (λ i l. h (suc i) (omega arith)))

memcmp-ext :
    (n : ℕ) (p q p' q' : ℕ → ℕ)
    → SameBytes n p p'
    → SameBytes n q q'
    → memcmp n p q ≡ memcmp n p' q'
unfolding memcmp
memcmp-ext zero p q p' q' h k = refl
memcmp-ext (suc n) p q p' q' h k = ground (
  arith,
  h 0,
  k 0,
  memcmp-ext n (tail p) (tail q) (tail p') (tail q') (λ i l. h (suc i) (omega arith))
      (λ i l. k (suc i) (omega arith)),
)

memcmp_swap : (n : ℕ) (p q : ℕ → ℕ) → memcmp n p q ≡ Ordering.lt → memcmp n q p ≡ Ordering.gt
unfolding memcmp
memcmp_swap zero p q h = ground arith
memcmp_swap (suc n) p q h = ground (arith, memcmp_swap n (tail p) (tail q))

memcmp_swap' : (n : ℕ) (p q : ℕ → ℕ) → memcmp n p q ≡ Ordering.gt → memcmp n q p ≡ Ordering.lt
unfolding memcmp
memcmp_swap' zero p q h = ground arith
memcmp_swap' (suc n) p q h = ground (arith, memcmp_swap' n (tail p) (tail q))

memcmp_trans :
    (n : ℕ) (p q r : ℕ → ℕ)
    → memcmp n p q ≡ Ordering.lt
    → memcmp n q r ≡ Ordering.lt
    → memcmp n p r ≡ Ordering.lt
unfolding memcmp
memcmp_trans zero p q r h k = ground arith
memcmp_trans (suc n) p q r h k = ground (arith, memcmp_trans n (tail p) (tail q) (tail r))

-- The order is antisymmetric ...
pub order_swap : (a b : Str) → order a b ≡ Ordering.lt → order b a ≡ Ordering.gt
unfolding order
order_swap a b h = ground (arith, memcmp_swap a.len a.bytes b.bytes)

pub order_swap' : (a b : Str) → order a b ≡ Ordering.gt → order b a ≡ Ordering.lt
unfolding order
order_swap' a b h = ground (arith, memcmp_swap' a.len a.bytes b.bytes)

pub order_trans :
    (a b c : Str) → order a b ≡ Ordering.lt → order b c ≡ Ordering.lt → order a c ≡ Ordering.lt
unfolding order
order_trans a b c h k = ground (arith, memcmp_trans a.len a.bytes b.bytes c.bytes)

-- ... and compares equal exactly the equal strings.
pub order-eq : (a b : Str) → order a b ≡ Ordering.eq → SameStr a b
unfolding order
order-eq a b h = record {
  same_len = ground arith;
  same_bytes = memcmp-eq a.len a.bytes b.bytes (ground arith);
}

pub order_same : (a b : Str) → SameStr a b → order a b ≡ Ordering.eq
unfolding order
order_same a b s = ground (arith, s.same_len, memcmp_same a.len a.bytes b.bytes s.same_bytes)

-- It depends on the strings only.
pub order-ext : (a b a' b' : Str) → SameStr a a' → SameStr b b' → order a b ≡ order a' b'
unfolding order
order-ext a b a' b' s t = elim (ℕ_discrete a.len b.len) [
  | yes e ↦ ground (
    arith,
    s.same_len,
    t.same_len,
    memcmp-ext a.len a.bytes b.bytes a'.bytes b'.bytes s.same_bytes
        (λ i l. t.same_bytes i (omega arith)),
  )
  | no e ↦ ground (arith, s.same_len, t.same_len)
]

-- `_pupa_store_item_compare` is this order for lengths below 2 ^ 31.
pub compare_key_lem :
    (m : Mem) (len : ℕ) (bytes : ℕ → ℕ) (p2 : ℕ)
    → len < 2 ^ 31
    → key_len m p2 < 2 ^ 31
    → compare_key m len bytes p2 ≡ order (record { len = len; bytes = bytes }) (item_key m p2)
unfolding compare_key order
compare_key_lem m len bytes p2 h k = ground (arith, diff_sign_lem len (key_len m p2))
