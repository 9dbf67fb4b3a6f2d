-- ===== src/Lookup.antt =====
-- `bsearch` of the C library on an ordered array: it finds the element, or reports that none is there.
use pupa.Common.{ℕ, zero, suc, ◌+◌, ◌*◌, ◌/◌, ◌≤◌, ◌<◌, ◌≡◌, Ordering, none, some, arith}
use pupa.Context.{bsearch}

-- Element `r` of the `n` elements is the key, those before it are smaller, those behind it greater.
pub record IsHit (cmp : ℕ → Ordering) (base size n r : ℕ) : Type 0 where
  pub within : r < n
  pub below : (i : ℕ) → i < r → cmp (base + i * size) ≡ Ordering.gt
  pub here : cmp (base + r * size) ≡ Ordering.eq
  pub above : (i : ℕ) → r < i → i < n → cmp (base + i * size) ≡ Ordering.lt

-- The key is greater than the first `r` elements, and smaller than the others.
pub record IsMiss (cmp : ℕ → Ordering) (base size n r : ℕ) : Type 0 where
  pub within : r ≤ n
  pub below : (i : ℕ) → i < r → cmp (base + i * size) ≡ Ordering.gt
  pub above : (i : ℕ) → r ≤ i → i < n → cmp (base + i * size) ≡ Ordering.lt

module _ (cmp : ℕ → Ordering) (base size n r : ℕ) where
  loop_hit :
      IsHit cmp base size n r
      → (fuel low high : ℕ) → high ≤ fuel + low
      → low ≤ r
      → r < high
      → high ≤ n
      → bsearch cmp base size fuel low high ≡ some (base + r * size)
  unfolding bsearch
  loop_hit hit zero low high f a b c = absurd (omega arith)
  loop_hit hit (suc fuel) low high f a b c =
      let mid = (low + high) / 2 in
      ground (
        arith,
        hit.below mid,
        hit.here,
        hit.above mid,
        loop_hit hit fuel (mid + 1) high,
        loop_hit hit fuel low mid,
      )

  loop_miss :
      IsMiss cmp base size n r
      → (fuel low high : ℕ) → high ≤ fuel + low
      → low ≤ r
      → r ≤ high
      → high ≤ n
      → bsearch cmp base size fuel low high ≡ none
  unfolding bsearch
  loop_miss miss zero low high f a b c = ground arith
  loop_miss miss (suc fuel) low high f a b c =
      let mid = (low + high) / 2 in
      ground (
        arith,
        miss.below mid,
        miss.above mid,
        loop_miss miss fuel (mid + 1) high,
        loop_miss miss fuel low mid,
      )

  -- The element that is the key is found.
  pub bsearch_hit : IsHit cmp base size n r → bsearch cmp base size n 0 n ≡ some (base + r * size)
  bsearch_hit hit = loop_hit hit n 0 n (omega arith) (omega arith) hit.within (omega arith)

  -- If no element is the key, the search says so.
  pub bsearch_miss : IsMiss cmp base size n r → bsearch cmp base size n 0 n ≡ none
  bsearch_miss miss = loop_miss miss n 0 n (omega arith) (omega arith) miss.within (omega arith)
