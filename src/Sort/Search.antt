-- ===== src/Sort/Search.antt =====
-- `pupa_bsearch` finds the place of the last element, or leaves the array.
use pupa.Common.{
  ℕ, zero, suc, ◌+◌, ◌-◌, ◌*◌, ◌/◌, ◌^◌, ◌≤◌, ◌<◌, ◌≡◌, inl, inr, Ordering, arith, leb, Bool-cases,
}
use native.Mathlib.Nat.{pow-suc}
use pupa.Sort.{Found, position, escapes, no_fuel, pupa_bsearch}

-- The element belongs behind the first `r` of the `count` elements and in front of the others, and
-- element `count` is the element itself.
pub record IsRank (cmp : ℕ → Ordering) (base size count r : ℕ) : Type 0 where
  pub within : r ≤ count
  pub below : (i : ℕ) → i < r → cmp (base + i * size) ≡ Ordering.gt
  pub above : (i : ℕ) → r ≤ i → i < count → cmp (base + i * size) ≡ Ordering.lt
  pub last : cmp (base + count * size) ≡ Ordering.eq

pow_pos : (k : ℕ) → 0 < 2 ^ k
pow_pos zero = omega arith
pow_pos (suc k) = omega (arith, pow-suc 2 k, pow_pos k)

-- `pos` is the rank, or the search left the array, which it does only for rank 0.
abbrev pub Finds : ℕ → Found → Type 0
Finds r (position p) = p ≡ r
Finds r escapes = r ≡ 0
Finds r no_fuel = ⊥

module _ (cmp : ℕ → Ordering) (base size count r : ℕ) (rank : IsRank cmp base size count r) where
  search-Finds :
      (fuel low high : ℕ)
      → 0 < fuel
      → high < fuel + low
      → low ≤ r
      → r ≤ high + 1
      → high ≤ count
      → Finds r (pupa_bsearch cmp base size fuel low high)
  unfolding pupa_bsearch
  search-Finds zero low high f h a b c = absurd (omega arith)
  search-Finds (suc fuel) low high f h a b c = elim (Bool-cases (leb high low)) [
    | inl e ↦ ground (arith, rank.below low, rank.above low, rank.last)
    | inr e ↦ ground (
      arith,
      rank.below ((low + high) / 2),
      rank.above ((low + high) / 2),
      rank.last,
      search-Finds fuel ((low + high) / 2 + 1) high,
      search-Finds fuel low ((low + high) / 2 - 1),
    )
  ]

  -- In an ordered array the search for the place of the last element never runs out of its fuel. It
  -- returns the number of the elements below it, or leaves the array; that only if no element is
  -- below it.
  pub search_lem : Finds r (pupa_bsearch cmp base size (count + 1) 0 count)
  search_lem =
      search-Finds (count + 1) 0 count (omega arith) (omega arith) (omega arith)
        (omega (arith, rank.within)) (omega arith)

  -- An element with another one below it is placed: the search returns its rank.
  pub search_of_pos : 0 < r → pupa_bsearch cmp base size (count + 1) 0 count ≡ position r
  search_of_pos h = ground (arith, search_lem)

-- With every element above the new one, the search goes to the left at each step.
module _ (cmp : ℕ → Ordering) (base size count : ℕ)
    (least : (i : ℕ) → i < count → cmp (base + i * size) ≡ Ordering.lt)
    (last : cmp (base + count * size) ≡ Ordering.eq) where
  left_escapes :
      (k fuel high : ℕ)
      → high < fuel
      → high ≤ count
      → 3 * 2 ^ k ≤ high + 2
      → high + 2 < 4 * 2 ^ k
      → pupa_bsearch cmp base size fuel 0 high ≡ escapes
  unfolding pupa_bsearch
  left_escapes k zero high f c lo hi = absurd (omega arith)
  left_escapes zero (suc fuel) high f c lo hi = ground (arith, least 0)
  left_escapes (suc k) (suc fuel) high f c lo hi =
      let e : 2 ^ suc k ≡ 2 ^ k * 2 = pow-suc 2 k in
      ground (arith, e, pow_pos k, least (high / 2), left_escapes k fuel (high / 2 - 1))

  left_places :
      (k fuel high : ℕ)
      → high < fuel
      → high ≤ count
      → 2 * 2 ^ k ≤ high + 2
      → high + 2 < 3 * 2 ^ k
      → pupa_bsearch cmp base size fuel 0 high ≡ position 0
  unfolding pupa_bsearch
  left_places k zero high f c lo hi = absurd (omega arith)
  left_places zero (suc fuel) high f c lo hi = ground (arith, least 0, last)
  left_places (suc k) (suc fuel) high f c lo hi =
      let e : 2 ^ suc k ≡ 2 ^ k * 2 = pow-suc 2 k in
      ground (arith, e, pow_pos k, least (high / 2), left_places k fuel (high / 2 - 1))

  -- A new smallest element, of `count + 1` elements in all: for `count + 2` in the lower half of a
  -- power-of-two interval the search returns place 0, and in the upper half it leaves the array.
  pub search_least :
      (k : ℕ)
      → (2 * 2 ^ k ≤ count + 2
          → count + 2 < 3 * 2 ^ k
          → pupa_bsearch cmp base size (count + 1) 0 count ≡ position 0)
        × (3 * 2 ^ k ≤ count + 2
            → count + 2 < 4 * 2 ^ k
            → pupa_bsearch cmp base size (count + 1) 0 count ≡ escapes)
  search_least k = (
    left_places k (count + 1) count (omega arith) (omega arith),
    left_escapes k (count + 1) count (omega arith) (omega arith),
  )
