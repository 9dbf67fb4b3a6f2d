-- ===== src/Sort.antt =====
-- `pupa_bsearch` and `pupa_sort` of src/pupa_store.c: the binary insertion of the last item.
pub mod Search
pub mod Move
use pupa.Common.{
  ℕ, zero, suc, ◌+◌, ◌-◌, ◌*◌, ◌/◌, Ordering, Bool, Option, none, some, ltb, leb, if◌then◌else◌,
}
use pupa.Memory.{Mem, put, copy}
use pupa.Item.{item_compare}

-- `position` is the returned index. `escapes` is the case in which the source passes `mid - 1` for
-- `mid == 0`: as a `size_t` the new upper end is SIZE_MAX, and the next read is in front of the array.
-- `no_fuel` marks an exhausted fuel, which never happens with `high - low + 1` of it.
pub data Found : Type 0 where
  position : ℕ → Found
  escapes : Found
  no_fuel : Found

-- `pupa_bsearch(elt, arg, base, size, low, high, cmp)`, with `cmp p` for `cmp(elt, p, arg)`.
unfoldable pub pupa_bsearch : (ℕ → Ordering) → (base size : ℕ) → (fuel low high : ℕ) → Found
pupa_bsearch cmp base size zero low high = no_fuel
pupa_bsearch cmp base size (suc fuel) low high =
    let mid = (low + high) / 2 in
    let right = pupa_bsearch cmp base size fuel (mid + 1) high in
    let left = pupa_bsearch cmp base size fuel low (mid - 1) in
    let at_mid : Found = elim (cmp (base + mid * size)) [
      | Ordering.eq ↦ position (mid + 1)
      | Ordering.gt ↦ right
      | Ordering.lt ↦ if ltb 0 mid then left else escapes
    ] in
    let at_low : Found = elim (cmp (base + low * size)) [
      | Ordering.gt ↦ position (low + 1)
      | _ ↦ position low
    ] in
    if leb high low then at_low else at_mid

-- The move of `pupa_sort`: the element at `count` goes to `pos`, those from `pos` on one further.
-- `memcpy(p, base + count * size, size)` at the start of the function keeps its bytes.
unfoldable pub insert_last : Mem → (base size count pos : ℕ) → Mem
unfolding put copy
insert_last m base size count pos =
    let p = λ (i : ℕ). m (base + count * size + i) in
    let moved = copy m (base + (pos + 1) * size) (base + pos * size) ((count - pos) * size) in
    let placed = put moved (base + pos * size) p size in if ltb pos count then placed else m

-- What `pupa_sort` does with the result of its search.
unfoldable pub place : Mem → (base size count : ℕ) → Found → Option Mem
unfolding insert_last
place m base size count (position pos) = some (insert_last m base size count pos)
place m base size count escapes = none
place m base size count no_fuel = none

-- `pupa_sort` over `n` elements, `n` not 0. `none` is a search that leaves the array. `allocated`
-- is whether `malloc` returned memory.
unfoldable pub pupa_sort : Mem → (allocated : Bool) → (base n size : ℕ) → Option Mem
unfolding place pupa_bsearch item_compare
pupa_sort m allocated base n size =
    let count = n - 1 in
    let cmp = λ (p : ℕ). item_compare m (base + count * size) p in
    let sorted = place m base size count (pupa_bsearch cmp base size n 0 count) in
    if allocated then sorted else some m
