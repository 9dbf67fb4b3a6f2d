-- ===== src/Store/Insert.antt =====
-- `pupa_sort` puts the last item of the snapshot into its place.
use native.Mathlib.Decide.{dec_lt, ℕ_discrete}
use pupa.Common.{
  ℕ, ◌+◌, ◌-◌, ◌*◌, ◌^◌, ◌≤◌, ◌<◌, ◌≡◌, ◌∙◌, sym, refl, ◌⊎◌, inl, inr, true, none, some, Ordering,
  arith, ltb, ◌==◌, if◌then◌else◌,
}
use pupa.Memory.{Mem}
use pupa.Item.Block.{SameBlock}
use pupa.Layout.{Header, item_len}
use pupa.Item.{Str, item_compare}
use pupa.Item.Order.{
  order, order_swap, order_swap', order_trans, order-eq, order_same, order-ext, item_key, SameStr,
  SameStr-refl, compare_key_lem,
}
use pupa.Sort.{Found, position, escapes, no_fuel, insert_last, place, pupa_sort}
use pupa.Sort.Search.{Finds, IsRank, search_lem, search_of_pos, search_least}
use pupa.Sort.Move.{insert_below, insert_at, insert_above, insert_outside}
use pupa.Store.{IsItem, IsTable, keys, values, item_at}
use pupa.Store.Find.{HasRank, rank_exists}
use pupa.Store.Keep.{Grows-refl, SameStrings, SameItem, kept_SameItem, kept_IsItem}

-- Where the item that was number `i` stands after an insertion at `r`.
abbrev pub shifted : ℕ → ℕ → ℕ
shifted r i = if ltb i r then i else i + 1

-- Which item of the array before the insertion stands at `j` after it.
abbrev source : ℕ → ℕ → ℕ → ℕ
source n r j = if ltb j r then j else if j == r then n else j - 1

source_below : (n r j : ℕ) → j < r → source n r j ≡ j
source_below n r j l = ground arith

source_at : (n r j : ℕ) → j ≡ r → source n r j ≡ n
source_at n r j e = ground arith

source_above : (n r j : ℕ) → r < j → source n r j ≡ j - 1
source_above n r j l = ground arith

source_le : (n r j : ℕ) → j ≤ n → source n r j ≤ n
source_le n r j l = ground arith

source-shifted : (n r i : ℕ) → i < n → source n r (shifted r i) ≡ i
source-shifted n r i l = ground arith

pub shifted_le : (n r i : ℕ) → i < n → shifted r i ≤ n
shifted_le n r i l = ground arith

placed_result :
    (m : Mem) (base size n r : ℕ) (f : Found)
    → Finds r f
    → (place m base size n f ≡ some (insert_last m base size n r))
      ⊎ ((r ≡ 0) × (place m base size n f ≡ none))
unfolding place
placed_result m base size n r (position p) e = inl (rw e refl)
placed_result m base size n r escapes e = inr (e, refl)
placed_result m base size n r no_fuel e = absurd e

-- The last of `n + 1` items has been moved to place `r`, and the result is a table.
pub record IsInserted (h : Header) (m m' : Mem) (base n r : ℕ) : Type 0 where
  pub within : r ≤ n
  pub table : IsTable h m' base (n + 1)
  pub moved : (i : ℕ) → i < n → SameItem h m (item_at h base i) h m' (item_at h base (shifted r i))
  pub new : SameItem h m (item_at h base n) h m' (item_at h base r)

-- What `pupa_sort` does with an item of rank `r` behind a table of `n` items. It returns if an item
-- is in front of the new one. For a new smallest item it returns when `n + 2` lies in the lower half
-- of a power-of-two interval, and leaves the array when `n + 2` lies in the upper half.
pub record Sorts (h : Header) (m : Mem) (base n r : ℕ) : Type 0 where
  pub inserted : IsInserted h m (insert_last m base (item_len h) n r) base n r
  pub outcome :
      (pupa_sort m true base (n + 1) (item_len h) ≡ some (insert_last m base (item_len h) n r))
      ⊎ ((r ≡ 0) × (pupa_sort m true base (n + 1) (item_len h) ≡ none))
  pub later :
      0 < r
      → pupa_sort m true base (n + 1) (item_len h) ≡ some (insert_last m base (item_len h) n r)
  pub least :
      r ≡ 0
      → (k : ℕ)
      → (2 * 2 ^ k ≤ n + 2
          → n + 2 < 3 * 2 ^ k
          → pupa_sort m true base (n + 1) (item_len h) ≡ some (insert_last m base (item_len h) n r))
        × (3 * 2 ^ k ≤ n + 2
            → n + 2 < 4 * 2 ^ k
            → pupa_sort m true base (n + 1) (item_len h) ≡ none)

module _ (h : Header) (m : Mem) (base n : ℕ) (t : IsTable h m base n)
    (last : IsItem h m (item_at h base n)) (below : item_at h base (n + 1) ≤ keys h)
    (apart : keys h ≤ values h) where
  abbrev key_at : ℕ → Str
  key_at i = item_key m (item_at h base i)

  abbrev ranking : ℕ → Ordering
  ranking i = order (key_at n) (key_at i)

  item_valid : (i : ℕ) → i ≤ n → IsItem h m (item_at h base i)
  item_valid i l = elim (ℕ_discrete i n) [ yes e ↦ rw e last | no e ↦ t.items i (omega arith) ]

  compare_last : (i : ℕ) → i ≤ n → item_compare m (item_at h base n) (item_at h base i) ≡ ranking i
  unfolding item_compare
  compare_last i l =
      compare_key_lem m _ _ (item_at h base i) last.key_short (item_valid i l).key_short

  rank : ((i : ℕ) → i < n → ¬ SameStr (key_at n) (key_at i)) → HasRank ranking n
  rank absent =
      rank_exists ranking n
        (λ i j p q e. order_swap _ _ (order_trans _ _ _ (t.ordered i j p q) (order_swap' _ _ e)))
        (λ i l e. absent i l (order-eq _ _ e))

  module _ (r : ℕ) (le : r ≤ n) (above : (i : ℕ) → i < r → ranking i ≡ Ordering.gt)
      (under : (i : ℕ) → r ≤ i → i < n → ranking i ≡ Ordering.lt) where
    abbrev after : Mem
    after = insert_last m base (item_len h) n r

    same_strings : SameStrings h m after
    same_strings = record {
      same_keys = λ x p q. sym (insert_outside m base (item_len h) n r le x (omega arith));
      same_values = λ x p q. sym (insert_outside m base (item_len h) n r le x (omega arith));
    }

    block :
        (j : ℕ)
        → j ≤ n
        → SameBlock (item_len h) m (item_at h base (source n r j)) after (item_at h base j)
    block j l = elim (dec_lt j r) [
      | yes p ↦ rw (source_below n r j p) (insert_below m base (item_len h) n r le j p)
      | no p ↦ elim (ℕ_discrete j r) [
        | yes e ↦ rw (source_at n r j e, e) (insert_at m base (item_len h) n r le)
        | no e ↦
            let d : j - 1 + 1 ≡ j = omega arith in
            rw (source_above n r j (omega arith)) (
              rw d at (insert_above m base (item_len h) n r le (j - 1) (omega arith) (omega arith)))
      ]
    ]

    same : (j : ℕ) → j ≤ n → SameItem h m (item_at h base (source n r j)) h after (item_at h base j)
    same j l =
        kept_SameItem h h (Grows-refl h) m after same_strings _ _ (block j l)
          (item_valid (source n r j) (source_le n r j l))

    source_ordered :
        (i j : ℕ)
        → i < j
        → j ≤ n
        → order (key_at (source n r i)) (key_at (source n r j)) ≡ Ordering.lt
    source_ordered i j l l' = elim (dec_lt i r) [
      | yes p ↦ elim (dec_lt j r) [
        | yes q ↦ rw (source_below n r i p, source_below n r j q) (t.ordered i j l (omega arith))
        | no q ↦ elim (ℕ_discrete j r) [
          | yes e ↦
              rw (source_below n r i p, source_at n r j e)
                (order_swap' (key_at n) (key_at i) (above i p))
          | no e ↦
              rw (source_below n r i p, source_above n r j (omega arith))
                (t.ordered i (j - 1) (omega arith) (omega arith))
        ]
      ]
      | no p ↦ elim (ℕ_discrete i r) [
        | yes e ↦
            rw (source_at n r i e, source_above n r j (omega arith))
              (under (j - 1) (omega arith) (omega arith))
        | no e ↦
            rw (source_above n r i (omega arith), source_above n r j (omega arith))
              (t.ordered (i - 1) (j - 1) (omega arith) (omega arith))
      ]
    ]

    inserted-IsTable : IsTable h after base (n + 1)
    inserted-IsTable = record {
      items = λ j l.
          kept_IsItem h h (Grows-refl h) m after same_strings _ _ (block j (omega arith))
            (item_valid (source n r j) (source_le n r j (omega arith)));
      ordered = λ i j l l'.
          sym (order-ext _ _ _ _ (same i (omega arith)).same_key (same j (omega arith)).same_key)
          ∙ source_ordered i j l (omega arith);
    }

    inserted : IsInserted h m after base n r
    inserted = record {
      within = le;
      table = inserted-IsTable;
      moved = λ i l. rw (source-shifted n r i l) at (same (shifted r i) (shifted_le n r i l));
      new = rw (source_at n r r refl) at (same r le);
    }

    search-IsRank : IsRank (λ p. item_compare m (item_at h base n) p) base (item_len h) n r
    search-IsRank = record {
      within = le;
      below = λ i p. compare_last i (omega arith) ∙ above i p;
      above = λ i p q. compare_last i (omega arith) ∙ under i p q;
      last = compare_last n (omega arith) ∙ order_same _ _ (SameStr-refl (key_at n));
    }

    -- The array is left, or the last item goes to its place.
    sorted :
        (pupa_sort m true base (n + 1) (item_len h) ≡ some after)
        ⊎ ((r ≡ 0) × (pupa_sort m true base (n + 1) (item_len h) ≡ none))
    unfolding pupa_sort
    sorted =
        let e : n + 1 - 1 ≡ n = omega arith in
        rw e (
          placed_result m base (item_len h) n r _
            (search_lem _ base (item_len h) n r search-IsRank))

    -- With an item in front of it the last item goes to its place for sure.
    sorted_of_pos : 0 < r → pupa_sort m true base (n + 1) (item_len h) ≡ some after
    unfolding pupa_sort
    sorted_of_pos p =
        let e : n + 1 - 1 ≡ n = omega arith in
        rw e (rw (search_of_pos _ base (item_len h) n r search-IsRank p))

    -- A new smallest item: the sort returns or leaves the array by the number of the items.
    sorted_least :
        r ≡ 0
        → (k : ℕ)
        → (2 * 2 ^ k ≤ n + 2
            → n + 2 < 3 * 2 ^ k
            → pupa_sort m true base (n + 1) (item_len h) ≡ some after)
          × (3 * 2 ^ k ≤ n + 2
              → n + 2 < 4 * 2 ^ k
              → pupa_sort m true base (n + 1) (item_len h) ≡ none)
    unfolding pupa_sort place
    sorted_least z k =
        let e : n + 1 - 1 ≡ n = omega arith in
        let found =
          search_least (λ p. item_compare m (item_at h base n) p) base (item_len h) n
            (λ i p. search-IsRank.above i (omega arith) p) search-IsRank.last k in
        ((λ p q. rw e (rw (found.0 p q, z) refl)), λ p q. rw e (rw (found.1 p q) refl))

  -- `pupa_sort` of a table with a new item behind it: the new item goes to its place.
  pub sort_table :
      ((i : ℕ) → i < n → ¬ SameStr (key_at n) (key_at i)) → (r : ℕ) × Sorts h m base n r
  sort_table absent =
      let (r, le, above, under) = rank absent in
      (
        r,
        record {
          inserted = inserted r le above under;
          outcome = sorted r le above under;
          later = sorted_of_pos r le above under;
          least = sorted_least r le above under;
        },
      )
