-- ===== src/Store/Find.antt =====
-- `find_item`, the `bsearch` call of src/pupa_store.c, on a table in order.
use pupa.Common.{
  ℕ, zero, suc, ◌+◌, ◌^◌, ◌≤◌, ◌<◌, ◌≡◌, ◌≢◌, ◌∙◌, inl, inr, refl, Ordering, none, some, arith,
  Ordering-cases,
}
use pupa.Memory.{Mem}
use pupa.Layout.{Header, item_len}
use pupa.Item.{Str, pupa_store_item_compare}
use pupa.Item.Order.{
  order, order_swap, order_swap', order_trans, order-eq, order_same, order-ext, item_key, SameStr,
  SameStr-refl, compare_key_lem,
}
use pupa.Write.Strings.{terminated}
use pupa.Context.{Ctx}
use pupa.Lookup.{IsHit, IsMiss, bsearch_hit, bsearch_miss}
use pupa.Read.{find_item}
use pupa.Store.{item_at, IsTable}

-- The key that a lookup compares: `key.len + 1` bytes of the caller's memory.
abbrev pub asked : Str → Str
asked key = record { len = key.len + 1; bytes = key.bytes }

-- A caller's key that the library can work with: not too long, and a '\0' behind it.
pub record IsKey (key : Str) : Type 0 where
  pub short : key.len + 1 < 2 ^ 31
  pub ended : key.bytes key.len ≡ 0

pub asked-terminated : (key : Str) → IsKey key → SameStr (asked key) (terminated key)
asked-terminated key k = record { same_len = refl; same_bytes = λ i l. ground (arith, k.ended) }

-- Where an element that is not in an ordered array belongs.
abbrev pub HasRank : (ℕ → Ordering) → ℕ → Type 0
HasRank c n =
    (r : ℕ) × (r ≤ n)
    × ((i : ℕ) → i < r → c i ≡ Ordering.gt)
    × ((i : ℕ) → r ≤ i → i < n → c i ≡ Ordering.lt)

rank_step :
    (c : ℕ → Ordering) (n : ℕ)
    → ((i j : ℕ) → i < j → j < suc n → c j ≡ Ordering.gt → c i ≡ Ordering.gt)
    → c n ≢ Ordering.eq
    → HasRank c n
    → HasRank c (suc n)
rank_step c n mono ne (r, le, below, above) = elim (Ordering-cases (c n)) [
  | inl e ↦ (r, omega arith, below, λ i p q. ground (arith, above i))
  | inr (inl e) ↦ absurd (ne e)
  | inr (inr e) ↦
      (suc n, omega arith, (λ i p. ground (arith, mono i n)), λ i p q. absurd (omega arith))
]

pub rank_exists :
    (c : ℕ → Ordering) (n : ℕ)
    → ((i j : ℕ) → i < j → j < n → c j ≡ Ordering.gt → c i ≡ Ordering.gt)
    → ((i : ℕ) → i < n → c i ≢ Ordering.eq)
    → HasRank c n
rank_exists c zero mono ne =
    (0, omega arith, (λ i l. absurd (omega arith)), λ i l l'. absurd (omega arith))
rank_exists c (suc n) mono ne =
    rank_step c n mono (ne n (omega arith))
      (rank_exists c n (λ i j p q. mono i j p (omega arith)) (λ i l. ne i (omega arith)))

module _ (h : Header) (m : Mem) (base n : ℕ) (t : IsTable h m base n) (key : Str)
    (k : IsKey key) where
  compare_item :
      (i : ℕ)
      → i < n
      → pupa_store_item_compare m key (item_at h base i)
        ≡ order (asked key) (item_key m (item_at h base i))
  unfolding pupa_store_item_compare
  compare_item i l =
      compare_key_lem m (key.len + 1) key.bytes (item_at h base i) k.short (t.items i l).key_short

  -- The item with the key is a hit.
  hit :
      (r : ℕ)
      → r < n
      → SameStr (asked key) (item_key m (item_at h base r))
      → IsHit (pupa_store_item_compare m key) base (item_len h) n r
  hit r l same = record {
    within = l;
    below = λ i p.
        compare_item i (omega arith)
        ∙ order-ext _ _ _ _ same (SameStr-refl _)
        ∙ order_swap _ _ (t.ordered i r p l);
    here = compare_item r l ∙ order_same _ _ same;
    above = λ i p q. compare_item i q ∙ order-ext _ _ _ _ same (SameStr-refl _) ∙ t.ordered r i p q;
  }

  -- A key that no item has belongs somewhere between the items.
  miss :
      ((i : ℕ) → i < n → ¬ SameStr (asked key) (item_key m (item_at h base i)))
      → (r : ℕ) × IsMiss (pupa_store_item_compare m key) base (item_len h) n r
  miss absent = rank_IsMiss (
      rank_exists (λ i. order (asked key) (item_key m (item_at h base i))) n
        (λ i j p q e. order_swap _ _ (order_trans _ _ _ (t.ordered i j p q) (order_swap' _ _ e)))
        (λ i l e. absent i l (order-eq _ _ e)))
    where
      rank_IsMiss :
          HasRank (λ i. order (asked key) (item_key m (item_at h base i))) n
          → (r : ℕ) × IsMiss (pupa_store_item_compare m key) base (item_len h) n r
      rank_IsMiss (r, le, below, above) = (
        r,
        record {
          within = le;
          below = λ i p. compare_item i (omega arith) ∙ below i p;
          above = λ i p q. compare_item i q ∙ above i p q;
        },
      )

module _ (ctx : Ctx) (base : ℕ)
    (t : IsTable ctx.store_hdr ctx.mem base ctx.store_hdr.item_section.used) (key : Str)
    (k : IsKey key) where
  -- The item that has the key is found.
  pub find_item_hit :
      (r : ℕ)
      → r < ctx.store_hdr.item_section.used
      → SameStr (asked key) (item_key ctx.mem (item_at ctx.store_hdr base r))
      → find_item ctx base key ≡ some (item_at ctx.store_hdr base r)
  unfolding find_item
  find_item_hit r l same =
      bsearch_hit _ base (item_len ctx.store_hdr) _ r
        (hit ctx.store_hdr ctx.mem base ctx.store_hdr.item_section.used t key k r l same)

  -- A key that no item has is not found.
  pub find_item_miss :
      ((i : ℕ)
        → i < ctx.store_hdr.item_section.used
        → ¬ SameStr (asked key) (item_key ctx.mem (item_at ctx.store_hdr base i)))
      → find_item ctx base key ≡ none
  unfolding find_item
  find_item_miss absent =
      let (r, found) =
        miss ctx.store_hdr ctx.mem base ctx.store_hdr.item_section.used t key k absent in
      bsearch_miss _ base (item_len ctx.store_hdr) _ r found
