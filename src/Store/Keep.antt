-- ===== src/Store/Keep.antt =====
-- When an item in one memory is the same item in another.
use pupa.Common.{ℕ, ◌+◌, ◌-◌, ◌*◌, ◌≤◌, ◌<◌, ◌≡◌, ◌∙◌, sym, refl, arith}
use pupa.Memory.{Mem}
use pupa.Layout.{Header, item_len}
use pupa.Item.{key_len, key_offset, val_cnt, value_offset, value_len}
use pupa.Item.Order.{order-ext, item_key, SameStr, SameStr-refl, SameStr-trans}
use pupa.Item.Block.{
  SameBlock, key_offset-block, key_len-block, val_cnt-block, value_offset-block, value_len-block,
}
use pupa.Read.{version_address}
use pupa.Store.{IsItem, IsTable, keys, values, version_at, item_value, item_at}

-- The second header has the sections of the first, filled at least as far.
pub record Grows (h h' : Header) : Type 0 where
  pub same_max : h.max_ver_num ≡ h'.max_ver_num
  pub same_keys : keys h ≡ keys h'
  pub same_values : values h ≡ values h'
  pub more_keys : h.key_section.used ≤ h'.key_section.used
  pub more_values : h.value_section.used ≤ h'.value_section.used

-- The used parts of the key and value areas have not changed.
pub record SameStrings (h : Header) (m m' : Mem) : Type 0 where
  pub same_keys : (x : ℕ) → keys h ≤ x → x < keys h + h.key_section.used → m x ≡ m' x
  pub same_values : (x : ℕ) → values h ≤ x → x < values h + h.value_section.used → m x ≡ m' x

-- The same key, number of versions and values.
pub record SameItem (h : Header) (m : Mem) (a : ℕ) (h' : Header) (m' : Mem) (b : ℕ) : Type 0 where
  pub same_key : SameStr (item_key m a) (item_key m' b)
  pub same_cnt : val_cnt m a ≡ val_cnt m' b
  pub same_value :
      (v : ℕ) → 0 < v → v ≤ val_cnt m a → SameStr (item_value h m a v) (item_value h' m' b v)

module _ (h h' : Header) (g : Grows h h') (m m' : Mem) (s : SameStrings h m m') (a b : ℕ)
    (block : SameBlock (item_len h) m a m' b) (item : IsItem h m a) where
  long : 16 ≤ item_len h
  unfolding item_len
  long = omega arith

  kept_len : key_len m a ≡ key_len m' b
  kept_len = key_len-block (item_len h) m a m' b block long

  kept_offset : key_offset m a ≡ key_offset m' b
  kept_offset = key_offset-block (item_len h) m a m' b block long

  kept_cnt : val_cnt m a ≡ val_cnt m' b
  kept_cnt = val_cnt-block (item_len h) m a m' b block long

  module _ (v : ℕ) (p : 0 < v) (q : v ≤ val_cnt m a) where
    kept_value_offset : value_offset m (version_at h a v) ≡ value_offset m' (version_at h' b v)
    unfolding version_address item_len
    kept_value_offset =
        value_offset-block (item_len h) m a m' b block (16 + (h.max_ver_num - v) * 16) _ _
          (omega arith) (omega (arith, g.same_max)) (omega (arith, item.cnt_max))

    kept_value_len : value_len m (version_at h a v) ≡ value_len m' (version_at h' b v)
    unfolding version_address item_len
    kept_value_len =
        value_len-block (item_len h) m a m' b block (16 + (h.max_ver_num - v) * 16) _ _
          (omega arith) (omega (arith, g.same_max)) (omega (arith, item.cnt_max))

    kept_value : SameStr (item_value h m a v) (item_value h' m' b v)
    kept_value = record {
      same_len = kept_value_len;
      same_bytes = λ i l.
          s.same_values (value_offset m (version_at h a v) + i)
            (omega (arith, item.value_from v p q)) (omega (arith, item.value_to v p q))
          ∙ at_offset i;
    }
      where
        at_offset :
            (i : ℕ)
            → m' (value_offset m (version_at h a v) + i)
              ≡ m' (value_offset m' (version_at h' b v) + i)
        at_offset i = rw kept_value_offset refl

  -- An item whose block is copied, and whose strings stay, is the same item ...
  pub kept_SameItem : SameItem h m a h' m' b
  kept_SameItem = record {
    same_key = record {
      same_len = kept_len;
      same_bytes = λ i l.
          s.same_keys (key_offset m a + i) (omega (arith, item.key_from))
            (omega (arith, item.key_to))
          ∙ key_at i;
    };
    same_cnt = kept_cnt;
    same_value = kept_value;
  }
    where
      key_at : (i : ℕ) → m' (key_offset m a + i) ≡ m' (key_offset m' b + i)
      key_at i = rw kept_offset refl

  -- ... and a valid one.
  pub kept_IsItem : IsItem h' m' b
  kept_IsItem = record {
    key_short = omega (arith, item.key_short, kept_len);
    key_some = omega (arith, item.key_some, kept_len);
    key_from = omega (arith, item.key_from, kept_offset, g.same_keys);
    key_to = omega (arith, item.key_to, kept_offset, kept_len, g.same_keys, g.more_keys);
    cnt_some = omega (arith, item.cnt_some, kept_cnt);
    cnt_max = omega (arith, item.cnt_max, kept_cnt, g.same_max);
    value_from = λ v p q.
        let q' : v ≤ val_cnt m a = omega (arith, kept_cnt) in
        omega (arith, item.value_from v p q', kept_value_offset v p q', g.same_values);
    value_to = λ v p q.
        let q' : v ≤ val_cnt m a = omega (arith, kept_cnt) in
        omega (
          arith,
          item.value_to v p q',
          kept_value_offset v p q',
          kept_value_len v p q',
          g.same_values,
          g.more_values,
        );
  }

-- A table whose items are copied, and whose strings stay, is the same table.
module _ (h h' : Header) (g : Grows h h') (m m' : Mem) (s : SameStrings h m m') (base base' n : ℕ)
    (blocks : (i : ℕ) → i < n → SameBlock (item_len h) m (item_at h base i) m' (item_at h' base' i))
    (t : IsTable h m base n) where
  pub kept_items : (i : ℕ) → i < n → SameItem h m (item_at h base i) h' m' (item_at h' base' i)
  kept_items i l = kept_SameItem h h' g m m' s _ _ (blocks i l) (t.items i l)

  pub kept-IsTable : IsTable h' m' base' n
  kept-IsTable = record {
    items = λ i l. kept_IsItem h h' g m m' s _ _ (blocks i l) (t.items i l);
    ordered = λ i j l l'.
        sym (order-ext _ _ _ _ (kept_items i (omega arith)).same_key (kept_items j l').same_key)
        ∙ t.ordered i j l l';
  }

pub Grows-refl : (h : Header) → Grows h h
Grows-refl h = record {
  same_max = refl;
  same_keys = refl;
  same_values = refl;
  more_keys = omega arith;
  more_values = omega arith;
}

pub SameItem-refl : (h : Header) (m : Mem) (a : ℕ) → SameItem h m a h m a
SameItem-refl h m a = record {
  same_key = SameStr-refl _;
  same_cnt = refl;
  same_value = λ v p q. SameStr-refl _;
}

pub SameItem-trans :
    (h : Header) (m : Mem) (a : ℕ) (h' : Header) (m' : Mem) (b : ℕ) (h'' : Header) (m'' : Mem)
    (c : ℕ)
    → SameItem h m a h' m' b
    → SameItem h' m' b h'' m'' c
    → SameItem h m a h'' m'' c
SameItem-trans h m a h' m' b h'' m'' c s t = record {
  same_key = SameStr-trans _ _ _ s.same_key t.same_key;
  same_cnt = s.same_cnt ∙ t.same_cnt;
  same_value = λ v p q.
      SameStr-trans _ _ _ (s.same_value v p q) (t.same_value v p (omega (arith, s.same_cnt)));
}

pub Grows-trans : (a b c : Header) → Grows a b → Grows b c → Grows a c
Grows-trans a b c g k = record {
  same_max = g.same_max ∙ k.same_max;
  same_keys = g.same_keys ∙ k.same_keys;
  same_values = g.same_values ∙ k.same_values;
  more_keys = omega (arith, g.more_keys, k.more_keys);
  more_values = omega (arith, g.more_values, k.more_values);
}
