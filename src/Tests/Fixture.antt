-- ===== src/Tests/Fixture.antt =====
-- Stores with up to three of the keys "a", "b" and "c". The areas lie where `pupa_store_init` puts them
-- for 10 keys; the item section admits the three items that fit into its areas.
use pupa.Common.{
  ℕ, suc, zero, ◌+◌, ◌-◌, ◌≤◌, ◌<◌, ◌≡◌, refl, inl, List, [], ◌∷◌, true, Ordering, arith, ltb,
  if◌then◌else◌,
}
use pupa.Memory.{Mem, load}
use pupa.Layout.{Header, pupa_store_init, offset, snapshot_offset, item_len}
use pupa.Item.{Str, key_offset, key_len, val_cnt, value_offset, value_len}
use pupa.Item.Order.{order, item_key}
use pupa.Context.{Ctx, Env}
use pupa.CommandLine.{byte_at, c_str}
use pupa.Read.{version_address}
use pupa.Store.{IsItem, IsTable, HasRoom, IsStore, IsFresh, item_at, version_at, values}

abbrev pub at : List ℕ → ℕ → ℕ
at = byte_at

abbrev pub str : List ℕ → Str
str = c_str

abbrev pub fine : Env
fine = record { allocated = true; synced = true }

-- The header with the first `n` items.
abbrev pub hdr_of : ℕ → Header
hdr_of n = record {
  max_ver_num = 3;
  item_section = record { id = 1; size = 3; used = n; sec1_offset = 128; sec2_offset = 336 };
  key_section = record { id = 1; size = 640; used = 6; sec1_offset = 544; sec2_offset = 1184 };
  value_section = record { id = 1; size = 2560; used = 9; sec1_offset = 1824; sec2_offset = 4384 };
}

abbrev pub hdr : Header
hdr = hdr_of 2

-- The items: "a" with the versions "C" and "AB", "b" with the version "D", and "c" with "E".
abbrev item_bytes : List ℕ
item_bytes =
    32 ∷ 2 ∷ 0 ∷ 0 ∷ 0 ∷ 0 ∷ 0 ∷ 0 ∷ 2 ∷ 0 ∷ 0 ∷ 0 ∷ 2 ∷ 0 ∷ 0 ∷ 0 ∷ 0 ∷ 0 ∷ 0 ∷ 0 ∷ 0 ∷ 0 ∷ 0 ∷ 0
    ∷ 0 ∷ 0 ∷ 0 ∷ 0 ∷ 0 ∷ 0 ∷ 0 ∷ 0 ∷ 32 ∷ 7 ∷ 0 ∷ 0 ∷ 0 ∷ 0 ∷ 0 ∷ 0 ∷ 3 ∷ 0 ∷ 0 ∷ 0 ∷ 0 ∷ 0 ∷ 0 ∷ 0
    ∷ 35 ∷ 7 ∷ 0 ∷ 0 ∷ 0 ∷ 0 ∷ 0 ∷ 0 ∷ 2 ∷ 0 ∷ 0 ∷ 0 ∷ 0 ∷ 0 ∷ 0 ∷ 0 ∷ 34 ∷ 2 ∷ 0 ∷ 0 ∷ 0 ∷ 0 ∷ 0
    ∷ 0 ∷ 2 ∷ 0 ∷ 0 ∷ 0 ∷ 1 ∷ 0 ∷ 0 ∷ 0 ∷ 0 ∷ 0 ∷ 0 ∷ 0 ∷ 0 ∷ 0 ∷ 0 ∷ 0 ∷ 0 ∷ 0 ∷ 0 ∷ 0 ∷ 0 ∷ 0 ∷ 0
    ∷ 0 ∷ 0 ∷ 0 ∷ 0 ∷ 0 ∷ 0 ∷ 0 ∷ 0 ∷ 0 ∷ 0 ∷ 0 ∷ 0 ∷ 0 ∷ 0 ∷ 0 ∷ 0 ∷ 0 ∷ 37 ∷ 7 ∷ 0 ∷ 0 ∷ 0 ∷ 0 ∷ 0
    ∷ 0 ∷ 2 ∷ 0 ∷ 0 ∷ 0 ∷ 0 ∷ 0 ∷ 0 ∷ 0 ∷ 36 ∷ 2 ∷ 0 ∷ 0 ∷ 0 ∷ 0 ∷ 0 ∷ 0 ∷ 2 ∷ 0 ∷ 0 ∷ 0 ∷ 1 ∷ 0 ∷ 0
    ∷ 0 ∷ 0 ∷ 0 ∷ 0 ∷ 0 ∷ 0 ∷ 0 ∷ 0 ∷ 0 ∷ 0 ∷ 0 ∷ 0 ∷ 0 ∷ 0 ∷ 0 ∷ 0 ∷ 0 ∷ 0 ∷ 0 ∷ 0 ∷ 0 ∷ 0 ∷ 0 ∷ 0
    ∷ 0 ∷ 0 ∷ 0 ∷ 0 ∷ 0 ∷ 0 ∷ 0 ∷ 0 ∷ 0 ∷ 39 ∷ 7 ∷ 0 ∷ 0 ∷ 0 ∷ 0 ∷ 0 ∷ 0 ∷ 2 ∷ 0 ∷ 0 ∷ 0 ∷ 0 ∷ 0 ∷ 0
    ∷ 0 ∷ []

abbrev key_bytes : List ℕ
key_bytes = 97 ∷ 0 ∷ 98 ∷ 0 ∷ 99 ∷ 0 ∷ []

abbrev value_bytes : List ℕ
value_bytes = 65 ∷ 66 ∷ 0 ∷ 67 ∷ 0 ∷ 68 ∷ 0 ∷ 69 ∷ 0 ∷ []

abbrev pub bytes : Mem
bytes x =
    if ltb x 544
    then at item_bytes (x - 128)
    else if ltb x 1824
    then at key_bytes (x - 544)
    else at value_bytes (x - 1824)

abbrev pub ctx_of : ℕ → Ctx
ctx_of n = record {
  store_hdr = hdr_of n;
  mem = bytes;
  store_items = 128;
  store_items_snapshot = 336;
}

abbrev pub one : Ctx
one = ctx_of 1

abbrev pub two : Ctx
two = ctx_of 2

abbrev pub three : Ctx
three = ctx_of 3

-- The areas lie where `pupa_store_init` puts them.
init_same : (pupa_store_init 10 3).0.value_section.sec2_offset ≡ hdr.value_section.sec2_offset
unfolding pupa_store_init
init_same = refl

pub room : (u n : ℕ) → n ≤ 3 → HasRoom (hdr_of u) n
unfolding offset snapshot_offset item_len
room u n l = record {
  versions = omega arith;
  versions_small = omega arith;
  apart = inl (omega arith);
  below_keys = omega arith;
  snapshot_below_keys = omega arith;
  keys_below_values = omega arith;
  keys_used = omega arith;
  values_used = omega arith;
  small = omega arith;
}

pub cnt_a : val_cnt bytes 128 ≡ 2
unfolding val_cnt load
cnt_a = refl

pub cnt_b : val_cnt bytes 192 ≡ 1
unfolding val_cnt load
cnt_b = refl

first : (u : ℕ) → IsItem (hdr_of u) bytes 128
unfolding offset key_len key_offset val_cnt value_len value_offset load version_address
first u = record {
  key_short = omega arith;
  key_some = omega arith;
  key_from = omega arith;
  key_to = omega arith;
  cnt_some = omega arith;
  cnt_max = omega arith;
  value_from = value_from;
  value_to = value_to;
}
  where
    value_from :
        (v : ℕ)
        → 0 < v
        → v ≤ val_cnt bytes 128
        → values (hdr_of u) ≤ value_offset bytes (version_at (hdr_of u) 128 v)
    value_from zero p q = absurd (omega arith)
    value_from (suc zero) p q = omega arith
    value_from (suc (suc zero)) p q = omega arith
    value_from (suc (suc (suc v))) p q = absurd (omega arith)

    value_to :
        (v : ℕ)
        → 0 < v
        → v ≤ val_cnt bytes 128
        → value_offset bytes (version_at (hdr_of u) 128 v)
            + value_len bytes (version_at (hdr_of u) 128 v)
          ≤ values (hdr_of u) + (hdr_of u).value_section.used
    value_to zero p q = absurd (omega arith)
    value_to (suc zero) p q = omega arith
    value_to (suc (suc zero)) p q = omega arith
    value_to (suc (suc (suc v))) p q = absurd (omega arith)

second : (u : ℕ) → IsItem (hdr_of u) bytes 192
unfolding offset key_len key_offset val_cnt value_len value_offset load version_address
second u = record {
  key_short = omega arith;
  key_some = omega arith;
  key_from = omega arith;
  key_to = omega arith;
  cnt_some = omega arith;
  cnt_max = omega arith;
  value_from = value_from;
  value_to = value_to;
}
  where
    value_from :
        (v : ℕ)
        → 0 < v
        → v ≤ val_cnt bytes 192
        → values (hdr_of u) ≤ value_offset bytes (version_at (hdr_of u) 192 v)
    value_from zero p q = absurd (omega arith)
    value_from (suc zero) p q = omega arith
    value_from (suc (suc v)) p q = absurd (omega arith)

    value_to :
        (v : ℕ)
        → 0 < v
        → v ≤ val_cnt bytes 192
        → value_offset bytes (version_at (hdr_of u) 192 v)
            + value_len bytes (version_at (hdr_of u) 192 v)
          ≤ values (hdr_of u) + (hdr_of u).value_section.used
    value_to zero p q = absurd (omega arith)
    value_to (suc zero) p q = omega arith
    value_to (suc (suc v)) p q = absurd (omega arith)

third : (u : ℕ) → IsItem (hdr_of u) bytes 256
unfolding offset key_len key_offset val_cnt value_len value_offset load version_address
third u = record {
  key_short = omega arith;
  key_some = omega arith;
  key_from = omega arith;
  key_to = omega arith;
  cnt_some = omega arith;
  cnt_max = omega arith;
  value_from = value_from;
  value_to = value_to;
}
  where
    value_from :
        (v : ℕ)
        → 0 < v
        → v ≤ val_cnt bytes 256
        → values (hdr_of u) ≤ value_offset bytes (version_at (hdr_of u) 256 v)
    value_from zero p q = absurd (omega arith)
    value_from (suc zero) p q = omega arith
    value_from (suc (suc v)) p q = absurd (omega arith)

    value_to :
        (v : ℕ)
        → 0 < v
        → v ≤ val_cnt bytes 256
        → value_offset bytes (version_at (hdr_of u) 256 v)
            + value_len bytes (version_at (hdr_of u) 256 v)
          ≤ values (hdr_of u) + (hdr_of u).value_section.used
    value_to zero p q = absurd (omega arith)
    value_to (suc zero) p q = omega arith
    value_to (suc (suc v)) p q = absurd (omega arith)

table : (u n : ℕ) → n ≤ 3 → IsTable (hdr_of u) bytes 128 n
unfolding item_len order key_len key_offset load
table u n le = record { items = items; ordered = ordered }
  where
    items : (i : ℕ) → i < n → IsItem (hdr_of u) bytes (item_at (hdr_of u) 128 i)
    items zero l = first u
    items (suc zero) l = second u
    items (suc (suc zero)) l = third u
    items (suc (suc (suc i))) l = absurd (omega arith)

    ordered :
        (i j : ℕ)
        → i < j
        → j < n
        → order
            (item_key bytes (item_at (hdr_of u) 128 i))
            (item_key bytes (item_at (hdr_of u) 128 j))
          ≡ Ordering.lt
    ordered zero zero p q = absurd (omega arith)
    ordered zero (suc zero) p q = refl
    ordered zero (suc (suc zero)) p q = refl
    ordered zero (suc (suc (suc j))) p q = absurd (omega arith)
    ordered (suc i) zero p q = absurd (omega arith)
    ordered (suc i) (suc zero) p q = absurd (omega arith)
    ordered (suc zero) (suc (suc zero)) p q = refl
    ordered (suc (suc i)) (suc (suc zero)) p q = absurd (omega arith)
    ordered (suc i) (suc (suc (suc j))) p q = absurd (omega arith)

pub ctx-IsStore : (n : ℕ) → n ≤ 3 → IsStore (ctx_of n)
unfolding offset
ctx-IsStore n l = record { room = room n n l; table = table n n l }

pub one-IsStore : IsStore one
one-IsStore = ctx-IsStore 1 (omega arith)

pub two-IsStore : IsStore two
two-IsStore = ctx-IsStore 2 (omega arith)

pub three-IsStore : IsStore three
three-IsStore = ctx-IsStore 3 (omega arith)

pub ctx-IsFresh : (n : ℕ) → IsFresh (ctx_of n)
unfolding offset
ctx-IsFresh n = refl
