-- ===== src/Store/Get.antt =====
-- What `pupa_store_get` and `pupa_store_get_values` answer on a store.
use native.Mathlib.Nat.{add-zero}
use pupa.Common.{
  ℕ, zero, suc, ◌+◌, ◌-◌, ◌*◌, ◌≤◌, ◌<◌, ◌≡◌, ap, refl, none, some, List, [], ◌∷◌, arith, pos,
  int32, int32-pos, length, get_elem?,
}
use pupa.Memory.{Mem, load}
use pupa.Layout.{Header, offset, item_len}
use pupa.Item.{Str, View, key_offset, key_len, val_cnt, value_offset, value_len}
use pupa.Item.Order.{item_key, SameStr, SameStr-refl}
use pupa.Context.{ok, not_found, not_found_value, exceed_maximum_num, Ctx}
use pupa.Read.{
  find_item, refresh, view_at, get_found, version_address, pupa_store_get, pupa_store_get_values,
  collect, values_found, rounds_of,
}
use pupa.Store.{IsStore, item_at, version_at, item_value, values}
use pupa.Store.Find.{IsKey, asked, find_item_hit, find_item_miss}

-- The string that a view describes.
abbrev pub text : Mem → View → Str
text m w = record { len = w.len; bytes = λ i. m (w.offset + i) }

-- The current item `i`.
abbrev pub current : Ctx → ℕ → ℕ
current ctx i = item_at ctx.store_hdr (offset ctx.store_hdr.item_section) i

-- The key is that of the current item `i`.
pub record HasKey (ctx : Ctx) (key : Str) (i : ℕ) : Type 0 where
  pub inside : i < ctx.store_hdr.item_section.used
  pub same : SameStr (asked key) (item_key ctx.mem (current ctx i))

-- No current item has the key.
abbrev pub LacksKey : Ctx → Str → Type 0
LacksKey ctx key =
    (i : ℕ)
    → i < ctx.store_hdr.item_section.used
    → ¬ SameStr (asked key) (item_key ctx.mem (current ctx i))

-- The views of `n` versions from `v` on.
abbrev pub views : Header → Mem → ℕ → ℕ → ℕ → List View
views hdr m a v zero = []
views hdr m a v (suc n) = view_at m (version_at hdr a v) ∷ views hdr m a (suc v) n

collect_lem :
    (hdr : Header) (m : Mem) (a next v n : ℕ)
    → next ≡ a + 16 + (hdr.max_ver_num + 1 - v) * 16
    → 0 < v
    → v + n ≤ hdr.max_ver_num + 1
    → collect m next n ≡ views hdr m a v n
unfolding collect version_address
collect_lem hdr m a next v zero e p q = refl
collect_lem hdr m a next v (suc n) e p q =
    let here : next - 16 ≡ a + 16 + (hdr.max_ver_num - v) * 16 = omega arith in
    let rest =
      collect_lem hdr m a (next - 16) (suc v) n (omega arith) (omega arith) (omega arith) in
    rw (rest, here)

views-get :
    (hdr : Header) (m : Mem) (a v n i : ℕ)
    → i < n
    → get_elem? (views hdr m a v n) i ≡ some (view_at m (version_at hdr a (v + i)))
views-get hdr m a v zero i h = absurd (omega arith)
views-get hdr m a v (suc n) zero h = rw add-zero
views-get hdr m a v (suc n) (suc i) h =
    let e : suc v + i ≡ v + suc i = omega arith in
    rw (← e) (views-get hdr m a (suc v) n i (omega arith))

length-views : (hdr : Header) (m : Mem) (a v n : ℕ) → length (views hdr m a v n) ≡ n
length-views hdr m a v zero = refl
length-views hdr m a v (suc n) = ap suc (length-views hdr m a (suc v) n)

module _ (ctx : Ctx) (s : IsStore ctx) (key : Str) (k : IsKey key) where
  refresh_finds :
      (i : ℕ)
      → HasKey ctx key i
      → find_item (refresh ctx) (refresh ctx).store_items key ≡ some (current ctx i)
  unfolding refresh
  refresh_finds i h =
      find_item_hit (refresh ctx) (offset ctx.store_hdr.item_section) s.table key k i h.inside
        h.same

  refresh_misses : LacksKey ctx key → find_item (refresh ctx) (refresh ctx).store_items key ≡ none
  unfolding refresh
  refresh_misses a =
      find_item_miss (refresh ctx) (offset ctx.store_hdr.item_section) s.table key k a

  present : (i : ℕ) → HasKey ctx key i → 0 < key_len ctx.mem (current ctx i)
  present i h = (s.table.items i h.inside).key_some

  cnt_le : (i : ℕ) → HasKey ctx key i → val_cnt ctx.mem (current ctx i) ≤ ctx.store_hdr.max_ver_num
  cnt_le i h = (s.table.items i h.inside).cnt_max

  small :
      (i : ℕ)
      → HasKey ctx key i
      → (val_cnt ctx.mem (current ctx i) ≤ ctx.store_hdr.max_ver_num)
        × (int32 (val_cnt ctx.mem (current ctx i)) ≡ pos (val_cnt ctx.mem (current ctx i)))
  small i h = let le = cnt_le i h in (le, int32-pos _ (omega (arith, s.room.versions_small)))

  -- A version above the maximum is refused.
  pub get_exceeding :
      (v : ℕ)
      → ctx.store_hdr.max_ver_num < v
      → pupa_store_get ctx key (pos v) ≡ (exceed_maximum_num, none, ctx)
  unfolding pupa_store_get
  get_exceeding v p = ground arith

  -- In a store, `pupa_store_get` of a key that no item has reports PUPA_NOT_FOUND, for every version up
  -- to the maximum.
  pub get_missing :
      (v : ℕ)
      → v ≤ ctx.store_hdr.max_ver_num
      → LacksKey ctx key
      → pupa_store_get ctx key (pos v) ≡ (not_found, none, refresh ctx)
  unfolding pupa_store_get get_found
  get_missing v p a = rw (refresh_misses a) (ground arith)

  -- In a store, `pupa_store_get` of a key that is there reports PUPA_NOT_FOUND_VALUE for a version that
  -- its item does not have yet, up to the maximum.
  pub get_no_version :
      (v i : ℕ)
      → HasKey ctx key i
      → v ≤ ctx.store_hdr.max_ver_num
      → val_cnt ctx.mem (current ctx i) < v
      → pupa_store_get ctx key (pos v) ≡ (not_found_value, none, refresh ctx)
  unfolding pupa_store_get get_found
  get_no_version v i h p q = rw (refresh_finds i h) (ground (arith, present i h, small i h))

  pub get_record :
      (v i : ℕ)
      → HasKey ctx key i
      → v ≤ val_cnt ctx.mem (current ctx i)
      → pupa_store_get ctx key (pos v)
        ≡ (ok, some (view_at ctx.mem (version_at ctx.store_hdr (current ctx i) v)), refresh ctx)
  unfolding pupa_store_get get_found
  get_record v i h p = rw (refresh_finds i h) (ground (arith, present i h, small i h))

  -- In a store, `pupa_store_get` of a key that is there, for a version from 1 on that its item has,
  -- succeeds, and the string that it hands out is that version of the item and lies in the used part
  -- of the value area.
  pub get_present :
      (v i : ℕ)
      → HasKey ctx key i
      → 0 < v
      → v ≤ val_cnt ctx.mem (current ctx i)
      → (w : View) × (pupa_store_get ctx key (pos v) ≡ (ok, some w, refresh ctx))
        × SameStr (text ctx.mem w) (item_value ctx.store_hdr ctx.mem (current ctx i) v)
        × (values ctx.store_hdr ≤ w.offset)
        × (w.offset + w.len ≤ values ctx.store_hdr + ctx.store_hdr.value_section.used)
  unfolding view_at
  get_present v i h p q = (
    view_at ctx.mem (version_at ctx.store_hdr (current ctx i) v),
    get_record v i h q,
    SameStr-refl _,
    (s.table.items i h.inside).value_from v p q,
    (s.table.items i h.inside).value_to v p q,
  )

  from_end :
      (v i : ℕ)
      → v ≤ ctx.store_hdr.max_ver_num
      → version_at ctx.store_hdr (current ctx i) v + 16 * v ≡ current ctx (i + 1)
  unfolding version_address item_len
  from_end v i l =
      let back : (ctx.store_hdr.max_ver_num - v) + v ≡ ctx.store_hdr.max_ver_num = omega arith in
      grind (arith, back)

  -- In a store, `pupa_store_get` of a key that is there, for a version `v` from 1 on that its item has,
  -- succeeds with the string that the `v`-th record from the end of the item describes: the record
  -- starts 16 * `v` bytes in front of the place of the next item. The string lies in the used part of
  -- the value area.
  pub get_version :
      (v i : ℕ)
      → HasKey ctx key i
      → 0 < v
      → v ≤ val_cnt ctx.mem (current ctx i)
      → (w : View) × (r : ℕ) × (pupa_store_get ctx key (pos v) ≡ (ok, some w, refresh ctx))
        × (r + 16 * v ≡ current ctx (i + 1))
        × (w.offset ≡ value_offset ctx.mem r)
        × (w.len ≡ value_len ctx.mem r)
        × (values ctx.store_hdr ≤ w.offset)
        × (w.offset + w.len ≤ values ctx.store_hdr + ctx.store_hdr.value_section.used)
  unfolding view_at
  get_version v i h p q = (
    view_at ctx.mem (version_at ctx.store_hdr (current ctx i) v),
    version_at ctx.store_hdr (current ctx i) v,
    get_record v i h q,
    from_end v i (omega (arith, (s.table.items i h.inside).cnt_max)),
    refl,
    refl,
    (s.table.items i h.inside).value_from v p q,
    (s.table.items i h.inside).value_to v p q,
  )

  -- In a store, `pupa_store_get` of a key that is there, for version 0, succeeds with the 16 bytes
  -- behind the last value record of the item, read as a value record: the key record of the item that
  -- comes next in the area.
  pub get_version_zero :
      (i : ℕ)
      → HasKey ctx key i
      → (w : View) × (pupa_store_get ctx key (pos 0) ≡ (ok, some w, refresh ctx))
        × (w.offset ≡ key_offset ctx.mem (current ctx (i + 1)))
        × (w.len ≡ key_len ctx.mem (current ctx (i + 1)))
  unfolding view_at version_address item_len key_offset key_len value_offset value_len
  get_version_zero i h = (
    view_at ctx.mem (version_at ctx.store_hdr (current ctx i) 0),
    get_record 0 i h (omega arith),
    ap (load 8 ctx.mem) next,
    ap (λ x. load 4 ctx.mem (x + 8)) next,
  )
    where
      next :
          offset ctx.store_hdr.item_section
            + i * (16 + ctx.store_hdr.max_ver_num * 16)
            + 16
            + (ctx.store_hdr.max_ver_num - 0) * 16
          ≡ offset ctx.store_hdr.item_section + (i + 1) * (16 + ctx.store_hdr.max_ver_num * 16)
      next = grind arith

  -- In a store, `pupa_store_get_values` of a key that no item has reports PUPA_NOT_FOUND and no value.
  pub get_values_missing :
      LacksKey ctx key → pupa_store_get_values ctx key ≡ (not_found, [], refresh ctx)
  unfolding pupa_store_get_values values_found
  get_values_missing a = rw (refresh_misses a) refl

  -- In a store, `pupa_store_get_values` of a key that is there succeeds with as many strings as the
  -- item has versions, and the string at index `v` is the one that `pupa_store_get` hands out for
  -- version `v + 1`.
  pub get_values_present :
      (i : ℕ)
      → HasKey ctx key i
      → (vs : List View) × (pupa_store_get_values ctx key ≡ (ok, vs, refresh ctx))
        × (length vs ≡ val_cnt ctx.mem (current ctx i))
        × ((v : ℕ)
            → v < length vs
            → (w : View) × (get_elem? vs v ≡ some w)
              × (pupa_store_get ctx key (pos (v + 1)) ≡ (ok, some w, refresh ctx)))
  unfolding pupa_store_get_values values_found rounds_of
  get_values_present i h =
      let a = current ctx i in
      let n = val_cnt ctx.mem a in
      let counted = length-views ctx.store_hdr ctx.mem a 1 n in
      (
        views ctx.store_hdr ctx.mem a 1 n,
        rw (refresh_finds i h) (
            ground (
              arith,
              present i h,
              small i h,
              collect_lem ctx.store_hdr ctx.mem a (a + 16 + ctx.store_hdr.max_ver_num * 16) 1 n,
            )),
        counted,
        λ v l. (
          view_at ctx.mem (version_at ctx.store_hdr a (v + 1)),
          let e : 1 + v ≡ v + 1 = omega arith in
              rw (← e) (views-get ctx.store_hdr ctx.mem a 1 n v (omega (arith, counted))),
          get_record (v + 1) i h (omega (arith, counted)),
        ),
      )
