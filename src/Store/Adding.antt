-- ===== src/Store/Adding.antt =====
-- What other processes find while `pupa_store_set` adds a key, until it counts the item.
use pupa.Common.{ℕ, ◌+◌, ◌*◌, ◌≤◌, ◌<◌, ◌≡◌, ◌∙◌, ap, sym, refl, ◌⊎◌, inl, inr, arith, step_le}
use pupa.Layout.{Header, Section, offset, snapshot_offset, item_len}
use pupa.Item.{Str}
use pupa.Context.{Ctx}
use pupa.Write.{make_snapshot, write_key, add_value, link_value}
use pupa.Store.{IsStore, IsFresh, HasRoom, keys, values, item_at}
use pupa.Store.Find.{IsKey}
use pupa.Store.Get.{LacksKey}
use pupa.Store.Keep.{Grows, Grows-refl}
use pupa.Store.Snapshot.{snapshot_outside}
use pupa.Store.Added.{Fits, added_outside, added-Grows, added-key_used, added-value_used}
use pupa.Store.SetNew.{before_count}
use pupa.Store.Visible.{Visible, Hidden}

-- The header but for the `used` of the keys and the values, which may have moved on; and the bytes
-- outside the other item area, with the place of the new item, and outside the places of the key and
-- the value. Inside they may be anything.
pub record Adding (ctx : Ctx) (key value : Str) (c : Ctx) : Type 0 where
  pub items : c.store_hdr.item_section ≡ ctx.store_hdr.item_section
  pub grows : Grows ctx.store_hdr c.store_hdr
  pub key_size : c.store_hdr.key_section.size ≡ ctx.store_hdr.key_section.size
  pub value_size : c.store_hdr.value_section.size ≡ ctx.store_hdr.value_section.size
  pub key_used : c.store_hdr.key_section.used ≤ ctx.store_hdr.key_section.used + (key.len + 1)
  pub value_used :
      c.store_hdr.value_section.used ≤ ctx.store_hdr.value_section.used + (value.len + 1)
  pub bytes :
      (x : ℕ)
      → (x < snapshot_offset ctx.store_hdr.item_section)
        ⊎ (item_at ctx.store_hdr
              (snapshot_offset ctx.store_hdr.item_section)
              (ctx.store_hdr.item_section.used + 1)
            ≤ x)
      → (x < keys ctx.store_hdr + ctx.store_hdr.key_section.used)
        ⊎ (keys ctx.store_hdr + ctx.store_hdr.key_section.used + (key.len + 1) ≤ x)
      → (x < values ctx.store_hdr + ctx.store_hdr.value_section.used)
        ⊎ (values ctx.store_hdr + ctx.store_hdr.value_section.used + (value.len + 1) ≤ x)
      → c.mem x ≡ ctx.mem x

module _ (ctx : Ctx) (s : IsStore ctx) (key value : Str) (fits : Fits ctx.store_hdr key value)
    (g : HasRoom ctx.store_hdr (ctx.store_hdr.item_section.used + 1)) where
  abbrev hdr : Header
  hdr = ctx.store_hdr

  abbrev n : ℕ
  n = hdr.item_section.used

  abbrev new : ℕ
  new = snapshot_offset hdr.item_section

  more : (b : ℕ) → item_at hdr b n ≤ item_at hdr b (n + 1)
  more b = omega (arith, step_le n (n + 1) (item_len hdr) (omega arith))

  module _ (c : Ctx) (a : Adding ctx key value c) where
    adding_seen : (x : ℕ) → Visible ctx x → ctx.mem x ≡ c.mem x
    adding_seen x (inl (p, q)) = sym (
        a.bytes x (omega (arith, g.apart, more (offset hdr.item_section)))
          (inl (omega (arith, s.room.below_keys)))
          (inl (omega (arith, s.room.below_keys, s.room.keys_below_values))))
    adding_seen x (inr (inl (p, q))) = sym (
        a.bytes x (inr (omega (arith, g.snapshot_below_keys))) (inl q)
          (inl (omega (arith, s.room.keys_used, s.room.keys_below_values))))
    adding_seen x (inr (inr (p, q))) = sym (
        a.bytes x (inr (omega (arith, g.snapshot_below_keys, s.room.keys_below_values)))
          (inr (omega (arith, fits.key_free, s.room.keys_below_values))) (inl q))

    same_len : (b x : ℕ) → item_at c.store_hdr b x ≡ item_at hdr b x
    unfolding item_len
    same_len b x = ap (λ max. b + x * (16 + max * 16)) (sym a.grows.same_max)

    adding_room : HasRoom c.store_hdr c.store_hdr.item_section.used
    adding_room =
        let used = ap (λ (t : Section). t.used) a.items in
        let area = ap offset a.items in
        let other = ap snapshot_offset a.items in
        let at : item_at c.store_hdr 0 c.store_hdr.item_section.used ≡ item_at hdr 0 n =
          same_len 0 c.store_hdr.item_section.used ∙ ap (item_at hdr 0) used in
        record {
          versions = omega (arith, s.room.versions, a.grows.same_max);
          versions_small = omega (arith, s.room.versions_small, a.grows.same_max);
          apart = omega (arith, s.room.apart, area, other, at);
          below_keys = omega (arith, s.room.below_keys, area, at, a.grows.same_keys);
          snapshot_below_keys =
              omega (arith, s.room.snapshot_below_keys, other, at, a.grows.same_keys);
          keys_below_values =
              omega (
                arith, s.room.keys_below_values, a.grows.same_keys, a.grows.same_values, a.key_size,
              );
          keys_used = omega (arith, fits.key_free, a.key_used, a.key_size);
          values_used = omega (arith, fits.value_free, a.value_used, a.value_size);
          small = omega (arith, s.room.small, a.grows.same_values, a.value_size);
        }

    -- None of it is visible.
    pub adding-Hidden : Hidden ctx c
    adding-Hidden = record {
      items = a.items;
      grows = a.grows;
      room = adding_room;
      seen = adding_seen;
    }

module _ (ctx : Ctx) (s : IsStore ctx) (fresh : IsFresh ctx) (key value : Str) (k : IsKey key)
    (fits : Fits ctx.store_hdr key value)
    (g : HasRoom ctx.store_hdr (ctx.store_hdr.item_section.used + 1))
    (absent : LacksKey ctx key) where
  abbrev snap : Ctx
  snap = make_snapshot ctx

  abbrev base : ℕ
  base = snapshot_offset ctx.store_hdr.item_section

  abbrev count : ℕ
  count = ctx.store_hdr.item_section.used

  -- The place of the new item.
  place :
      (x : ℕ)
      → (x < base) ⊎ (item_at ctx.store_hdr base (count + 1) ≤ x)
      → (x < item_at ctx.store_hdr base count)
        ⊎ (item_at ctx.store_hdr base count + item_len ctx.store_hdr ≤ x)
  place x h = omega (arith, step_le count (count + 1) (item_len ctx.store_hdr) (omega arith))

  snapshot_bytes :
      (x : ℕ) → (x < base) ⊎ (item_at ctx.store_hdr base (count + 1) ≤ x) → snap.mem x ≡ ctx.mem x
  snapshot_bytes x h =
      snapshot_outside ctx s fresh x
        (omega (arith, step_le count (count + 1) (item_len ctx.store_hdr) (omega arith)))

  -- The snapshot is such a moment ...
  pub snapshot-Adding : Adding ctx key value snap
  unfolding make_snapshot
  snapshot-Adding = record {
    items = refl;
    grows = Grows-refl ctx.store_hdr;
    key_size = refl;
    value_size = refl;
    key_used = omega arith;
    value_used = omega arith;
    bytes = λ x h k v. snapshot_bytes x h;
  }

  abbrev added_ctx : Ctx
  added_ctx = before_count ctx s fresh key value k fits g absent

  added_sections :
      (added_ctx.store_hdr.item_section ≡ ctx.store_hdr.item_section)
      × (added_ctx.store_hdr.key_section.size ≡ ctx.store_hdr.key_section.size)
      × (added_ctx.store_hdr.value_section.size ≡ ctx.store_hdr.value_section.size)
  unfolding make_snapshot write_key add_value link_value
  added_sections = (refl, refl, refl)

  -- ... and the last one is that after `pupa_store_item_add`.
  pub added-Adding : Adding ctx key value added_ctx
  unfolding make_snapshot
  added-Adding = record {
    items = added_sections.0;
    grows = added-Grows snap key value k.short fits g;
    key_size = added_sections.1;
    value_size = added_sections.2;
    key_used = omega (arith, added-key_used snap key value k.short fits g);
    value_used = omega (arith, added-value_used snap key value k.short fits g);
    bytes = λ x h p q.
        added_outside snap key value k.short fits g x (place x h) p q ∙ snapshot_bytes x h;
  }
