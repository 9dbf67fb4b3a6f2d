-- ===== src/Store/Moments.antt =====
-- The bytes that other processes find while `pupa_store_set` replaces a value, up to the switch.
use pupa.Common.{
  ℕ, ◌+◌, ◌-◌, ◌*◌, ◌≤◌, ◌<◌, ◌≡◌, ◌∙◌, ap, sym, refl, ◌⊎◌, inl, inr, some, arith, step_le,
}
use pupa.Memory.{Mem}
use pupa.Layout.{Header, Section, offset, snapshot_offset, free_offset, item_len}
use pupa.Layout.Switch.{free_offset_lem}
use pupa.Item.{Str}
use pupa.Context.{Ctx, Env}
use pupa.Write.{
  make_snapshot, write_str, shift_values, pupa_store_set, replace_value, link_value, switch_items,
  finish_old, sync_status,
}
use pupa.Write.Strings.{write_str_outside}
use pupa.Store.{IsStore, IsFresh, HasRoom, values, item_at}
use pupa.Store.Find.{IsKey}
use pupa.Store.Get.{HasKey}
use pupa.Store.Keep.{Grows, Grows-refl}
use pupa.Store.Snapshot.{snapshot_outside}
use pupa.Store.Replaced.{FitsValue, replaced_outside, shift}
use pupa.Store.ReplacedTable.{grown, below, valid}
use pupa.Store.SetOld.{
  snap_fits, snap_room, snap-IsTable, snap_inside, snap_area, changed, new_ctx, reached,
  replaced_ok, finished, IsFilled, IsReplaced, new-IsFilled, new-IsReplaced,
}
use pupa.Write.Shift.{IsShifted}
use pupa.Store.Visible.{Visible, Hidden}

-- `n` bytes from `dst` on are being written: each of them may be anything.
abbrev pub Writing : Mem → (dst n : ℕ) → Mem → Type 0
Writing m dst n m' = (x : ℕ) → (x < dst) ⊎ (dst + n ≤ x) → m' x ≡ m x

-- The memory during the memcpy of the snapshot, during the memcpy of the value, while the versions of
-- the item are moved and counted, and while the record of the new version is filled.
pub data Moment (ctx : Ctx) (item : ℕ) (value : Str) (m : Mem) : Type 0 where
  copying_items :
      Writing ctx.mem
        (snapshot_offset ctx.store_hdr.item_section)
        (item_len ctx.store_hdr * ctx.store_hdr.item_section.used)
        m
      → Moment ctx item value m
  writing_value :
      Writing (make_snapshot ctx).mem (free_offset ctx.store_hdr.value_section) (value.len + 1) m
      → Moment ctx item value m
  moving_versions :
      Writing
        (write_str (make_snapshot ctx).mem (free_offset ctx.store_hdr.value_section) value)
        (item + 12)
        (item_len ctx.store_hdr - 12)
        m
      → Moment ctx item value m
  filling_record :
      (let (moved, val) =
          shift_values
            (write_str (make_snapshot ctx).mem (free_offset ctx.store_hdr.value_section) value)
            ctx.store_hdr.max_ver_num
            item in
        Writing moved val 12 m)
      → Moment ctx item value m

module _ (ctx : Ctx) (s : IsStore ctx) (fresh : IsFresh ctx) (key value : Str) (k : IsKey key)
    (fits : FitsValue ctx.store_hdr value) (i : ℕ) (has : HasKey ctx key i) where
  abbrev hdr : Header
  hdr = ctx.store_hdr

  abbrev n : ℕ
  n = hdr.item_section.used

  abbrev pub item : ℕ
  item = item_at hdr (snapshot_offset hdr.item_section) i

  -- What is visible lies in front of or behind every block that is written.
  outside_snapshot :
      (x : ℕ)
      → Visible ctx x
      → (x < snapshot_offset hdr.item_section)
        ⊎ (item_at hdr (snapshot_offset hdr.item_section) n ≤ x)
  outside_snapshot x (inl (p, q)) = omega (arith, s.room.apart)
  outside_snapshot x (inr (inl (p, q))) = inr (omega (arith, s.room.snapshot_below_keys))
  outside_snapshot x (inr (inr (p, q))) =
      inr (omega (arith, s.room.snapshot_below_keys, s.room.keys_below_values))

  outside_item : (x : ℕ) → Visible ctx x → (x < item) ⊎ (item + item_len hdr ≤ x)
  outside_item x v = omega (arith, outside_snapshot x v, step_le i n (item_len hdr) has.inside)

  outside_value :
      (x : ℕ)
      → Visible ctx x
      → (x < values hdr + hdr.value_section.used)
        ⊎ (values hdr + hdr.value_section.used + (value.len + 1) ≤ x)
  outside_value x (inl (p, q)) = inl (omega (arith, s.room.below_keys, s.room.keys_below_values))
  outside_value x (inr (inl (p, q))) =
      inl (omega (arith, s.room.keys_used, s.room.keys_below_values))
  outside_value x (inr (inr (p, q))) = inl (omega arith)

  abbrev snap : Ctx
  snap = make_snapshot ctx

  value_end : free_offset hdr.value_section ≡ values hdr + hdr.value_section.used
  value_end = free_offset_lem hdr.value_section

  abbrev written : Mem
  written = write_str snap.mem (free_offset hdr.value_section) value

  snap_seen : (x : ℕ) → Visible ctx x → snap.mem x ≡ ctx.mem x
  snap_seen x v = snapshot_outside ctx s fresh x (outside_snapshot x v)

  written_seen : (x : ℕ) → Visible ctx x → written x ≡ ctx.mem x
  written_seen x v =
      write_str_outside snap.mem (free_offset hdr.value_section) value x
        (omega (arith, value_end, outside_value x v))
      ∙ snap_seen x v

  abbrev moved : Mem × ℕ
  moved = shift_values written hdr.max_ver_num item

  -- The versions are moved inside the item.
  moving : IsShifted written hdr.max_ver_num item moved.0 moved.1
  unfolding make_snapshot
  moving =
      let base = snapshot_offset hdr.item_section in
      let f = snap_fits ctx s fresh key value k fits i has in
      let g = snap_room ctx s fresh key value k fits i has in
      let t = snap-IsTable ctx s fresh key value k fits i has in
      let l = snap_inside ctx s fresh key value k fits i has in
      let a = snap_area ctx s fresh key value k fits i has in
      shift snap item value f (below snap value f base i g t l a) n g
        (valid snap value f base i g t l a)

  item_length : item_len hdr ≡ 16 + hdr.max_ver_num * 16
  unfolding item_len
  item_length = refl

  moved_seen : (x : ℕ) → Visible ctx x → moved.0 x ≡ ctx.mem x
  moved_seen x v =
      moving.outside x (omega (arith, outside_item x v, item_length)) ∙ written_seen x v

  Moment-seen : (m : Mem) → Moment ctx item value m → (x : ℕ) → Visible ctx x → ctx.mem x ≡ m x
  Moment-seen m (copying_items w) x v = sym (w x (omega (arith, outside_snapshot x v)))
  Moment-seen m (writing_value w) x v =
      sym (w x (omega (arith, value_end, outside_value x v)) ∙ snap_seen x v)
  Moment-seen m (moving_versions w) x v =
      sym (w x (omega (arith, outside_item x v, item_length)) ∙ written_seen x v)
  Moment-seen m (filling_record w) x v = sym (
      w x (omega (arith, outside_item x v, item_length, moving.newest, s.room.versions))
      ∙ moved_seen x v)

  -- At each moment the visible bytes are those of before.
  pub Moment-Hidden : (m : Mem) → Moment ctx item value m → Hidden ctx (record ctx { mem = m })
  Moment-Hidden m t = record {
    items = refl;
    grows = Grows-refl hdr;
    room = s.room;
    seen = Moment-seen m t;
  }

  -- The context in front of the switch.
  abbrev pub before_switch : Ctx
  before_switch = changed ctx s fresh key value k fits i has

  changed_seen : (x : ℕ) → Visible ctx x → ctx.mem x ≡ before_switch.mem x
  unfolding make_snapshot
  changed_seen x v =
      let base = snapshot_offset hdr.item_section in
      let f = snap_fits ctx s fresh key value k fits i has in
      let g = snap_room ctx s fresh key value k fits i has in
      let t = snap-IsTable ctx s fresh key value k fits i has in
      let l = snap_inside ctx s fresh key value k fits i has in
      let a = snap_area ctx s fresh key value k fits i has in
      sym (
        replaced_outside snap item value f (below snap value f base i g t l a) n g
          (valid snap value f base i g t l a) x (omega (arith, outside_item x v))
          (outside_value x v)
        ∙ snap_seen x v)

  abbrev new_hdr : Header
  new_hdr = before_switch.store_hdr

  filled : IsFilled ctx (new_ctx ctx s fresh key value k fits i has) value
  filled = new-IsFilled ctx s fresh key value k fits i has

  changed_values :
      (new_hdr.value_section.used ≡ hdr.value_section.used + (value.len + 1))
      × (new_hdr.value_section.size ≡ hdr.value_section.size)
  unfolding switch_items
  changed_values = (filled.value_used, filled.value_size)

  changed_sections :
      (new_hdr.item_section ≡ hdr.item_section) × (new_hdr.key_section ≡ hdr.key_section)
  unfolding make_snapshot replace_value link_value
  changed_sections = (refl, refl)

  changed-Grows : Grows hdr new_hdr
  unfolding make_snapshot
  changed-Grows =
      grown snap value (snap_fits ctx s fresh key value k fits i has)
        (snapshot_offset hdr.item_section) i (snap_room ctx s fresh key value k fits i has)
        (snap-IsTable ctx s fresh key value k fits i has)
        (snap_inside ctx s fresh key value k fits i has)
        (snap_area ctx s fresh key value k fits i has)

  changed_at : (b x : ℕ) → item_at new_hdr b x ≡ item_at hdr b x
  unfolding item_len
  changed_at b x = ap (λ max. b + x * (16 + max * 16)) (sym changed-Grows.same_max)

  changed_room : HasRoom new_hdr new_hdr.item_section.used
  changed_room =
      let g = changed-Grows in
      let used = ap (λ (t : Section). t.used) changed_sections.0 in
      let area = ap offset changed_sections.0 in
      let other = ap snapshot_offset changed_sections.0 in
      let at : item_at new_hdr 0 new_hdr.item_section.used ≡ item_at hdr 0 n =
        changed_at 0 new_hdr.item_section.used ∙ ap (item_at hdr 0) used in
      let key_used = ap (λ (t : Section). t.used) changed_sections.1 in
      let key_size = ap (λ (t : Section). t.size) changed_sections.1 in
      record {
        versions = omega (arith, s.room.versions, g.same_max);
        versions_small = omega (arith, s.room.versions_small, g.same_max);
        apart = omega (arith, s.room.apart, area, other, at);
        below_keys = omega (arith, s.room.below_keys, area, at, g.same_keys);
        snapshot_below_keys = omega (arith, s.room.snapshot_below_keys, other, at, g.same_keys);
        keys_below_values =
            omega (arith, s.room.keys_below_values, g.same_keys, g.same_values, key_size);
        keys_used = omega (arith, s.room.keys_used, key_used, key_size);
        values_used = omega (arith, fits.value_free, changed_values.0, changed_values.1);
        small = omega (arith, s.room.small, g.same_values, changed_values.1);
      }

  -- In front of the switch the visible bytes are still those of before.
  pub changed-Hidden : Hidden ctx before_switch
  changed-Hidden = record {
    items = changed_sections.0;
    grows = changed-Grows;
    room = changed_room;
    seen = changed_seen;
  }

  -- The switch is the last step of `pupa_store_set`, and makes the new version visible.
  pub set_switches :
      (env : Env)
      → (pupa_store_set env ctx key value
          ≡ some (
            sync_status env,
            switch_items before_switch before_switch.store_hdr.item_section.used,
          ))
        × IsReplaced ctx
            (switch_items before_switch before_switch.store_hdr.item_section.used)
            value
            i
  set_switches env = (
    reached ctx s fresh key value k fits i has env
        ∙ ap (finish_old env) (replaced_ok ctx s fresh key value k fits i has)
        ∙ finished ctx s fresh key value k fits i has env,
    new-IsReplaced ctx s fresh key value k fits i has,
  )
