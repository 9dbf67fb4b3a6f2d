-- ===== src/Api/Session.antt =====
-- The store that `pupa_init` makes in a new file, and the first calls on it.
use pupa.Common.{ℕ, ◌+◌, ◌*◌, ◌^◌, ◌≤◌, ◌<◌, ◌≡◌, ◌∙◌, ap, inl, refl, true, false, arith, some, pos}
use pupa.Layout.{Header, pupa_store_init, offset, snapshot_offset, item_len, to_size}
use pupa.Layout.Bounds.{file_size, init_areas}
use pupa.Item.{Str, View}
use pupa.Item.Order.{SameStr}
use pupa.Context.{ok, Env}
use pupa.Read.{refresh}
use pupa.Write.{sync_status}
use pupa.Write.Strings.{terminated}
use pupa.Store.{HasRoom, IsStore, IsFresh, keys, values, item_at}
use pupa.Store.Find.{IsKey}
use pupa.Store.Get.{text}
use pupa.Store.Added.{Fits}
use pupa.Store.Reading.{added-Reads}
use pupa.Store.SetGet.{set_new_least}
use pupa.Shm.{Os, Shm, op_type_rw}
use pupa.Api.{Pupa, Start, pupa_init, open_store, set_done, pupa_set, pupa_get_by_ver}

-- The system calls for a new file succeed.
pub record IsNew (os : Os) : Type 0 where
  pub opened : os.opened ≡ true
  pub stated : os.stated ≡ true
  pub empty : os.st_size ≡ 0
  pub truncated : os.truncated ≡ true
  pub mapped : os.mapped ≡ true

module _ (key_count : ℕ) (small : file_size key_count 3 < 2 ^ 31) where
  abbrev hdr : Header
  hdr = (pupa_store_init key_count 3).0

  record Areas : Type 0 where
    max : hdr.max_ver_num ≡ 3
    items : offset hdr.item_section ≡ 128
    items' : snapshot_offset hdr.item_section ≡ 128 + (key_count * 16 + 48)
    key_start : keys hdr ≡ 128 + 2 * (key_count * 16 + 48)
    value_start : values hdr ≡ 128 + 2 * (key_count * 16 + 48) + 2 * (key_count * 64)
    item_size : hdr.item_section.size ≡ key_count
    key_size : hdr.key_section.size ≡ 64 * key_count
    value_size : hdr.value_section.size ≡ 256 * key_count
    item_used : hdr.item_section.used ≡ 0
    key_used : hdr.key_section.used ≡ 0
    value_used : hdr.value_section.used ≡ 0

  areas : Areas
  unfolding offset snapshot_offset
  areas =
      let (m, i, k, v, total) = init_areas key_count 3 small in
      record {
        max = m;
        items = ground (arith, i.current, i.first);
        items' = ground (arith, i.current, i.second);
        key_start = ground (arith, k.current, k.first);
        value_start = ground (arith, v.current, v.first);
        item_size = i.capacity;
        key_size = k.capacity;
        value_size = v.capacity;
        item_used = i.empty;
        key_used = k.empty;
        value_used = v.empty;
      }

  length_lem : (b n : ℕ) → item_at hdr b n ≡ b + n * 64
  unfolding item_len
  length_lem b n = rw areas.max refl

  init-HasRoom : (n : ℕ) → n * 64 ≤ key_count * 16 + 48 → HasRoom hdr n
  init-HasRoom n fit =
      let a = areas in
      let first = length_lem (offset hdr.item_section) n in
      let second = length_lem (snapshot_offset hdr.item_section) n in
      record {
        versions = omega (arith, a.max);
        versions_small = omega (arith, a.max);
        apart = inl (omega (arith, first, a.items, a.items'));
        below_keys = omega (arith, first, a.items, a.key_start);
        snapshot_below_keys = omega (arith, second, a.items', a.key_start);
        keys_below_values = omega (arith, a.key_start, a.value_start, a.key_size);
        keys_used = omega (arith, a.key_used);
        values_used = omega (arith, a.value_used);
        small = omega (arith, a.value_start, a.value_size);
      }

  module _ (start : Start) (pupa : Pupa) (idle : pupa.init ≡ false) (new : IsNew start.os) where
    abbrev shm : Shm
    shm = record {
      mapping = true;
      size = to_size ((pupa_store_init key_count 3).1);
      exists = false;
    }

    abbrev pub opened : Pupa
    opened = open_store start hdr shm

    pub init_result : pupa_init start key_count op_type_rw pupa ≡ (ok, opened)
    unfolding pupa_init
    init_result = ground (arith, idle, new.opened, new.stated, new.empty, new.truncated, new.mapped)

    opened_hdr : opened.ctx.store_hdr ≡ hdr
    unfolding open_store
    opened_hdr = refl

    pub opened-IsStore : IsStore opened.ctx
    unfolding open_store
    opened-IsStore = record {
      room = rw areas.item_used (init-HasRoom 0 (omega arith));
      table = record {
        items = λ i l. absurd (omega (arith, areas.item_used));
        ordered = λ i j p l. absurd (omega (arith, areas.item_used));
      };
    }

    pub opened-IsFresh : IsFresh opened.ctx
    unfolding open_store
    opened-IsFresh = refl

    opened_size : opened.shm.size ≡ file_size key_count 3
    unfolding open_store
    opened_size = let (m, i, k, v, total) = init_areas key_count 3 small in ground (arith, total)

    opened_init : opened.init ≡ true
    unfolding open_store
    opened_init = refl

    -- `pupa_init` of an uninitialised library succeeds on a new file, for reading and writing, if the
    -- system calls do and the file is smaller than 2 ^ 31 bytes: afterwards the library is initialised
    -- over an empty store whose `ctx->store_items` points at the current area, the size is that of the
    -- file, and there is room for the first `n` items if `n * 64 <= key_count * 16 + 48`.
    pub init_new_file :
        (n : ℕ)
        → n * 64 ≤ key_count * 16 + 48
        → (pupa' : Pupa) × (pupa_init start key_count op_type_rw pupa ≡ (ok, pupa'))
          × (pupa'.init ≡ true)
          × (pupa'.shm.size ≡ file_size key_count 3)
          × (pupa'.ctx.store_hdr.item_section.used ≡ 0)
          × IsStore pupa'.ctx
          × IsFresh pupa'.ctx
          × HasRoom pupa'.ctx.store_hdr n
    init_new_file n fit = (
      opened,
      init_result,
      opened_init,
      opened_size,
      ap (λ (h : Header). h.item_section.used) opened_hdr ∙ areas.item_used,
      opened-IsStore,
      opened-IsFresh,
      rw opened_hdr (init-HasRoom n fit),
    )

    pub none_used : opened.ctx.store_hdr.item_section.used ≡ 0
    none_used = ap (λ (h : Header). h.item_section.used) opened_hdr ∙ areas.item_used

    pub room_one :
        0 < key_count → HasRoom opened.ctx.store_hdr (opened.ctx.store_hdr.item_section.used + 1)
    unfolding open_store
    room_one p = simp areas.item_used (init-HasRoom 1 (omega arith))

    pub fits :
        (key value : Str)
        → 0 < key_count
        → key.len + 1 ≤ 64 * key_count
        → value.len + 1 ≤ 256 * key_count
        → Fits opened.ctx.store_hdr key value
    unfolding open_store
    fits key value p q r =
        let a = areas in
        record {
          item_free = λ e. absurd (omega (arith, a.item_used, a.item_size));
          key_free = omega (arith, a.key_used, a.key_size);
          value_free = omega (arith, a.value_used, a.value_size);
          value_short = omega arith;
        }

    -- Let `pupa_init` open a new file of less than 2 ^ 31 bytes for reading and writing, for one
    -- key at least, with the library not initialised and the system calls and malloc succeeding. It
    -- succeeds; `pupa_set` of a key and a value that fit into their areas then returns what the
    -- sync reports, and `pupa_get_by_ver` of the key for version 1 hands out the value with a '\0'
    -- behind it.
    pub first_set_get :
        (key value : Str)
        → IsKey key
        → 0 < key_count
        → key.len + 1 ≤ 64 * key_count
        → value.len + 1 ≤ 256 * key_count
        → (env : Env) → env.allocated ≡ true
        → (pupa' pupa'' : Pupa) × (w : View) × (pupa_init start key_count op_type_rw pupa
            ≡ (ok, pupa'))
          × (pupa_set env pupa' key value ≡ some (sync_status env, pupa''))
          × (pupa_get_by_ver pupa'' key (pos 1)
              ≡ (ok, some w, record pupa'' { ctx = refresh pupa''.ctx }))
          × SameStr (text pupa''.ctx.mem w) (terminated value)
    unfolding pupa_set pupa_get_by_ver
    first_set_get key value k some_key key_fits value_fits env allocated =
        let (ctx', added, sets) =
          set_new_least opened.ctx opened-IsStore opened-IsFresh key value k
            (fits key value some_key key_fits value_fits) (room_one some_key)
            (λ i l. absurd (omega (arith, none_used))) env allocated 0 (omega (arith, none_used))
            (omega (arith, none_used)) (λ i l. absurd (omega (arith, none_used))) in
        let (w, got, same) = added-Reads opened.ctx ctx' key value 0 added k in
        (
          opened,
          record opened { ctx = ctx' },
          w,
          init_result,
          ap (set_done opened) sets,
          ap (λ r. (r.0, r.1, record opened { ctx = r.2 })) got,
          same,
        )
