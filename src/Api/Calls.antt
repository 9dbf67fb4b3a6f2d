-- ===== src/Api/Calls.antt =====
-- The lookups of the interface on a store.
use pupa.Common.{ℕ, ◌+◌, ◌<◌, ◌≡◌, ap, List, some, pos, length, get_elem?}
use pupa.Item.{Str, View, key_offset, key_len, val_cnt}
use pupa.Context.{ok}
use pupa.Read.{refresh}
use pupa.Store.{IsStore}
use pupa.Store.Find.{IsKey}
use pupa.Store.Get.{HasKey, current, get_version_zero, get_values_present}
use pupa.Api.{Pupa, pupa_get, pupa_get_by_ver, pupa_get_all_ver}

-- The context after a lookup.
abbrev pub looked_up : Pupa → Pupa
looked_up pupa = record pupa { ctx = refresh pupa.ctx }

module _ (pupa : Pupa) (s : IsStore pupa.ctx) (key : Str) (k : IsKey key) (i : ℕ)
    (has : HasKey pupa.ctx key i) where
  -- In a store, `pupa_get` of a key that is there succeeds with the key that the next record of the
  -- item area describes, in place of the value: it asks for version 0, whose record is the 16 bytes
  -- behind the values of the item.
  pub get_next_key :
      (w : View) × (pupa_get pupa key ≡ (ok, some w, looked_up pupa))
      × (w.offset ≡ key_offset pupa.ctx.mem (current pupa.ctx (i + 1)))
      × (w.len ≡ key_len pupa.ctx.mem (current pupa.ctx (i + 1)))
  unfolding pupa_get
  get_next_key =
      let (w, e, o, l) = get_version_zero pupa.ctx s key k i has in
      (w, ap (λ r. (r.0, r.1, record pupa { ctx = r.2 })) e, o, l)

  -- In a store, `pupa_get_all_ver` of a key that is there succeeds with as many strings as the item
  -- has versions, and the string at index `v` is the one that `pupa_get_by_ver` hands out for version
  -- `v + 1`.
  pub get_all_by_ver :
      (vs : List View) × (pupa_get_all_ver pupa key ≡ (ok, vs, looked_up pupa))
      × (length vs ≡ val_cnt pupa.ctx.mem (current pupa.ctx i))
      × ((v : ℕ)
          → v < length vs
          → (w : View) × (get_elem? vs v ≡ some w)
            × (pupa_get_by_ver pupa key (pos (v + 1)) ≡ (ok, some w, looked_up pupa)))
  unfolding pupa_get_all_ver pupa_get_by_ver
  get_all_by_ver =
      let (vs, e, l, each) = get_values_present pupa.ctx s key k i has in
      (
        vs,
        ap (λ r. (r.0, r.1, record pupa { ctx = r.2 })) e,
        l,
        λ v p.
            let (w, there, got) = each v p in
            (w, there, ap (λ r. (r.0, r.1, record pupa { ctx = r.2 })) got),
      )
