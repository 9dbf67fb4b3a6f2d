-- ===== src/Dict/Settable.antt =====
-- Writes that a store takes, for a new and for a present key.
use pupa.Common.{ℕ, ◌+◌, ◌*◌, ◌^◌, ◌≤◌, ◌<◌, ◌≡◌, true, some, Ordering}
use pupa.Item.{Str}
use pupa.Item.Order.{item_key, order}
use pupa.Context.{Ctx, Env}
use pupa.Write.{pupa_store_set, sync_status}
use pupa.Write.Strings.{terminated}
use pupa.Store.{IsStore, IsFresh, HasRoom}
use pupa.Store.Find.{IsKey}
use pupa.Store.Get.{HasKey, LacksKey, current}
use pupa.Store.Added.{Fits}
use pupa.Store.Replaced.{FitsValue}
use pupa.Store.SetGet.{set_new_least}
use pupa.Dict.{Dict, str_text, dict_set}
use pupa.Dict.Represents.{Represents}
use pupa.Dict.Keys.{key_text}
use pupa.Dict.Writes.{added-Represents}
use pupa.Dict.Refine.{set_new-dict_set, set_old-dict_set}

-- The key is there, or new and greater than another, or smaller than all where the search of the sort
-- stays inside the array; what is written fits without a compaction.
pub data Settable (ctx : Ctx) (key value : Str) : Type 0 where
  replaces : (i : ℕ) → HasKey ctx key i → FitsValue ctx.store_hdr value → Settable ctx key value
  adds :
      Fits ctx.store_hdr key value
      → HasRoom ctx.store_hdr (ctx.store_hdr.item_section.used + 1)
      → LacksKey ctx key
      → (i : ℕ) → i < ctx.store_hdr.item_section.used
      → order (terminated key) (item_key ctx.mem (current ctx i)) ≡ Ordering.gt
      → Settable ctx key value
  least :
      Fits ctx.store_hdr key value
      → HasRoom ctx.store_hdr (ctx.store_hdr.item_section.used + 1)
      → LacksKey ctx key
      → (j : ℕ) → 2 * 2 ^ j ≤ ctx.store_hdr.item_section.used + 2
      → ctx.store_hdr.item_section.used + 2 < 3 * 2 ^ j
      → ((i : ℕ)
          → i < ctx.store_hdr.item_section.used
          → order (terminated key) (item_key ctx.mem (current ctx i)) ≡ Ordering.lt)
      → Settable ctx key value

pub Settable-set :
    (ctx : Ctx)
    → IsStore ctx
    → IsFresh ctx
    → (d : Dict) → Represents ctx d
    → (key value : Str) → IsKey key
    → (env : Env) → env.allocated ≡ true
    → Settable ctx key value
    → (ctx' : Ctx) × (pupa_store_set env ctx key value ≡ some (sync_status env, ctx'))
      × IsStore ctx'
      × Represents ctx'
          (dict_set ctx.store_hdr.max_ver_num d (key_text key) (str_text (terminated value)))
Settable-set ctx s fresh d rep key value k env allocated (replaces i has fits) =
    set_old-dict_set ctx s fresh d rep key k env value fits i has
Settable-set ctx s fresh d rep key value k env allocated (adds fits room lacks i l greater) =
    set_new-dict_set ctx s fresh d rep key k env value fits room lacks allocated i l greater
Settable-set ctx s fresh d rep key value k env allocated (least fits room lacks j lo hi below) =
    let (ctx', a, e) =
      set_new_least ctx s fresh key value k fits room lacks env allocated j lo hi below in
    (ctx', e, a.store, added-Represents ctx ctx' d rep s key value k 0 a lacks)
