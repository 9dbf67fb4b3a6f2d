-- ===== src/Dict/Atomic.antt =====
-- What the processes that look keys up see of a running `pupa_store_set`.
use pupa.Common.{◌+◌, ℕ, ◌<◌, ◌≡◌, some, pos}
use pupa.Memory.{Mem}
use pupa.Item.{Str}
use pupa.Context.{ok, Ctx, Env}
use pupa.Read.{pupa_store_get}
use pupa.Write.{make_snapshot, finish_new, pupa_store_set, switch_items, sync_status}
use pupa.Write.Strings.{terminated}
use pupa.Layout.{snapshot_offset}
use pupa.Store.{HasRoom, IsStore, IsFresh, item_at}
use pupa.Store.Find.{IsKey}
use pupa.Store.Get.{LacksKey, HasKey}
use pupa.Store.Replaced.{FitsValue}
use pupa.Store.Visible.{Hidden, hidden-IsStore, hidden-used, hidden_items}
use pupa.Store.Moments.{Moment, Moment-Hidden, before_switch, changed-Hidden, set_switches}
use pupa.Store.Added.{Fits}
use pupa.Store.SetNew.{before_count, set_adds}
use pupa.Store.Adding.{Adding, adding-Hidden, snapshot-Adding, added-Adding}
use pupa.Dict.{Dict, str_text, dict_set, dict_get}
use pupa.Dict.Represents.{Represents, answer, get-dict_get}
use pupa.Dict.Keys.{key_text}
use pupa.Dict.Writes.{replaced-Represents}
use pupa.Dict.Refine.{kept-Represents}

-- What a lookup of version `v` of a key answers on a context.
abbrev pub Answers : Ctx → Dict → (other : Str) (v : ℕ) → Type 0
Answers ctx d other v =
    answer ctx (pupa_store_get ctx other (pos v))
    ≡ dict_get ctx.store_hdr.max_ver_num d (key_text other) v

-- Where nothing visible changes, a lookup answers as before.
Hidden-Answers :
    (ctx ctx' : Ctx) (d : Dict)
    → IsStore ctx
    → Represents ctx d
    → Hidden ctx ctx'
    → (other : Str) → IsKey other
    → (v : ℕ) → 0 < v
    → Answers ctx' d other v
Hidden-Answers ctx ctx' d s rep h other k v p =
    get-dict_get ctx' (hidden-IsStore ctx ctx' s h) d
      (kept-Represents ctx ctx' d rep (hidden-used ctx ctx' s h) (hidden_items ctx ctx' s h)) other
      k v p

-- In a fresh store that represents a dictionary, let `pupa_store_set` replace the value of a key that
-- is there by one that fits without a compaction. At every moment before the switch of the item
-- section, with the bytes of the running memcpy or of the running assignments being anything, another
-- process that looks up any key for any version from 1 on is answered as by the dictionary; so it is
-- in front of the switch, and from the switch on, which is the last store of the call, as by the
-- dictionary with the new version.
pub set_old_atomic :
    (ctx : Ctx) (s : IsStore ctx) (fresh : IsFresh ctx) (d : Dict)
    → Represents ctx d
    → (key value : Str) (k : IsKey key) (fits : FitsValue ctx.store_hdr value) (i : ℕ)
      (has : HasKey ctx key i) (env : Env) (m : Mem)
    → Moment ctx (item_at ctx.store_hdr (snapshot_offset ctx.store_hdr.item_section) i) value m
    → (other : Str) → IsKey other
    → (v : ℕ) → 0 < v
    → (before : Ctx) × (pupa_store_set env ctx key value
        ≡ some (sync_status env, switch_items before before.store_hdr.item_section.used))
      × Answers (record ctx { mem = m }) d other v
      × Answers before d other v
      × Answers
          (switch_items before before.store_hdr.item_section.used)
          (dict_set ctx.store_hdr.max_ver_num d (key_text key) (str_text (terminated value)))
          other
          v
set_old_atomic ctx s fresh d rep key value k fits i has env m t other k' v p =
    let (e, a) = set_switches ctx s fresh key value k fits i has env in
    let before = before_switch ctx s fresh key value k fits i has in
    let after = switch_items before before.store_hdr.item_section.used in
    let next = dict_set ctx.store_hdr.max_ver_num d (key_text key) (str_text (terminated value)) in
    (
      before,
      e,
      Hidden-Answers ctx (record ctx { mem = m }) d s rep
          (Moment-Hidden ctx s fresh key value k fits i has m t) other k' v p,
      Hidden-Answers ctx before d s rep (changed-Hidden ctx s fresh key value k fits i has) other k'
          v p,
      get-dict_get after a.store next (replaced-Represents ctx after d rep s key value k i a has)
          other k' v p,
    )

-- In a fresh store that represents a dictionary, let `pupa_store_set` add a new key that fits with its
-- value without a compaction, where both item areas have room for one more item without reaching into
-- each other or into the keys. Until the item is counted, with any bytes in the other item area and in
-- the places of the key and the value, and with the key and the value section filled further or not,
-- another process that looks up any key for any version from 1 on is answered as by the dictionary.
-- The snapshot and the context that `pupa_store_item_add` leaves are such moments, and the latter is
-- what the count, the sort and the switch go on from.
pub set_new_unseen :
    (ctx : Ctx)
    → IsStore ctx
    → IsFresh ctx
    → (d : Dict) → Represents ctx d
    → (key value : Str) → IsKey key
    → Fits ctx.store_hdr key value
    → HasRoom ctx.store_hdr (ctx.store_hdr.item_section.used + 1)
    → LacksKey ctx key
    → (env : Env) (c : Ctx) → Adding ctx key value c
    → (other : Str) → IsKey other
    → (v : ℕ) → 0 < v
    → (added : Ctx) × (pupa_store_set env ctx key value ≡ finish_new env (ok, added))
      × Adding ctx key value (make_snapshot ctx)
      × Adding ctx key value added
      × Answers c d other v
set_new_unseen ctx s fresh d rep key value k fits g absent env c a other k' v p = (
  before_count ctx s fresh key value k fits g absent,
  set_adds ctx s fresh key value k fits g absent env,
  snapshot-Adding ctx s fresh key value k fits g absent,
  added-Adding ctx s fresh key value k fits g absent,
  Hidden-Answers ctx c d s rep (adding-Hidden ctx s key value fits g c a) other k' v p,
)
