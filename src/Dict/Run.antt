-- ===== src/Dict/Run.antt =====
-- A client that uses the store by the rules, as a step relation on the store and its dictionary.
use pupa.Common.{
  ap, ℕ, ◌+◌, ◌<◌, ◌≡◌, ◌⊎◌, inl, inr, subst, refl, true, some, Option, ℤ, pos, Bool-cases, ltℤ,
}
use pupa.Item.{Str}
use pupa.Context.{Status, Ctx, Env, overflow, not_found}
use pupa.Read.{pupa_store_get, pupa_store_get_values, refresh}
use pupa.Write.{pupa_store_set, pupa_store_del, make_snapshot, sync_status}
use pupa.Write.Strings.{terminated}
use pupa.Store.{IsStore, IsFresh, HasRoom}
use pupa.Store.Find.{IsKey}
use pupa.Store.Get.{HasKey, LacksKey}
use pupa.Store.Keep.{SameItem-refl}
use pupa.Store.Added.{Fits}
use pupa.Store.Replaced.{FitsValue}
use pupa.Store.SetOld.{set_old_lem}
use pupa.Store.SetNew.{set_new_lem}
use pupa.Store.Del.{del_missing}
use pupa.Store.Full.{same_items, snap-IsStore, set_full_lem}
use pupa.Dict.{Dict, str_text, dict_set, dict_del, dict_get}
use pupa.Dict.Represents.{Represents, answer, get-dict_get}
use pupa.Dict.Keys.{key_text}
use pupa.Dict.Writes.{added-Represents, replaced-Represents}
use pupa.Dict.Refine.{kept-Represents, del-dict_del}

-- One call. Before a write `ctx->store_items` has to point at the current area, as it does after a
-- lookup; what is written fits without a compaction, and a new key needs room for one more item in
-- both item areas, which must not reach into each other or into the keys; only the greatest key is
-- deleted.
pub data Step (env : Env) (ctx : Ctx) (d : Dict) (ctx' : Ctx) (d' : Dict) : Type 0 where
  looked_up :
      (key : Str) (version : ℤ)
      → ctx' ≡ (pupa_store_get ctx key version).2
      → d' ≡ d
      → Step env ctx d ctx' d'
  listed : (key : Str) → ctx' ≡ (pupa_store_get_values ctx key).2 → d' ≡ d → Step env ctx d ctx' d'
  replaced :
      (key value : Str) (i : ℕ)
      → IsKey key
      → IsFresh ctx
      → HasKey ctx key i
      → FitsValue ctx.store_hdr value
      → pupa_store_set env ctx key value ≡ some (sync_status env, ctx')
      → d' ≡ dict_set ctx.store_hdr.max_ver_num d (key_text key) (str_text (terminated value))
      → Step env ctx d ctx' d'
  inserted :
      (key value : Str)
      → IsKey key
      → IsFresh ctx
      → LacksKey ctx key
      → Fits ctx.store_hdr key value
      → HasRoom ctx.store_hdr (ctx.store_hdr.item_section.used + 1)
      → pupa_store_set env ctx key value ≡ some (sync_status env, ctx')
      → d' ≡ dict_set ctx.store_hdr.max_ver_num d (key_text key) (str_text (terminated value))
      → Step env ctx d ctx' d'
  refused :
      (key value : Str)
      → IsKey key
      → IsFresh ctx
      → LacksKey ctx key
      → ctx.store_hdr.item_section.used ≡ ctx.store_hdr.item_section.size
      → pupa_store_set env ctx key value ≡ some (overflow, ctx')
      → d' ≡ d
      → Step env ctx d ctx' d'
  deleted :
      (key : Str) (i : ℕ)
      → IsKey key
      → IsFresh ctx
      → HasKey ctx key i
      → i + 1 ≡ ctx.store_hdr.item_section.used
      → pupa_store_del env ctx key ≡ (sync_status env, ctx')
      → d' ≡ dict_del d (key_text key)
      → Step env ctx d ctx' d'
  not_deleted :
      (key : Str)
      → IsKey key
      → IsFresh ctx
      → LacksKey ctx key
      → pupa_store_del env ctx key ≡ (not_found, ctx')
      → d' ≡ d
      → Step env ctx d ctx' d'

-- Any number of calls.
pub data Reach (env : Env) (ctx : Ctx) (d : Dict) : Ctx → Dict → Type 0 where
  here : Reach env ctx d ctx d
  next :
      {ctx' ctx'' : Ctx} {d' d'' : Dict}
      → Reach env ctx d ctx' d'
      → Step env ctx' d' ctx'' d''
      → Reach env ctx d ctx'' d''

-- The context represents the dictionary.
abbrev pub Good : Ctx → Dict → Type 0
Good ctx d = IsStore ctx × Represents ctx d

-- A lookup leaves the context, or makes `store_items` point at the current area.
get_context :
    (ctx : Ctx) (key : Str) (version : ℤ)
    → ((pupa_store_get ctx key version).2 ≡ ctx)
      ⊎ ((pupa_store_get ctx key version).2 ≡ refresh ctx)
unfolding pupa_store_get
get_context ctx key version = elim (Bool-cases (ltℤ (pos ctx.store_hdr.max_ver_num) version)) [
  | inl e ↦ inl (rw e refl)
  | inr e ↦ inr (rw e refl)
]

-- A lookup writes nothing.
pub get_mem :
    (ctx : Ctx) (key : Str) (version : ℤ) → (pupa_store_get ctx key version).2.mem ≡ ctx.mem
unfolding refresh
get_mem ctx key version = elim (get_context ctx key version) [
  | inl e ↦ ap (λ (c : Ctx). c.mem) e
  | inr e ↦ ap (λ (c : Ctx). c.mem) e
]

values_context : (ctx : Ctx) (key : Str) → (pupa_store_get_values ctx key).2 ≡ refresh ctx
unfolding pupa_store_get_values
values_context ctx key = refl

refreshed-Good : (ctx : Ctx) (d : Dict) → Good ctx d → Good (refresh ctx) d
unfolding refresh
refreshed-Good ctx d (s, rep) = (
  record { room = s.room; table = s.table },
  kept-Represents ctx (refresh ctx) d rep refl (λ i l. SameItem-refl _ _ _),
)

snapshot-Good : (ctx : Ctx) (d : Dict) → IsFresh ctx → Good ctx d → Good (make_snapshot ctx) d
unfolding make_snapshot
snapshot-Good ctx d fresh (s, rep) = (
  snap-IsStore ctx s fresh,
  kept-Represents ctx (make_snapshot ctx) d rep refl (same_items ctx s fresh),
)

some_second :
    {A : Type 0} (x y : Status) (a b : A) (o : Option (Status × A))
    → o ≡ some (x, a)
    → o ≡ some (y, b)
    → a ≡ b
some_second x y a b o p q = cc

-- The dictionary after a write.
abbrev after_set : Ctx → Dict → (key value : Str) → Dict
after_set ctx d key value =
    dict_set ctx.store_hdr.max_ver_num d (key_text key) (str_text (terminated value))

replaced-Good :
    (env : Env) (ctx ctx' : Ctx) (d : Dict) (key value : Str) (i : ℕ)
    → Good ctx d
    → IsKey key
    → IsFresh ctx
    → HasKey ctx key i
    → FitsValue ctx.store_hdr value
    → pupa_store_set env ctx key value ≡ some (sync_status env, ctx')
    → Good ctx' (after_set ctx d key value)
replaced-Good env ctx ctx' d key value i (s, rep) k fresh has fits e =
    let (c, a, f, e') = set_old_lem ctx s fresh key value k fits i has env in
    subst (λ x. Good x (after_set ctx d key value)) (some_second _ _ _ _ _ e' e)
      (a.store, replaced-Represents ctx c d rep s key value k i a has)

added-Good :
    (env : Env) (ctx ctx' : Ctx) (d : Dict) (key value : Str)
    → env.allocated ≡ true
    → Good ctx d
    → IsKey key
    → IsFresh ctx
    → LacksKey ctx key
    → Fits ctx.store_hdr key value
    → HasRoom ctx.store_hdr (ctx.store_hdr.item_section.used + 1)
    → pupa_store_set env ctx key value ≡ some (sync_status env, ctx')
    → Good ctx' (after_set ctx d key value)
added-Good env ctx ctx' d key value allocated (s, rep) k fresh lacks fits room e =
    let (c, r, a, sets) = set_new_lem ctx s fresh key value k fits room lacks env allocated in
    elim sets.outcome [
      | inl e' ↦
          subst (λ x. Good x (after_set ctx d key value)) (some_second _ _ _ _ _ e' e)
            (a.store, added-Represents ctx c d rep s key value k r a lacks)
      | inr (z, e') ↦ absurd (cc)
    ]

step-Good :
    (env : Env) (ctx ctx' : Ctx) (d d' : Dict)
    → env.allocated ≡ true
    → Step env ctx d ctx' d'
    → Good ctx d
    → Good ctx' d'
step-Good env ctx ctx' d d' a (looked_up key version e e') g = elim (get_context ctx key version) [
  | inl same ↦ rw (e', e, same) g
  | inr new ↦ rw (e', e, new) (refreshed-Good ctx d g)
]
step-Good env ctx ctx' d d' a (listed key e e') g =
    rw (e', e, values_context ctx key) (refreshed-Good ctx d g)
step-Good env ctx ctx' d d' a (replaced key value i k fresh has fits e e') g =
    rw e' (replaced-Good env ctx ctx' d key value i g k fresh has fits e)
step-Good env ctx ctx' d d' a (inserted key value k fresh lacks fits room e e') g =
    rw e' (added-Good env ctx ctx' d key value a g k fresh lacks fits room e)
step-Good env ctx ctx' d d' a (refused key value k fresh lacks full e e') g =
    rw (e', some_second _ _ _ _ _ e (set_full_lem ctx g.0 fresh key k lacks env value full))
      (snapshot-Good ctx d fresh g)
step-Good env ctx ctx' d d' a (deleted key i k fresh has last e e') g =
    let (c, e'', s, rep) = del-dict_del ctx g.0 fresh d g.1 key k env i has last in
    let same : c ≡ ctx' = cc in
    rw e' (subst (λ x. Good x (dict_del d (key_text key))) same (s, rep))
step-Good env ctx ctx' d d' a (not_deleted key k fresh lacks e e') g =
    let same : make_snapshot ctx ≡ ctx' = cc (del_missing ctx g.0 fresh key k env lacks) in
    rw e' (subst (λ x. Good x d) same (snapshot-Good ctx d fresh g))

reach-Good :
    (env : Env) (ctx : Ctx) (d : Dict)
    → env.allocated ≡ true
    → {ctx' : Ctx} {d' : Dict} → Reach env ctx d ctx' d'
    → Good ctx d
    → Good ctx' d'
reach-Good env ctx d a here g = g
reach-Good env ctx d a (next r s) g = step-Good env _ _ _ _ a s (reach-Good env ctx d a r g)

-- Let a store represent a dictionary, and let a client make any number of calls by these rules, with
-- malloc succeeding: lookups; `pupa_store_set` of a present key with a value that fits without a
-- compaction; `pupa_store_set` of a new key that fits with its value without a compaction, where both
-- item areas have room for one more item without reaching into each other or into the keys, and the
-- sort stays inside the array; `pupa_store_set` of a new key into a full section; and `pupa_store_del`
-- of the greatest key or of one that is not there; each set and del while `ctx->store_items` points
-- at the current area. Afterwards it is a store again, and `pupa_store_get` of any key for any version
-- from 1 on answers as the dictionary does to which the same calls have been made.
pub run_answers :
    (env : Env) (ctx ctx' : Ctx) (d d' : Dict)
    → env.allocated ≡ true
    → IsStore ctx
    → Represents ctx d
    → Reach env ctx d ctx' d'
    → (key : Str) → IsKey key
    → (v : ℕ) → 0 < v
    → IsStore ctx'
      × (answer ctx' (pupa_store_get ctx' key (pos v))
          ≡ dict_get ctx'.store_hdr.max_ver_num d' (key_text key) v)
run_answers env ctx ctx' d d' a s rep run key k v p =
    let (s', rep') = reach-Good env ctx d a run (s, rep) in
    (s', get-dict_get ctx' s' d' rep' key k v p)
