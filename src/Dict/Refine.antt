-- ===== src/Dict/Refine.antt =====
-- The operations of the store refine those of the dictionary.
use native.Mathlib.Decide.{ℕ_discrete}
use pupa.Common.{ℕ, ◌+◌, ◌<◌, ◌≡◌, ◌∙◌, inl, inr, refl, true, false, some, [], arith, Ordering}
use pupa.Item.{Str}
use pupa.Item.Order.{SameStr, SameStr-sym, SameStr-trans, item_key, order}
use pupa.Context.{Ctx, Env}
use pupa.Write.{pupa_store_set, pupa_store_del, sync_status}
use pupa.Write.Strings.{terminated}
use pupa.Store.{IsStore, IsFresh, HasRoom}
use pupa.Store.Find.{IsKey, asked}
use pupa.Store.Get.{HasKey, LacksKey, current}
use pupa.Store.Keep.{SameItem}
use pupa.Store.Added.{Fits}
use pupa.Store.Replaced.{FitsValue}
use pupa.Store.SetOld.{set_old_lem}
use pupa.Store.SetGet.{set_new_greater}
use pupa.Store.Del.{IsTruncated, del_far}
use pupa.Store.DelGet.{reaches}
use pupa.Common.Texts.{same_text}
use pupa.Dict.{Dict, str_text, dict_set, dict_del}
use pupa.Dict.Versions.{SameStr-text}
use pupa.Dict.Represents.{Represents, item_versions}
use pupa.Dict.Keys.{key_text, text_cases, same_HasKey, kept-versions, unique}
use pupa.Dict.Writes.{added-Represents, replaced-Represents}

-- A context with the same items represents the same dictionary.
pub kept-Represents :
    (ctx ctx' : Ctx) (d : Dict)
    → Represents ctx d
    → ctx'.store_hdr.item_section.used ≡ ctx.store_hdr.item_section.used
    → ((i : ℕ)
        → i < ctx.store_hdr.item_section.used
        → SameItem ctx.store_hdr ctx.mem (current ctx i) ctx'.store_hdr ctx'.mem (current ctx' i))
    → Represents ctx' d
kept-Represents ctx ctx' d rep used same = record {
  present = λ key i h.
      let inside : i < ctx.store_hdr.item_section.used = omega (arith, h.inside) in
      let old : HasKey ctx key i = record {
        inside = inside;
        same = SameStr-trans _ _ _ h.same (SameStr-sym _ _ (same i inside).same_key);
      } in
      rep.present key i old ∙ kept-versions ctx ctx' i i (same i inside);
  missing = λ key lacks.
      rep.missing key (λ i l s. lacks i (omega arith) (SameStr-trans _ _ _ s (same i l).same_key));
}

module _ (ctx ctx' : Ctx) (d : Dict) (rep : Represents ctx d) (s : IsStore ctx) (key : Str) (i : ℕ)
    (has : HasKey ctx key i) (last : i + 1 ≡ ctx.store_hdr.item_section.used)
    (t : IsTruncated ctx ctx') where
  abbrev rest : Dict
  rest = dict_del d (key_text key)

  rest_same :
      (other : Str) → same_text (key_text other) (key_text key) ≡ true → rest (key_text other) ≡ []
  unfolding dict_del
  rest_same other e = rw e refl

  rest_other :
      (other : Str)
      → same_text (key_text other) (key_text key) ≡ false
      → rest (key_text other) ≡ d (key_text other)
  unfolding dict_del
  rest_other other e = rw e refl

  truncated_present :
      (other : Str) (j : ℕ) → HasKey ctx' other j → rest (key_text other) ≡ item_versions ctx' j
  truncated_present other j h =
      let inside : j < ctx.store_hdr.item_section.used = omega (arith, h.inside, t.used) in
      let kept = t.kept j h.inside in
      let old : HasKey ctx other j = record {
        inside = inside;
        same = SameStr-trans _ _ _ h.same (SameStr-sym _ _ kept.same_key);
      } in
      elim (text_cases (key_text other) (key_text key)) [
        | inl (e, same) ↦
            let here =
              same_HasKey ctx other key i ((SameStr-text (asked other) (asked key)).1 same) has in
            let equal = unique ctx s other i j here old in absurd (omega (arith, h.inside, t.used))
        | inr (f, ne) ↦
            rest_other other f ∙ rep.present other j old ∙ kept-versions ctx ctx' j j kept
      ]

  truncated_missing : (other : Str) → LacksKey ctx' other → rest (key_text other) ≡ []
  truncated_missing other lacks = elim (text_cases (key_text other) (key_text key)) [
    | inl (e, same) ↦ rest_same other e
    | inr (f, ne) ↦
        rest_other other f
        ∙ rep.missing other (λ j l same. elim (ℕ_discrete j i) [
          | yes e ↦
              let here : SameStr (asked other) (item_key ctx.mem (current ctx i)) = rw e at same in
              ne (
                (SameStr-text (asked other) (asked key)).0
                  (SameStr-trans _ _ _ here (SameStr-sym _ _ has.same)))
          | no apart ↦
              let inside : j < ctx'.store_hdr.item_section.used = omega (arith, t.used) in
              lacks j inside (SameStr-trans _ _ _ same (t.kept j inside).same_key)
        ])
  ]

  -- Without its last item a store represents the dictionary without the greatest key.
  pub truncated-Represents : Represents ctx' rest
  truncated-Represents = record { present = truncated_present; missing = truncated_missing }

module _ (ctx : Ctx) (s : IsStore ctx) (fresh : IsFresh ctx) (d : Dict) (rep : Represents ctx d)
    (key : Str) (k : IsKey key) (env : Env) where
  -- In a fresh store with room for one more item that represents a dictionary, and with malloc
  -- succeeding, let a key be new, fit with its value without a compaction, and be greater than the key
  -- of some item. `pupa_store_set` returns what the sync reports, and the new store represents the
  -- dictionary in which the value is the one version of the key.
  pub set_new-dict_set :
      (value : Str)
      → Fits ctx.store_hdr key value
      → HasRoom ctx.store_hdr (ctx.store_hdr.item_section.used + 1)
      → LacksKey ctx key
      → env.allocated ≡ true
      → (i : ℕ) → i < ctx.store_hdr.item_section.used
      → order (terminated key) (item_key ctx.mem (current ctx i)) ≡ Ordering.gt
      → (ctx' : Ctx) × (pupa_store_set env ctx key value ≡ some (sync_status env, ctx'))
        × IsStore ctx'
        × Represents ctx'
            (dict_set ctx.store_hdr.max_ver_num d (key_text key) (str_text (terminated value)))
  set_new-dict_set value fits room absent allocated i l greater =
      let (ctx', r, a, e) =
        set_new_greater ctx s fresh key value k fits room absent env allocated i l greater in
      (ctx', e, a.store, added-Represents ctx ctx' d rep s key value k r a absent)

  -- In a fresh store that represents a dictionary, `pupa_store_set` of a key that is there, with a
  -- value that fits without a compaction, returns what the sync reports, and the new store represents
  -- the dictionary with the value in front of the versions of the key, no more than the maximum kept.
  pub set_old-dict_set :
      (value : Str)
      → FitsValue ctx.store_hdr value
      → (i : ℕ) → HasKey ctx key i
      → (ctx' : Ctx) × (pupa_store_set env ctx key value ≡ some (sync_status env, ctx'))
        × IsStore ctx'
        × Represents ctx'
            (dict_set ctx.store_hdr.max_ver_num d (key_text key) (str_text (terminated value)))
  set_old-dict_set value fits i has =
      let (ctx', a, f, e) = set_old_lem ctx s fresh key value k fits i has env in
      (ctx', e, a.store, replaced-Represents ctx ctx' d rep s key value k i a has)

  -- In a fresh store that represents a dictionary, `pupa_store_del` of the greatest key returns what
  -- the sync reports, and the new store represents the dictionary without the key.
  pub del-dict_del :
      (i : ℕ)
      → HasKey ctx key i
      → i + 1 ≡ ctx.store_hdr.item_section.used
      → (ctx' : Ctx) × (pupa_store_del env ctx key ≡ (sync_status env, ctx'))
        × IsStore ctx'
        × Represents ctx' (dict_del d (key_text key))
  del-dict_del i has last =
      let (ctx', t, e) = del_far ctx s fresh key k i has env (reaches i _ _ last) in
      (ctx', e, t.store, truncated-Represents ctx ctx' d rep s key i has last t)
