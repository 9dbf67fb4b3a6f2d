-- ===== src/Dict/Writes.antt =====
-- The writes change a store as they change the dictionary that it represents.
use native.Mathlib.Decide.{ℕ_discrete, dec_lt}
use pupa.Common.{
  ℕ, suc, ◌+◌, ◌-◌, ◌≤◌, ◌<◌, ◌≡◌, ◌∙◌, ap, sym, inl, inr, refl, true, false, [], ◌∷◌, arith, take,
}
use pupa.Item.{Str, val_cnt}
use pupa.Item.Order.{SameStr, SameStr-sym, SameStr-trans, item_key}
use pupa.Context.{Ctx}
use pupa.Write.Strings.{terminated}
use pupa.Store.{IsStore}
use pupa.Store.Find.{IsKey, asked}
use pupa.Store.Get.{HasKey, LacksKey, current}
use pupa.Store.Insert.{shifted}
use pupa.Store.SetNew.{IsAdded}
use pupa.Store.SetOld.{IsReplaced}
use pupa.Store.Reading.{new_HasKey, other_HasKey, replaced_HasKey}
use pupa.Common.Texts.{same_text}
use pupa.Dict.{Dict, str_text, dict_set}
use pupa.Dict.Versions.{
  versions, versions-ext, versions-take, take_all, length-versions, SameStr-text,
}
use pupa.Dict.Represents.{Represents, item_versions}
use pupa.Dict.Keys.{key_text, take-cons, text_cases, same_HasKey, kept-versions, unique, unshift}

module _ (ctx ctx' : Ctx) (d : Dict) (rep : Represents ctx d) (s : IsStore ctx) (key value : Str)
    (k : IsKey key) where
  abbrev next : Dict
  next = dict_set ctx.store_hdr.max_ver_num d (key_text key) (str_text (terminated value))

  next_same :
      (other : Str)
      → same_text (key_text other) (key_text key) ≡ true
      → next (key_text other)
        ≡ take ctx.store_hdr.max_ver_num (str_text (terminated value) ∷ d (key_text key))
  unfolding dict_set
  next_same other e = rw e refl

  next_other :
      (other : Str)
      → same_text (key_text other) (key_text key) ≡ false
      → next (key_text other) ≡ d (key_text other)
  unfolding dict_set
  next_other other e = rw e refl

  module _ (r : ℕ) (a : IsAdded ctx ctx' key value r) (absent : LacksKey ctx key) where
    new_versions : item_versions ctx' r ≡ str_text (terminated value) ∷ []
    new_versions =
        ap (versions ctx'.store_hdr ctx'.mem (current ctx' r) 1) a.new_cnt
        ∙ ap (λ t. t ∷ []) ((SameStr-text _ _).0 a.new_value)

    shifted_key :
        (other : Str) (i : ℕ)
        → i < ctx.store_hdr.item_section.used
        → HasKey ctx' other (shifted r i)
        → HasKey ctx other i
    shifted_key other i l h = record {
      inside = l;
      same = SameStr-trans _ _ _ h.same (SameStr-sym _ _ (a.others i l).same_key);
    }

    added_present :
        (other : Str) (j : ℕ) → HasKey ctx' other j → next (key_text other) ≡ item_versions ctx' j
    added_present other j h = elim (text_cases (key_text other) (key_text key)) [
      | inl (t, e) ↦
          let same = (SameStr-text (asked other) (asked key)).1 e in
          let here = same_HasKey ctx' other key r same (new_HasKey ctx ctx' key value r a k) in
          next_same other t
          ∙ ap (λ l. take ctx.store_hdr.max_ver_num (str_text (terminated value) ∷ l))
              (rep.missing key absent)
          ∙ take_all ctx.store_hdr.max_ver_num (str_text (terminated value) ∷ [])
              (omega (arith, s.room.versions))
          ∙ sym new_versions
          ∙ ap (item_versions ctx') (unique ctx' a.store other r j here h)
      | inr (f, ne) ↦
          elim (unshift r ctx.store_hdr.item_section.used j (omega (arith, h.inside, a.used))
            a.within) [
              | inl e ↦
                  let here : HasKey ctx' other r = rw e at h in
                  absurd (
                    ne (
                      (SameStr-text (asked other) (asked key)).0 (
                        SameStr-trans _ _ _ here.same
                          (SameStr-sym _ _ (new_HasKey ctx ctx' key value r a k).same))))
              | inr (i, l, e) ↦
                  next_other other f
                  ∙ rep.present other i (shifted_key other i l (rw e h))
                  ∙ kept-versions ctx ctx' i (shifted r i) (a.others i l)
                  ∙ ap (item_versions ctx') e
            ]
    ]

    added_missing : (other : Str) → LacksKey ctx' other → next (key_text other) ≡ []
    added_missing other lacks = elim (text_cases (key_text other) (key_text key)) [
      | inl (t, e) ↦
          let same = (SameStr-text (asked other) (asked key)).1 e in
          let here = same_HasKey ctx' other key r same (new_HasKey ctx ctx' key value r a k) in
          absurd (lacks r here.inside here.same)
      | inr (f, ne) ↦
          next_other other f
          ∙ rep.missing other (λ i l same.
            let there =
              other_HasKey ctx ctx' key value r a k other i (record { inside = l; same = same }) in
            lacks (shifted r i) there.inside there.same)
    ]

    -- A new key is a new key of the dictionary.
    pub added-Represents : Represents ctx' next
    added-Represents = record { present = added_present; missing = added_missing }

  module _ (i : ℕ) (a : IsReplaced ctx ctx' value i) (has : HasKey ctx key i) where
    abbrev max : ℕ
    max = ctx.store_hdr.max_ver_num

    abbrev cnt : ℕ
    cnt = val_cnt ctx.mem (current ctx i)

    cnt_bounds : (0 < cnt) × (cnt ≤ max) × (0 < max)
    cnt_bounds =
        let item = s.table.items i has.inside in (item.cnt_some, item.cnt_max, s.room.versions)

    -- The new version, and the older ones behind it.
    new_first :
        (n : ℕ)
        → val_cnt ctx'.mem (current ctx' i) ≡ suc n
        → n ≤ cnt
        → item_versions ctx' i ≡ str_text (terminated value) ∷ take n (item_versions ctx i)
    new_first n e l =
        ap (versions ctx'.store_hdr ctx'.mem (current ctx' i) 1) e
        ∙ ap (λ t. t ∷ versions ctx'.store_hdr ctx'.mem (current ctx' i) 2 n)
            ((SameStr-text _ _).0 a.newest)
        ∙ ap (λ l. str_text (terminated value) ∷ l)
            (sym (moved n e) ∙ sym (versions-take ctx.store_hdr ctx.mem (current ctx i) 1 cnt n l))
      where
        moved :
            (n : ℕ)
            → val_cnt ctx'.mem (current ctx' i) ≡ suc n
            → versions ctx.store_hdr ctx.mem (current ctx i) 1 n
              ≡ versions ctx'.store_hdr ctx'.mem (current ctx' i) 2 n
        moved n e =
            versions-ext ctx.store_hdr ctx'.store_hdr ctx.mem ctx'.mem (current ctx i)
              (current ctx' i) 1 2 n
              (λ j l.
                let index : 1 + j + 1 ≡ 2 + j = omega arith in
                rw index at (a.older (1 + j) (omega arith) (omega arith)))

    replaced_versions :
        item_versions ctx' i ≡ take max (str_text (terminated value) ∷ item_versions ctx i)
    replaced_versions =
        let (some_version, most, kept) = cnt_bounds in
        let counted = length-versions ctx.store_hdr ctx.mem (current ctx i) 1 cnt in
        let all = item_versions ctx i in
        elim (dec_lt cnt max) [
          | yes l ↦
              new_first cnt (ground (arith, a.counted)) (omega arith)
              ∙ ap (λ x. str_text (terminated value) ∷ x)
                  (take_all cnt all (omega arith) ∙ sym (take_all (max - 1) all (omega arith)))
              ∙ sym (take-cons max (str_text (terminated value)) all kept)
          | no nl ↦
              new_first (max - 1) (ground (arith, a.counted)) (omega arith)
              ∙ sym (take-cons max (str_text (terminated value)) all kept)
        ]

    replaced_present :
        (other : Str) (j : ℕ) → HasKey ctx' other j → next (key_text other) ≡ item_versions ctx' j
    replaced_present other j h = elim (text_cases (key_text other) (key_text key)) [
      | inl (t, e) ↦
          let same = (SameStr-text (asked other) (asked key)).1 e in
          let here =
            same_HasKey ctx' other key i same (replaced_HasKey ctx ctx' s value i a key has) in
          next_same other t
          ∙ ap (λ l. take max (str_text (terminated value) ∷ l)) (rep.present key i has)
          ∙ sym replaced_versions
          ∙ ap (item_versions ctx') (unique ctx' a.store other i j here h)
      | inr (f, ne) ↦
          let there = replaced_HasKey ctx ctx' s value i a key has in
          elim (ℕ_discrete j i) [
            | yes e ↦
                let here : HasKey ctx' other i = rw e at h in
                absurd (
                  ne (
                    (SameStr-text (asked other) (asked key)).0
                      (SameStr-trans _ _ _ here.same (SameStr-sym _ _ there.same))))
            | no apart ↦
                let inside : j < ctx.store_hdr.item_section.used =
                  omega (arith, h.inside, a.used) in
                let kept = a.others j inside apart in
                let old : HasKey ctx other j = record {
                  inside = inside;
                  same = SameStr-trans _ _ _ h.same (SameStr-sym _ _ kept.same_key);
                } in
                next_other other f ∙ rep.present other j old ∙ kept-versions ctx ctx' j j kept
          ]
    ]

    replaced_missing : (other : Str) → LacksKey ctx' other → next (key_text other) ≡ []
    replaced_missing other lacks = elim (text_cases (key_text other) (key_text key)) [
      | inl (t, e) ↦
          let same = (SameStr-text (asked other) (asked key)).1 e in
          let here =
            same_HasKey ctx' other key i same (replaced_HasKey ctx ctx' s value i a key has) in
          absurd (lacks i here.inside here.same)
      | inr (f, ne) ↦
          next_other other f
          ∙ rep.missing other (λ j l same.
            let new = a.used in lacks j (omega arith) (SameStr-trans _ _ _ same (key_stays j l)))
    ]
      where
        key_stays :
            (j : ℕ)
            → j < ctx.store_hdr.item_section.used
            → SameStr (item_key ctx.mem (current ctx j)) (item_key ctx'.mem (current ctx' j))
        key_stays j l = elim (ℕ_discrete j i) [
          | yes e ↦ rw e a.same_key
          | no ne ↦ (a.others j l ne).same_key
        ]

    -- A new version of a key is one of the dictionary.
    pub replaced-Represents : Represents ctx' next
    replaced-Represents = record { present = replaced_present; missing = replaced_missing }
