-- ===== src/Dict/Contents.antt =====
-- The dictionary of a store, item by item.
use native.Mathlib.Decide.{ℕ_discrete}
use pupa.Common.{ℕ, zero, suc, ◌≤◌, ◌<◌, ◌≡◌, ap, inl, inr, refl, [], arith, if◌then◌else◌}
use pupa.Item.{Str}
use pupa.Item.Order.{item_key}
use pupa.Context.{Ctx}
use pupa.Store.{IsStore}
use pupa.Store.Get.{HasKey, LacksKey, current}
use pupa.Common.Texts.{Text, same_text}
use pupa.Dict.{Dict, str_text}
use pupa.Dict.Versions.{SameStr-text}
use pupa.Dict.Represents.{Represents, item_versions}
use pupa.Dict.Keys.{key_text, text_cases, unique}

abbrev item_text : Ctx → ℕ → Text
item_text ctx i = str_text (item_key ctx.mem (current ctx i))

-- The versions of the key `t` among the first `n` items.
unfoldable pub contents_of : Ctx → ℕ → Dict
contents_of ctx zero t = []
contents_of ctx (suc n) t =
    if same_text t (item_text ctx n) then item_versions ctx n else contents_of ctx n t

unfoldable pub contents : Ctx → Dict
unfolding contents_of
contents ctx = contents_of ctx ctx.store_hdr.item_section.used

module _ (ctx : Ctx) (s : IsStore ctx) (key : Str) where
  contents_present :
      (n i : ℕ)
      → n ≤ ctx.store_hdr.item_section.used
      → i < n
      → HasKey ctx key i
      → contents_of ctx n (key_text key) ≡ item_versions ctx i
  unfolding contents_of
  contents_present zero i l p h = absurd (omega arith)
  contents_present (suc n) i l p h =
      let rest = contents_present n i (omega arith) in
      elim (text_cases (key_text key) (item_text ctx n)) [
        | inl (e, same) ↦
            let here : HasKey ctx key n = record {
              inside = omega arith;
              same = (SameStr-text _ _).1 same;
            } in
            rw e (ap (item_versions ctx) (unique ctx s key n i here h))
        | inr (e, ne) ↦ elim (ℕ_discrete i n) [
          | yes at ↦ absurd (ne ((SameStr-text _ _).0 (rw at at h.same)))
          | no apart ↦ rw e (rest (omega arith) h)
        ]
      ]

  contents_missing :
      (n : ℕ)
      → n ≤ ctx.store_hdr.item_section.used
      → LacksKey ctx key
      → contents_of ctx n (key_text key) ≡ []
  unfolding contents_of
  contents_missing zero l lacks = refl
  contents_missing (suc n) l lacks = elim (text_cases (key_text key) (item_text ctx n)) [
    | inl (e, same) ↦ absurd (lacks n (omega arith) ((SameStr-text _ _).1 same))
    | inr (e, ne) ↦ rw e (contents_missing n (omega arith) lacks)
  ]

-- Every store represents its contents: each key has the versions of its item there, the newest first,
-- and a key that no item has has none.
pub contents-Represents : (ctx : Ctx) → IsStore ctx → Represents ctx (contents ctx)
unfolding contents
contents-Represents ctx s = record {
  present = λ key i h. contents_present ctx s key _ i (omega arith) h.inside h;
  missing = λ key lacks. contents_missing ctx s key _ (omega arith) lacks;
}
