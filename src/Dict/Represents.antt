-- ===== src/Dict/Represents.antt =====
-- When a store represents a dictionary, and that a lookup answers as the dictionary does.
use native.Mathlib.Decide.{ℕ_discrete, dec_lt}
use pupa.Common.{
  ℕ, zero, suc, ◌+◌, ◌-◌, ◌≤◌, ◌<◌, ◌≡◌, ◌∙◌, ◌⊎◌, ap, sym, inl, inr, refl, Option, some, none,
  List, [], ◌∷◌, arith, Ordering-cases, pos, ltb, Bool-cases, get_elem?, length,
}
use pupa.Item.{Str, View, val_cnt}
use pupa.Item.Order.{SameStr, item_key, order, order-eq, order_same}
use pupa.Context.{Status, Ctx, ok, not_found_value}
use pupa.Read.{pupa_store_get}
use pupa.Store.{IsStore, item_value}
use pupa.Store.Find.{IsKey, asked}
use pupa.Store.Get.{
  HasKey, LacksKey, current, text, get_exceeding, get_missing, get_no_version, get_present,
}
use pupa.Common.Texts.{Text}
use pupa.Dict.{Dict, str_text, dict_get, dict_version}
use pupa.Dict.Versions.{versions, SameStr-text, versions-get, versions-get_none, length-versions}

-- The texts of all versions of item `i`.
abbrev pub item_versions : Ctx → ℕ → List Text
item_versions ctx i =
    versions ctx.store_hdr ctx.mem (current ctx i) 1 (val_cnt ctx.mem (current ctx i))

-- Every key of the store has its versions in the dictionary, and every other key has none there.
pub record Represents (ctx : Ctx) (d : Dict) : Type 0 where
  pub present :
      (key : Str) (i : ℕ) → HasKey ctx key i → d (str_text (asked key)) ≡ item_versions ctx i
  pub missing : (key : Str) → LacksKey ctx key → d (str_text (asked key)) ≡ []

same_cases : (a b : Str) → SameStr a b ⊎ (¬ SameStr a b)
same_cases a b = elim (Ordering-cases (order a b)) [
  | inl e ↦ inr (λ s. absurd (ground (arith, e, order_same a b s)))
  | inr (inl e) ↦ inl (order-eq a b e)
  | inr (inr e) ↦ inr (λ s. absurd (ground (arith, e, order_same a b s)))
]

module _ (ctx : Ctx) (key : Str) where
  first_items :
      (n : ℕ)
      → n ≤ ctx.store_hdr.item_section.used
      → ((i : ℕ) × HasKey ctx key i)
        ⊎ ((i : ℕ) → i < n → ¬ SameStr (asked key) (item_key ctx.mem (current ctx i)))
  first_items zero l = inr (λ i p. absurd (omega arith))
  first_items (suc n) l = elim (first_items n (omega arith)) [
    | inl h ↦ inl h
    | inr none_yet ↦ elim (same_cases (asked key) (item_key ctx.mem (current ctx n))) [
      | inl same ↦ inl (n, record { inside = omega arith; same = same })
      | inr other ↦ inr (λ i p s. elim (ℕ_discrete i n) [
        | yes e ↦ other (rw e at s)
        | no ne ↦ none_yet i (omega arith) s
      ])
    ]
  ]

  -- A key is there or not.
  pub key_cases : ((i : ℕ) × HasKey ctx key i) ⊎ LacksKey ctx key
  key_cases = first_items ctx.store_hdr.item_section.used (omega arith)

version_there :
    (ts : List Text) (v : ℕ) (t : Text)
    → get_elem? ts (v - 1) ≡ some t
    → dict_version ts v ≡ (ok, some t)
unfolding dict_version
version_there [] v t e = absurd (cc)
version_there (x ∷ xs) v t e = rw (e, dict_version) refl

no_version :
    (ts : List Text) (v : ℕ)
    → 0 < length ts
    → get_elem? ts (v - 1) ≡ none
    → dict_version ts v ≡ (not_found_value, none)
unfolding dict_version
no_version [] v l e = absurd (omega arith)
no_version (x ∷ xs) v l e = rw (e, dict_version) refl

-- What a caller gets from a lookup, as a text.
abbrev pub answer : Ctx → Status × Option View × Ctx → Status × Option Text
answer ctx (status, none, ctx') = (status, none)
answer ctx (status, some w, ctx') = (status, some (str_text (text ctx.mem w)))

module _ (ctx : Ctx) (s : IsStore ctx) (key : Str) (k : IsKey key) (i : ℕ)
    (has : HasKey ctx key i) where
  -- A lookup of a key that is there, against the versions of its item.
  answer_present :
      (v : ℕ)
      → 0 < v
      → v ≤ ctx.store_hdr.max_ver_num
      → answer ctx (pupa_store_get ctx key (pos v)) ≡ dict_version (item_versions ctx i) v
  answer_present v p q =
      let a = current ctx i in
      let n = val_cnt ctx.mem a in
      let counted = length-versions ctx.store_hdr ctx.mem a 1 n in
      elim (dec_lt n v) [
        | yes above ↦ rw (get_no_version ctx s key k v i has q above) (
            sym (
              no_version (item_versions ctx i) v
                (omega (arith, counted, (s.table.items i has.inside).cnt_some))
                (versions-get_none ctx.store_hdr ctx.mem a 1 n (v - 1) (omega arith))))
        | no below ↦
            let (w, e, same, from, to) = get_present ctx s key k v i has p (omega arith) in
            let index : 1 + (v - 1) ≡ v = omega arith in
            rw e (
              sym (
                version_there (item_versions ctx i) v (str_text (text ctx.mem w)) (
                  versions-get ctx.store_hdr ctx.mem a 1 n (v - 1) (omega arith)
                  ∙ ap some (
                      ap (λ (x : ℕ). str_text (item_value ctx.store_hdr ctx.mem a x)) index
                      ∙ sym ((SameStr-text _ _).0 same)))))
      ]

module _ (ctx : Ctx) (s : IsStore ctx) (d : Dict) (r : Represents ctx d) (key : Str)
    (k : IsKey key) where
  -- On a store that represents a dictionary, `pupa_store_get` of any key for any version from 1 on
  -- answers, with its status and the text that it hands out, as the dictionary does.
  pub get-dict_get :
      (v : ℕ)
      → 0 < v
      → answer ctx (pupa_store_get ctx key (pos v))
        ≡ dict_get ctx.store_hdr.max_ver_num d (str_text (asked key)) v
  unfolding dict_get
  get-dict_get v p = elim (Bool-cases (ltb ctx.store_hdr.max_ver_num v)) [
    | inl above ↦ rw (above, get_exceeding ctx s key k v (ground arith)) refl
    | inr below ↦ elim (key_cases ctx key) [
      | inr lacks ↦
          rw (below, r.missing key lacks, get_missing ctx s key k v (ground arith) lacks) refl
      | inl (i, has) ↦
          rw (below, r.present key i has) (answer_present ctx s key k i has v p (ground arith))
    ]
  ]
