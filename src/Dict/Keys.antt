-- ===== src/Dict/Keys.antt =====
-- Keys by their texts, and the item of a key.
use native.Mathlib.Decide.{ℕ_discrete, dec_lt}
use pupa.Common.{
  ℕ, zero, suc, ◌+◌, ◌-◌, ◌≤◌, ◌<◌, ◌≡◌, ◌≢◌, ◌∙◌, ◌⊎◌, ap, inl, inr, refl, true, false, List, ◌∷◌,
  arith, Bool-cases, take,
}
use pupa.Item.{Str, val_cnt}
use pupa.Item.Order.{SameStr, SameStr-sym, SameStr-trans, item_key, order_same}
use pupa.Context.{Ctx}
use pupa.Store.{IsStore}
use pupa.Store.Find.{asked}
use pupa.Store.Get.{HasKey, current}
use pupa.Store.Keep.{SameItem}
use pupa.Store.Insert.{shifted}
use pupa.Common.Texts.{Text, same_text}
use pupa.Dict.{str_text}
use pupa.Dict.Versions.{versions, versions-ext, same_text_iff}
use pupa.Dict.Represents.{item_versions}

abbrev pub key_text : Str → Text
key_text key = str_text (asked key)

pub take-cons :
    {A : Type 0} (n : ℕ) (x : A) (xs : List A) → 0 < n → take n (x ∷ xs) ≡ x ∷ take (n - 1) xs
take-cons zero x xs l = absurd (omega arith)
take-cons (suc n) x xs l = let e : suc n - 1 ≡ n = omega arith in rw e refl

-- Whether two keys are the same, by their texts.
pub text_cases :
    (a b : Text) → ((same_text a b ≡ true) × (a ≡ b)) ⊎ ((same_text a b ≡ false) × (a ≢ b))
text_cases a b = elim (Bool-cases (same_text a b)) [
  | inl e ↦ inl (e, (same_text_iff a b).0 e)
  | inr e ↦ inr (e, λ same. absurd (ground (arith, e, (same_text_iff a b).1 same)))
]

pub same_HasKey :
    (ctx : Ctx) (a b : Str) (i : ℕ) → SameStr (asked a) (asked b) → HasKey ctx b i → HasKey ctx a i
same_HasKey ctx a b i same h = record { inside = h.inside; same = SameStr-trans _ _ _ same h.same }

-- An item that keeps its versions.
pub kept-versions :
    (ctx ctx' : Ctx) (i j : ℕ)
    → SameItem ctx.store_hdr ctx.mem (current ctx i) ctx'.store_hdr ctx'.mem (current ctx' j)
    → item_versions ctx i ≡ item_versions ctx' j
kept-versions ctx ctx' i j same =
    versions-ext ctx.store_hdr ctx'.store_hdr ctx.mem ctx'.mem (current ctx i) (current ctx' j) 1 1
      (val_cnt ctx.mem (current ctx i)) (λ v l. same.same_value (1 + v) (omega arith) (omega arith))
    ∙ ap (versions ctx'.store_hdr ctx'.mem (current ctx' j) 1) same.same_cnt

-- The item that has a key is the only one.
not_before :
    (ctx : Ctx) (s : IsStore ctx) (key : Str) (i j : ℕ)
    → HasKey ctx key i
    → HasKey ctx key j
    → ¬ (i < j)
not_before ctx s key i j h h' l =
    let equal =
      order_same (item_key ctx.mem (current ctx i)) (item_key ctx.mem (current ctx j))
        (SameStr-trans _ _ _ (SameStr-sym _ _ h.same) h'.same) in
    absurd (ground (arith, equal, s.table.ordered i j l h'.inside))

pub unique :
    (ctx : Ctx) (s : IsStore ctx) (key : Str) (i j : ℕ)
    → HasKey ctx key i
    → HasKey ctx key j
    → i ≡ j
unique ctx s key i j h h' = elim (dec_lt i j) [
  | yes l ↦ absurd (not_before ctx s key i j h h' l)
  | no l ↦ elim (dec_lt j i) [
    | yes l' ↦ absurd (not_before ctx s key j i h' h l')
    | no l' ↦ omega arith
  ]
]

-- Where the items of the new store come from.
pub unshift : (r n j : ℕ) → j < n + 1 → r ≤ n → (j ≡ r) ⊎ ((i : ℕ) × (i < n) × (shifted r i ≡ j))
unshift r n j l le = elim (ℕ_discrete j r) [
  | yes e ↦ inl e
  | no ne ↦ elim (dec_lt j r) [
    | yes p ↦ inr (j, omega arith, ground arith)
    | no p ↦ inr (j - 1, omega arith, ground arith)
  ]
]
