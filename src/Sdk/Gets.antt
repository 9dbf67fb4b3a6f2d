-- ===== src/Sdk/Gets.antt =====
-- What the bindings return for a key that is there.
use pupa.Common.{
  ℕ, suc, ◌+◌, ◌≡◌, ap, refl, [], ◌∷◌, some, arith, length, Bool-cases, inl, inr, ◌==◌,
}
use pupa.Common.Texts.{Text}
use pupa.Item.{View, key_offset}
use pupa.Context.{ok}
use pupa.Read.{refresh}
use pupa.Store.{IsStore}
use pupa.Store.Find.{IsKey}
use pupa.Store.Get.{HasKey, current}
use pupa.Api.{Pupa, pupa_get}
use pupa.Api.Calls.{get_next_key, looked_up}
use pupa.CommandLine.{c_str}
use pupa.CommandLine.Printed.{NoZero}
use pupa.Sdk.{strlen, c_arg, string_at, value_string}
use pupa.Sdk.Php.{pupa_get_function}
use pupa.Sdk

strlen_whole : (t : Text) → NoZero t → strlen t ≡ length t
strlen_whole [] z = refl
strlen_whole (x ∷ xs) z =
    let rest = strlen_whole xs (λ i l. z (suc i) (omega arith)) in
    elim (Bool-cases (x == 0)) [
      | inl e ↦ absurd (z 0 (omega arith) (ground arith))
      | inr e ↦ rw (e, rest) refl
    ]

-- The string of the key that the item behind item `i` has.
abbrev pub next_key : Pupa → ℕ → Text
next_key pupa i = string_at pupa (key_offset pupa.ctx.mem (current pupa.ctx (i + 1)))

module _ (pupa : Pupa) (s : IsStore pupa.ctx) (key : Text) (z : NoZero key) (k : IsKey (c_str key))
    (i : ℕ) (has : HasKey pupa.ctx (c_str key) i) where
  arg_whole : c_arg key ≡ c_str key
  arg_whole = ap (λ n. record (c_str key) { len = n }) (strlen_whole key z)

  next_string :
      (w : View)
      → w.offset ≡ key_offset pupa.ctx.mem (current pupa.ctx (i + 1))
      → value_string (looked_up pupa) (some w) ≡ next_key (looked_up pupa) i
  unfolding refresh
  next_string w e = ap (string_at pupa) e

  got_next :
      (w : View) × (pupa_get pupa (c_str key) ≡ (ok, some w, looked_up pupa))
      × (value_string (looked_up pupa) (some w) ≡ next_key (looked_up pupa) i)
  got_next = let (w, e, o, l) = get_next_key pupa s (c_str key) k i has in (w, e, next_string w o)

  -- In a store, for a key without a '\0' that is there, the Lua function returns as the value, the Java
  -- method returns and the PHP function returns the string that the next item record has as its key:
  -- all three call `pupa_get`, which asks for version 0.
  pub bindings_next_key :
      (Sdk.Lua.get pupa key ≡ (
        Sdk.Lua.returned (Sdk.Lua.string (next_key (looked_up pupa) i) ∷ Sdk.Lua.nil ∷ []),
        looked_up pupa,
      ))
      × (Sdk.Java.get pupa key ≡ (next_key (looked_up pupa) i, looked_up pupa))
      × (pupa_get_function pupa (some key)
          ≡ (Sdk.Php.string (next_key (looked_up pupa) i), looked_up pupa))
  unfolding Sdk.Lua.get Sdk.Java.get pupa_get_function
  bindings_next_key =
      let (w, e, n) = got_next in
      (rw (arg_whole, e, n) refl, rw (arg_whole, e, n) refl, rw (e, n) refl)
