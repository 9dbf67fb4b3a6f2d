-- ===== src/Tool/Sessions.antt =====
-- Two runs of `pupa_tool`, one after the other, on the default file.
use pupa.Common.{◌+◌, ◌^◌, ◌<◌, ◌≤◌, ◌≡◌, refl, some, [], ◌∷◌, arith, true, false, length}
use pupa.Common.Texts.{Text, codes}
use pupa.Layout.Bounds.{file_size}
use pupa.Context.{ok, Ctx, Env}
use pupa.Shm.{Os, op_type_rw}
use pupa.Api.{Pupa, Start}
use pupa.Api.Session.{
  IsNew, opened, opened-IsStore, opened-IsFresh, init_result, none_used, room_one, fits,
}
use pupa.Api.Reopen.{Holds, IsOld, reopened, left, left-Holds, file_ctx, init_old_file}
use pupa.Write.Strings.{terminated}
use pupa.Dict.{Dict, str_text, dict_set}
use pupa.Dict.Keys.{key_text}
use pupa.Dict.Represents.{Represents}
use pupa.Dict.Settable.{Settable, least}
use pupa.CommandLine.{c_str}
use pupa.Tool.{main}
use pupa.Tool.Get.{IsWord, Ends}
use pupa.Tool.Set.{main_set, next_get, got_output}

-- Let "./pupa.store" hold a store, and let the store take the key and the value, which are C strings
-- that do not start with '-', with malloc and the system calls succeeding. `pupa_tool set KEY VALUE`
-- exits with PUPA_OK and prints that it was successful, the file then holds the dictionary with the
-- value as the newest version of the key, and `pupa_tool get KEY` in a later process exits with
-- PUPA_OK and prints the value.
pub tool_set_get :
    (files : Text → Start) (env : Env) (pupa : Pupa) (prog key value : Text) (d : Dict)
    → IsWord key
    → IsWord value
    → env.allocated ≡ true
    → env.synced ≡ true
    → pupa.init ≡ false
    → IsOld (files (codes "./pupa.store")).os
    → Holds (files (codes "./pupa.store")) d
    → Settable (file_ctx (files (codes "./pupa.store"))) (c_str key) (c_str value)
    → (os : Os) → IsOld os
    → (later : Pupa) → later.init ≡ false
    → (p : Pupa) × (main files env pupa (prog ∷ codes "set" ∷ key ∷ value ∷ [])
        ≡ some (record { code = ok; out = codes "set successfully.\n"; err = []; pupa = p }))
      × Holds (left os p) (
          dict_set
            (files (codes "./pupa.store")).file_hdr.max_ver_num
            d
            (key_text (c_str key))
            (str_text (terminated (c_str value))))
      × Ends
          (main (λ _. left os p) env later (prog ∷ codes "get" ∷ key ∷ []))
          (ok, got_output key value)
tool_set_get files env pupa prog key value d w w' allocated synced idle old holds settable os old'
      later idle' =
    let file = files (codes "./pupa.store") in
    let init = init_old_file file 1000 op_type_rw pupa idle old in
    let s = holds.store in
    let rep = holds.represents in
    let (p, e, s', rep') =
      main_set files env pupa (reopened file) prog key value d w w' allocated synced init s refl rep
        settable in
    (
      p,
      e,
      left-Holds os p _ s' rep',
      next_get files env pupa (reopened file) prog key value d w w' allocated synced init s refl rep
          settable p s' rep' os old' later idle',
    )

-- An empty store represents the dictionary without a key.
empty-Represents : (ctx : Ctx) → ctx.store_hdr.item_section.used ≡ 0 → Represents ctx (λ _. [])
empty-Represents ctx e = record {
  present = λ key i h. absurd (omega (arith, e, h.inside));
  missing = λ key lacks. refl;
}

-- Let "./pupa.store" be a new file, the key a C string of less than 64000 bytes and the value one of
-- less than 256000, both not starting with '-', with malloc and the system calls succeeding.
-- `pupa_tool set KEY VALUE` creates the store, exits with PUPA_OK and prints that it was successful,
-- and `pupa_tool get KEY` in a later process exits with PUPA_OK and prints the value.
pub tool_first_set :
    (files : Text → Start) (env : Env) (pupa : Pupa) (prog key value : Text)
    → IsWord key
    → IsWord value
    → length key + 1 ≤ 64000
    → length value + 1 ≤ 256000
    → env.allocated ≡ true
    → env.synced ≡ true
    → pupa.init ≡ false
    → IsNew (files (codes "./pupa.store")).os
    → (os : Os) → IsOld os
    → (later : Pupa) → later.init ≡ false
    → (p : Pupa) × (main files env pupa (prog ∷ codes "set" ∷ key ∷ value ∷ [])
        ≡ some (record { code = ok; out = codes "set successfully.\n"; err = []; pupa = p }))
      × Ends
          (main (λ _. left os p) env later (prog ∷ codes "get" ∷ key ∷ []))
          (ok, got_output key value)
tool_first_set files env pupa prog key value w w' key_fits value_fits allocated synced idle new os
      old' later idle' =
    let file = files (codes "./pupa.store") in
    let small : file_size 1000 3 < 2 ^ 31 = omega arith in
    let start = opened 1000 small file pupa idle new in
    let init = init_result 1000 small file pupa idle new in
    let s = opened-IsStore 1000 small file pupa idle new in
    let fresh = opened-IsFresh 1000 small file pupa idle new in
    let none = none_used 1000 small file pupa idle new in
    let rep = empty-Represents start.ctx none in
    let settable =
      least
        (fits 1000 small file pupa idle new (c_str key) (c_str value) (omega arith) key_fits
          value_fits)
        (room_one 1000 small file pupa idle new (omega arith)) (λ i l. absurd (omega (arith, none)))
        0 (omega (arith, none)) (omega (arith, none)) (λ i l. absurd (omega (arith, none))) in
    let (p, e, s', rep') =
      main_set files env pupa start prog key value (λ _. []) w w' allocated synced init s fresh rep
        settable in
    (
      p,
      e,
      next_get files env pupa start prog key value (λ _. []) w w' allocated synced init s fresh rep
          settable p s' rep' os old' later idle',
    )
