-- ===== src/Tool/Set.antt =====
-- `pupa_tool set`, and `pupa_tool get` in a later process.
use pupa.Common.{
  ℕ, zero, suc, ◌+◌, ◌≤◌, ◌≡◌, ◌∙◌, ap, sym, refl, some, [], ◌∷◌, ◌++◌, arith, true, false, inl,
  inr, length, ltb,
}
use pupa.Common.Texts.{Text, codes}
use pupa.Context.{ok, Ctx, Env}
use pupa.Write.{pupa_store_set, sync_status}
use pupa.Write.Strings.{terminated}
use pupa.Shm.{Os, op_type_rw}
use pupa.Store.{IsStore, IsFresh}
use pupa.Store.Find.{asked-terminated}
use pupa.Api.{Pupa, Start, pupa_init, pupa_set, set_done, pupa_fini}
use pupa.Api.Reopen.{IsOld, left, left-Holds}
use pupa.Dict.{Dict, str_text, dict_set, dict_get}
use pupa.Dict.Versions.{SameStr-text}
use pupa.Dict.Represents.{Represents}
use pupa.Dict.Keys.{key_text, text_cases}
use pupa.Dict.Settable.{Settable, Settable-set}
use pupa.CommandLine.{byte_at, c_str, printed}
use pupa.CommandLine.Printed.{until_zero, printed-until_zero, printed_ended}
use pupa.Tool.{Exit, main, pt_set, set_printed, run_cmd, exit_of}
use pupa.Tool.Arguments.{default_args, parse_cmd}
use pupa.Tool.Get.{Ends, IsWord, word-IsKey, default_get}

-- A value that has just been set is version 1.
newest :
    (max : ℕ) (d : Dict) (key value : Text)
    → 1 ≤ max
    → (n : ℕ) → 1 ≤ n
    → dict_get n (dict_set max d key value) key 1 ≡ (ok, some value)
unfolding dict_get dict_set
newest zero d key value p n q = absurd (omega arith)
newest (suc max) d key value p n q = elim (text_cases key key) [
  | inl (e, same) ↦ let below : ltb n 1 ≡ false = ground arith in rw (below, e) refl
  | inr (e, other) ↦ absurd (other refl)
]

-- What is printed of a value that the store keeps with a '\0'.
value_printed :
    (value : Text) → IsWord value → until_zero (str_text (terminated (c_str value))) ≡ value
value_printed value w =
    let s = asked-terminated (c_str value) (word-IsKey value w) in
    let index : length value + 1 ≡ suc (length value) = omega arith in
    ap until_zero (sym ((SameStr-text _ _).0 s))
    ∙ sym (printed-until_zero (length value + 1) (byte_at value))
    ∙ ap (λ n. printed n (byte_at value)) index
    ∙ printed_ended value w.no_zero

fini_ctx : (os : Os) (pupa : Pupa) → (pupa_fini os pupa).1.ctx ≡ pupa.ctx
unfolding pupa_fini
fini_ctx os pupa = ground arith

parse_set_words :
    (prog key value : Text)
    → IsWord key
    → IsWord value
    → parse_cmd (prog ∷ codes "set" ∷ key ∷ value ∷ [])
      ≡ ([], some (record default_args { cmd = codes "set"; key = key; value = value }))
unfolding parse_cmd
parse_set_words prog key value w w' = rw (w.plain, w'.plain) refl

module _ (start : Start) (env : Env) (opened : Pupa) (key value : Text) (ctx' : Ctx)
    (sets : pupa_store_set env opened.ctx (c_str key) (c_str value) ≡ some (ok, ctx')) where
  abbrev closed : Pupa
  closed = (pupa_fini start.os (record opened { ctx = ctx' })).1

  done_outcome :
      set_printed start (some (ok, record opened { ctx = ctx' }))
      ≡ some (ok, codes "set successfully.\n", closed)
  unfolding set_printed
  done_outcome = refl

  written_outcome :
      set_printed start (pupa_set env opened (c_str key) (c_str value))
      ≡ some (ok, codes "set successfully.\n", closed)
  unfolding pupa_set
  written_outcome = ap (λ r. set_printed start (set_done opened r)) sets ∙ done_outcome

  set_outcome :
      (pupa : Pupa) (key_count : ℕ)
      → pupa_init start key_count op_type_rw pupa ≡ (ok, opened)
      → pt_set start env pupa key value key_count ≡ some (ok, codes "set successfully.\n", closed)
  unfolding pt_set
  set_outcome pupa key_count init = rw init written_outcome

-- The output of `pupa_tool get` for a value.
abbrev pub got_output : (key value : Text) → Text
got_output key value = codes "\nGot " ++ key ++ codes " : " ++ value ++ codes "\n"

module _ (files : Text → Start) (env : Env) (pupa opened : Pupa) (prog key value : Text) (d : Dict)
    (w : IsWord key) (w' : IsWord value) (allocated : env.allocated ≡ true)
    (synced : env.synced ≡ true)
    (init : pupa_init (files (codes "./pupa.store")) 1000 op_type_rw pupa ≡ (ok, opened))
    (s : IsStore opened.ctx) (fresh : IsFresh opened.ctx) (rep : Represents opened.ctx d)
    (settable : Settable opened.ctx (c_str key) (c_str value)) where
  abbrev file : Start
  file = files (codes "./pupa.store")

  -- The dictionary with the new value.
  abbrev next : Dict
  next =
      dict_set opened.ctx.store_hdr.max_ver_num d (key_text (c_str key))
        (str_text (terminated (c_str value)))

  abbrev exit : Pupa → Exit
  exit p = record { code = ok; out = codes "set successfully.\n"; err = []; pupa = p }

  sync_ok : sync_status env ≡ ok
  sync_ok = rw synced refl

  store_set :
      (ctx' : Ctx) × (pupa_store_set env opened.ctx (c_str key) (c_str value) ≡ some (ok, ctx'))
      × IsStore ctx'
      × Represents ctx' next
  store_set =
      let (ctx', e, s', rep') =
        Settable-set opened.ctx s fresh d rep (c_str key) (c_str value) (word-IsKey key w) env
          allocated settable in
      (ctx', rw sync_ok at e, s', rep')

  exit_set :
      (ctx' : Ctx)
      → pupa_store_set env opened.ctx (c_str key) (c_str value) ≡ some (ok, ctx')
      → run_cmd files env pupa prog []
          (record default_args { cmd = codes "set"; key = key; value = value })
        ≡ some (exit (pupa_fini file.os (record opened { ctx = ctx' })).1)
  unfolding run_cmd
  exit_set ctx' e = ap (exit_of []) (set_outcome file env opened key value ctx' e pupa 1000 init)

  -- The run of `pupa_tool set`, and what it leaves in the file.
  pub main_set :
      (p : Pupa) × (main files env pupa (prog ∷ codes "set" ∷ key ∷ value ∷ []) ≡ some (exit p))
      × IsStore p.ctx
      × Represents p.ctx next
  unfolding main
  main_set =
      let (ctx', e, s', rep') = store_set in
      let p = record opened { ctx = ctx' } in
      (
        (pupa_fini file.os p).1,
        rw (parse_set_words prog key value w w') (exit_set ctx' e),
        rw (fini_ctx file.os p) s',
        rw (fini_ctx file.os p) rep',
      )

  -- A later process finds the value.
  pub next_get :
      (p : Pupa)
      → IsStore p.ctx
      → Represents p.ctx next
      → (os : Os) → IsOld os
      → (idle : Pupa) → idle.init ≡ false
      → Ends
          (main (λ _. left os p) env idle (prog ∷ codes "get" ∷ key ∷ []))
          (ok, got_output key value)
  next_get p s' rep' os old idle not_init =
      let (e, same, out, err) =
        default_get (λ _. left os p) env idle prog key next not_init w old
          (left-Holds os p next s' rep') in
      let there =
        newest opened.ctx.store_hdr.max_ver_num d (key_text (c_str key))
          (str_text (terminated (c_str value))) s.room.versions p.ctx.store_hdr.max_ver_num
          s'.room.versions in
      (e, same, rw (there, value_printed value w') at out, err)
