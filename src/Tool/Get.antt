-- ===== src/Tool/Get.antt =====
-- What `pupa_tool get` prints.
use pupa.Common.{
  ℕ, zero, suc, ◌+◌, ◌^◌, ◌<◌, ◌≡◌, ap, sym, refl, Option, some, none, [], ◌∷◌, ◌++◌, arith, false,
  pos, ℤ, if◌then◌else◌, length,
}
use pupa.Common.Texts.{Text, codes}
use pupa.Memory.{Mem}
use pupa.Item.{View}
use pupa.Context.{
  failed, Status, ok, error, overflow, not_found, not_found_value, exceed_maximum_num, Ctx, Env,
}
use pupa.Read.{pupa_store_get}
use pupa.Api.{Pupa, Start, pupa_get_by_ver}
use pupa.Api.Reopen.{Holds, IsOld, reopened, init_old_file}
use pupa.Store.Find.{IsKey}
use pupa.Dict.{Dict, dict_get}
use pupa.Store.{IsStore}
use pupa.Shm.{op_type_ro}
use pupa.Dict.Represents.{Represents, answer, get-dict_get}
use pupa.Dict.Run.{get_mem}
use pupa.Dict.Keys.{key_text}
use pupa.CommandLine.{byte_at, c_str, atoi}
use pupa.CommandLine.Printed.{until_zero, NoZero, printed-until_zero, printed_whole}
use pupa.Tool.{
  Exit, main, pt_get, get_opened, get_printed, first_value, status_text, shown, run_cmd, exit_of,
}
use pupa.Tool.Arguments.{parse_option, parse_options, Args, default_args, parse_cmd, starts_dash}

-- A string that the tool takes as a key: not an option, without a '\0', and not too long.
pub record IsWord (t : Text) : Type 0 where
  pub plain : starts_dash t ≡ false
  pub no_zero : NoZero t
  pub short : length t + 1 < 2 ^ 31

ended : (t : Text) → byte_at t (length t) ≡ 0
ended [] = refl
ended (x ∷ xs) = ended xs

pub word-IsKey : (t : Text) → IsWord t → IsKey (c_str t)
word-IsKey t w = record { short = w.short; ended = ended t }

abbrev pub value_text : Option Text → Text
value_text none = []
value_text (some t) = until_zero t

-- The exit code and the output for the status of a lookup and the text that it has given.
abbrev pub got : Text → Status → Text → Status × Text
got key status value =
    if failed status
    then (
      status,
      codes "Failed to get ("
          ++ key
          ++ codes ").\n"
          ++ (codes "Error: " ++ status_text status ++ codes "\n"),
    )
    else (ok, codes "\nGot " ++ key ++ codes " : " ++ value ++ codes "\n")

answer_status : (ctx : Ctx) (r : Status × Option View × Ctx) → (answer ctx r).0 ≡ r.0
answer_status ctx (status, none, c) = refl
answer_status ctx (status, some w, c) = refl

answer_value :
    (ctx : Ctx) (r : Status × Option View × Ctx)
    → value_text (answer ctx r).1 ≡ first_value ctx.mem r.1
answer_value ctx (status, none, c) = refl
answer_value ctx (status, some w, c) = sym (printed-until_zero w.len (λ i. ctx.mem (w.offset + i)))

shown_word : (key : Text) → IsWord key → shown key ≡ key
shown_word key w = printed_whole key w.no_zero

-- A run that ends with an exit code and an output, and no error output.
abbrev pub Ends : Option Exit → Status × Text → Type 0
Ends o r = (e : Exit) × (o ≡ some e) × (◌≡◌ {A = Status × Text} (e.code, e.out) r) × (e.err ≡ [])

-- `exit_of` of a lookup that has left the bytes as they were.
printed_exit :
    (start : Start) (m : Mem) (key : Text) (status : Status) (value : Option View) (pupa : Pupa)
    → IsWord key
    → pupa.ctx.mem ≡ m
    → Ends
        (exit_of [] (some (get_printed start key (status, value, pupa))))
        (got key status (first_value m value))
unfolding exit_of get_printed
printed_exit start m key ok value pupa w same = (_, refl, rw (shown_word key w, same) refl, refl)
printed_exit start m key error value pupa w same = (_, refl, rw (shown_word key w) refl, refl)
printed_exit start m key overflow value pupa w same = (_, refl, rw (shown_word key w) refl, refl)
printed_exit start m key not_found value pupa w same = (_, refl, rw (shown_word key w) refl, refl)
printed_exit start m key not_found_value value pupa w same =
    (_, refl, rw (shown_word key w) refl, refl)
printed_exit start m key exceed_maximum_num value pupa w same =
    (_, refl, rw (shown_word key w) refl, refl)

module _ (start : Start) (opened : Pupa) (key : Text) (w : IsWord key) where
  by_ver_exit :
      (v : ℕ)
      → Ends
          (exit_of [] (some (get_printed start key (pupa_get_by_ver opened (c_str key) (pos v)))))
          (got key
            (answer opened.ctx (pupa_store_get opened.ctx (c_str key) (pos v))).0
            (value_text (answer opened.ctx (pupa_store_get opened.ctx (c_str key) (pos v))).1))
  unfolding pupa_get_by_ver
  by_ver_exit v =
      let r = pupa_store_get opened.ctx (c_str key) (pos v) in
      let (e, same, out, err) =
        printed_exit start opened.ctx.mem key r.0 r.1 (record opened { ctx = r.2 }) w
          (get_mem opened.ctx (c_str key) (pos v)) in
      (e, same, rw (answer_status opened.ctx r, answer_value opened.ctx r) out, err)

  -- What the tool prints for a version of a key, on a store that represents a dictionary.
  pub opened_exit :
      (d : Dict) (v : ℕ)
      → IsStore opened.ctx
      → Represents opened.ctx d
      → 0 < v
      → Ends (exit_of [] (some (get_opened start opened key (pos v)))) (
          got key
            (dict_get opened.ctx.store_hdr.max_ver_num d (key_text (c_str key)) v).0
            (value_text (dict_get opened.ctx.store_hdr.max_ver_num d (key_text (c_str key)) v).1))
  unfolding get_opened
  opened_exit d zero s rep p = absurd (omega arith)
  opened_exit d (suc v) s rep p =
      let (e, same, out, err) = by_ver_exit (suc v) in
      let spec = get-dict_get opened.ctx s d rep (c_str key) (word-IsKey key w) (suc v) p in
      (e, same, rw spec at out, err)

-- The command line without an option, and with "-v".
parse_get :
    (prog key : Text)
    → IsWord key
    → parse_cmd (prog ∷ codes "get" ∷ key ∷ [])
      ≡ ([], some (record default_args { cmd = codes "get"; key = key }))
unfolding parse_cmd
parse_get prog key w = rw w.plain refl

version_option :
    (version : Text) (v : ℕ) (args : Args)
    → atoi version ≡ pos v
    → parse_option b'v' version args ≡ ([], some (record args { kv_ver = pos v }))
unfolding parse_option
version_option version v args e = rw e refl

version_options :
    (version : Text) (v : ℕ) (args : Args)
    → atoi version ≡ pos v
    → parse_options ((b'v', version) ∷ []) args ≡ ([], some (record args { kv_ver = pos v }))
unfolding parse_options
version_options version v args e = rw (parse_options, version_option version v args e) refl

parse_get_version :
    (prog key version : Text) (v : ℕ)
    → IsWord key
    → atoi version ≡ pos v
    → parse_cmd (prog ∷ codes "get" ∷ key ∷ codes "-v" ∷ version ∷ [])
      ≡ ([], some (record default_args { cmd = codes "get"; key = key; kv_ver = pos v }))
unfolding parse_cmd
parse_get_version prog key version v w e =
    rw w.plain (version_options version v (record default_args { cmd = codes "get"; key = key }) e)

old_get :
    (start : Start) (pupa : Pupa) (key : Text) (v : ℤ)
    → pupa.init ≡ false
    → IsOld start.os
    → pt_get start pupa key v ≡ get_opened start (reopened start) key v
unfolding pt_get
old_get start pupa key v idle old = rw (init_old_file start 0 op_type_ro pupa idle old) refl

module _ (files : Text → Start) (env : Env) (pupa : Pupa) (prog key : Text) (d : Dict)
    (idle : pupa.init ≡ false) (w : IsWord key) (old : IsOld (files (codes "./pupa.store")).os)
    (holds : Holds (files (codes "./pupa.store")) d) where
  abbrev file : Start
  file = files (codes "./pupa.store")

  run_get :
      (v : ℕ)
      → run_cmd files env pupa prog []
          (record default_args { cmd = codes "get"; key = key; kv_ver = pos v })
        ≡ exit_of [] (some (get_opened file (reopened file) key (pos v)))
  unfolding run_cmd
  run_get v = ap (λ o. exit_of [] (some o)) (old_get file pupa key (pos v) idle old)

  -- `pupa_tool get KEY` in terms of the dictionary of the file.
  pub default_get : Ends (main files env pupa (prog ∷ codes "get" ∷ key ∷ [])) (
      got key
        (dict_get file.file_hdr.max_ver_num d (key_text (c_str key)) 1).0
        (value_text (dict_get file.file_hdr.max_ver_num d (key_text (c_str key)) 1).1))
  unfolding main
  default_get =
      rw (parse_get prog key w, run_get 1)
        (opened_exit file (reopened file) key w d 1 holds.store holds.represents (omega arith))

  -- Let "./pupa.store" hold a store that represents a dictionary, with the system calls succeeding and
  -- the library not initialised, and let the key be a C string shorter than 2 ^ 31 - 1 bytes that does
  -- not start with '-'. `pupa_tool get KEY -v N`, with N read by `atoi` as a number from 1 on, prints
  -- the value that the dictionary has for that version, up to its first '\0', and exits with `PUPA_OK`,
  -- or prints that it failed with the status of the dictionary's lookup, and exits with that; nothing
  -- goes to the error output.
  pub main_get :
      (v : ℕ) (version : Text)
      → atoi version ≡ pos v
      → 0 < v
      → Ends (main files env pupa (prog ∷ codes "get" ∷ key ∷ codes "-v" ∷ version ∷ [])) (
          got key
            (dict_get file.file_hdr.max_ver_num d (key_text (c_str key)) v).0
            (value_text (dict_get file.file_hdr.max_ver_num d (key_text (c_str key)) v).1))
  unfolding main
  main_get v version n p =
      rw (parse_get_version prog key version v w n, run_get v)
        (opened_exit file (reopened file) key w d v holds.store holds.represents p)
