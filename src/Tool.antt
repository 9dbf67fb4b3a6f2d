-- ===== src/Tool.antt =====
-- src/tools/pupa_tool.c: the debug tool. One run is one process, over a library that is not initialised.
pub mod Arguments
pub mod Usage
pub mod Get
pub mod Set
pub mod Sessions
use pupa.Common.{
  ℕ, zero, suc, ◌+◌, Bool, true, false, ◌||◌, List, [], ◌∷◌, ◌++◌, Option, none, some, ℤ, pos,
  negsuc, ◌==◌, if◌then◌else◌, length,
}
use pupa.Common.Texts.{Text, codes, same_text, decimal}
use pupa.Memory.{Mem}
use pupa.Item.{View}
use pupa.Context.{
  failed, Status, ok, error, overflow, not_found, not_found_value, exceed_maximum_num, Env,
}
use pupa.Shm.{op_type_ro, op_type_rw}
use pupa.Api.{
  Pupa, Start, pupa_init, pupa_set, pupa_del, pupa_get_by_ver, pupa_get_all_ver, pupa_fini,
}
use pupa.Stats.{pupa_stats}
use pupa.CommandLine.{byte_at, c_str, printed}
use pupa.Tool.Arguments.{Args, parse_cmd}
use pupa.Tool.Usage.{usage}

-- "%d" of a return code
abbrev pub status_text : Status → Text
status_text ok = codes "0"
status_text error = codes "-1"
status_text overflow = codes "-2"
status_text not_found = codes "-3"
status_text not_found_value = codes "-4"
status_text exceed_maximum_num = codes "-5"

-- "%.*s" of the `len` and the `data` of a string of the command line.
abbrev pub shown : Text → Text
shown t = printed (length t) (byte_at t)

-- "%.*s" of a value
abbrev pub shown_view : Mem → View → Text
shown_view m w = printed w.len (λ i. m (w.offset + i))

-- What a command returns, what it has printed, and the library afterwards.
abbrev pub Outcome : Type 0
Outcome = Status × Text × Pupa

unfoldable pub pt_stat : Start → Pupa → Outcome
unfolding pupa_stats pupa_fini
pt_stat start pupa =
    let (ret, opened) = pupa_init start 0 op_type_ro pupa in
    let (got, stat) = pupa_stats opened in
    if failed ret
    then (ret, codes "Failed to initialize pupa.\n", opened)
    else if failed got
    then (got, codes "Failed to perform pupa_stats.\n", opened)
    else (ok, codes "\npupa statistics: \n\n" ++ shown stat, (pupa_fini start.os opened).1)

-- `pt_set` after `pupa_set`
unfoldable pub set_printed : Start → Option (Status × Pupa) → Option Outcome
unfolding pupa_fini
set_printed start none = none
set_printed start (some (ret, pupa)) = some (
    if failed ret
    then (ret, codes "Failed to execute pupa_set.\n", pupa)
    else (ok, codes "set successfully.\n", (pupa_fini start.os pupa).1))

unfoldable pub pt_set : Start → Env → Pupa → (key value : Text) → (key_count : ℕ) → Option Outcome
unfolding set_printed
pt_set start env pupa key value key_count =
    let (ret, opened) = pupa_init start key_count op_type_rw pupa in
    let written = set_printed start (pupa_set env opened (c_str key) (c_str value)) in
    if failed ret then some (ret, codes "Failed to initialize pupa.\n", opened) else written

unfoldable pub pt_del : Start → Env → Pupa → (key : Text) → Outcome
unfolding pupa_fini
pt_del start env pupa key =
    let (ret, opened) = pupa_init start 2 op_type_rw pupa in
    let (done, deleted) = pupa_del env opened (c_str key) in
    if failed ret
    then (ret, codes "Failed to initialize pupa.\n", opened)
    else if failed done
    then (done, codes "Failed to delete " ++ shown key ++ codes ".\n", deleted)
    else (
      ok,
      codes "Delete " ++ shown key ++ codes " successfully.\n",
      (pupa_fini start.os deleted).1,
    )

-- The loop over `values` from index `i` on, for `rounds` more of them. Behind the last string that
-- `pupa_get_all_ver` wrote `values` is zero.
unfoldable pub list_values : Mem → (rounds i : ℕ) → List View → Text
list_values m zero i ws = []
list_values m (suc rounds) i [] = []
list_values m (suc rounds) i (w ∷ ws) =
    let line = codes "\n     v" ++ decimal (i + 1) ++ codes " - " ++ shown_view m w ++ codes " " in
    let rest = list_values m rounds (i + 1) ws in if w.len == 0 then [] else line ++ rest

abbrev pub default_max_value_ver : ℕ
default_max_value_ver = 100

abbrev pub get_failed : Text → Text
get_failed key = codes "Failed to get (" ++ shown key ++ codes ").\n"

-- `pt_get` with `kv_ver` 0, after `pupa_get_all_ver`
unfoldable pub get_all_printed : Start → (key : Text) → Status × List View × Pupa → Outcome
unfolding list_values
get_all_printed start key (ret, values, pupa) =
    let lines = list_values pupa.ctx.mem default_max_value_ver 0 values in
    if failed ret then (ret, get_failed key, pupa) else (
      ok,
      codes "\nGot " ++ shown key ++ codes " :" ++ lines ++ codes "\n",
      (pupa_fini start.os pupa).1,
    )

-- What `values[0]` is printed as: it is zero until `pupa_get_by_ver` sets it.
abbrev pub first_value : Mem → Option View → Text
first_value m none = []
first_value m (some w) = shown_view m w

-- `pt_get` with another `kv_ver`, after `pupa_get_by_ver`
unfoldable pub get_printed : Start → (key : Text) → Status × Option View × Pupa → Outcome
get_printed start key (ret, value, pupa) = if failed ret then (ret, get_failed key, pupa) else (
  ok,
  codes "\nGot " ++ shown key ++ codes " : " ++ first_value pupa.ctx.mem value ++ codes "\n",
  (pupa_fini start.os pupa).1,
)

unfoldable pub get_opened : Start → Pupa → (key : Text) → ℤ → Outcome
unfolding get_all_printed get_printed
get_opened start opened key (pos zero) =
    get_all_printed start key (pupa_get_all_ver opened (c_str key))
get_opened start opened key (pos (suc v)) =
    get_printed start key (pupa_get_by_ver opened (c_str key) (pos (suc v)))
get_opened start opened key (negsuc v) =
    get_printed start key (pupa_get_by_ver opened (c_str key) (negsuc v))

unfoldable pub pt_get : Start → Pupa → (key : Text) → ℤ → Outcome
unfolding get_opened
pt_get start pupa key kv_ver =
    let (ret, opened) = pupa_init start 0 op_type_ro pupa in
    let printed = get_opened start opened key kv_ver in
    if failed ret then (ret, codes "Failed to initialize pupa.\n", opened) else printed

-- `pt_set` with the count of the command line. A negative one is left out of the model: `none`.
unfoldable pub set_counted : Start → Env → Pupa → Args → ℤ → Option Outcome
set_counted start env pupa args (pos n) = pt_set start env pupa args.key args.value n
set_counted start env pupa args (negsuc n) = none

-- How a process ends: its exit code, its output, its error output, and the library. The messages of
-- `getopt` itself are left out.
pub record Exit : Type 0 where
  pub code : Status
  pub out : Text
  pub err : Text
  pub pupa : Pupa

-- The end of `main`, behind what the parser has printed.
unfoldable pub exit_of : Text → Option Outcome → Option Exit
exit_of before none = none
exit_of before (some (ret, out, pupa)) =
    let all =
      before
      ++ (if failed ret then out ++ (codes "Error: " ++ status_text ret ++ codes "\n") else out) in
    some (record { code = ret; out = all; err = []; pupa = pupa })

-- `main` after a successful `parse_cmd`; `files` are the files by their paths.
unfoldable pub run_cmd : (Text → Start) → Env → Pupa → (prog : Text) → Text → Args → Option Exit
unfolding exit_of set_counted pt_get pt_del pt_stat pt_set
run_cmd files env pupa prog before args =
    let start = files args.filename in
    let set = exit_of before (set_counted start env pupa args args.key_count) in
    let get = exit_of before (some (pt_get start pupa args.key args.kv_ver)) in
    let del = exit_of before (some (pt_del start env pupa args.key)) in
    let stat = exit_of before (some (pt_stat start pupa)) in
    let other : Option Exit =
      some (record { code = ok; out = before; err = usage prog; pupa = pupa }) in
    if same_text args.cmd (codes "set")
    then set
    else if same_text args.cmd (codes "get")
    then get
    else if same_text args.cmd (codes "del")
    then del
    else if same_text args.cmd (codes "stat")
    then stat
    else other

abbrev pub program : List Text → Text
program [] = []
program (prog ∷ rest) = prog

unfoldable pub parsed :
    (Text → Start) → Env → Pupa → (prog : Text) → Text × Option Args → Option Exit
unfolding run_cmd
parsed files env pupa prog (out, none) =
    some (record { code = ok; out = out; err = usage prog; pupa = pupa })
parsed files env pupa prog (out, some args) = run_cmd files env pupa prog out args

unfoldable pub main : (Text → Start) → Env → Pupa → (argv : List Text) → Option Exit
unfolding parsed parse_cmd
main files env pupa argv = parsed files env pupa (program argv) (parse_cmd argv)
