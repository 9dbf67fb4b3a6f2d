-- ===== src/Sdk/Lua.antt =====
-- sdk/lua/pupa_lua.c, for arguments of the right types.
use pupa.Common.{ℕ, List, [], ◌∷◌, ◌++◌, Option, none, some, if◌then◌else◌}
use pupa.Common.Texts.{Text, codes}
use pupa.Context.{Status, Env, failed}
use pupa.Shm.{Os}
use pupa.Api.{Pupa, Start, pupa_init, pupa_fini, pupa_get, pupa_set, pupa_del}
use pupa.Stats.{pupa_stats}
use pupa.CommandLine.{printed, byte_at}
use pupa.Sdk.{strlen, c_arg, value_string}

pub data Value : Type 0 where
  nil : Value
  string : Text → Value

-- What a function leaves on the stack, or the message of `luaL_error`, without the position.
pub data Result : Type 0 where
  returned : List Value → Result
  raised : Text → Result

-- A function that returns nil alone.
abbrev done_or : Status → Text → Result
done_or ret message = if failed ret then raised message else returned (nil ∷ [])

-- "%s" of a key
abbrev shown : Text → Text
shown key = printed (strlen key) (byte_at key)

unfoldable pub init : Start → Pupa → (filename : Text) → (key_count type : ℕ) → Result × Pupa
init start pupa filename key_count type =
    let (ret, opened) = pupa_init start key_count type pupa in
    (done_or ret (codes "Failed to initialize pupa."), opened)

unfoldable pub fini : Os → Pupa → Result × Pupa
fini os pupa =
    let (ret, closed) = pupa_fini os pupa in (done_or ret (codes "Failed to end the pupa."), closed)

unfoldable pub get : Pupa → (key : Text) → Result × Pupa
get pupa key =
    let (ret, value, after) = pupa_get pupa (c_arg key) in
    (
      (if failed ret
          then raised (codes "Failed to get " ++ shown key ++ codes ".")
          else returned (string (value_string after value) ∷ nil ∷ [])),
      after,
    )

abbrev pub set_result : Option (Status × Pupa) → Option (Result × Pupa)
set_result none = none
set_result (some (ret, after)) = some (done_or ret (codes "Failed to perform pupa_set."), after)

unfoldable pub set : Env → Pupa → (key value : Text) → Option (Result × Pupa)
set env pupa key value = set_result (pupa_set env pupa (c_arg key) (c_arg value))

unfoldable pub delete : Env → Pupa → (key : Text) → Result × Pupa
delete env pupa key =
    let (ret, after) = pupa_del env pupa (c_arg key) in
    (done_or ret (codes "Failed to delete " ++ shown key ++ codes "."), after)

unfoldable pub stats : Pupa → Result
stats pupa =
    let (ret, stat) = pupa_stats pupa in
    if failed ret
    then raised (codes "Failed to perform pupa_stats.")
    else returned (string stat ∷ nil ∷ [])
