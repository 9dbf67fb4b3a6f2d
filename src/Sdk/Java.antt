-- ===== src/Sdk/Java.antt =====
-- sdk/java/pupa_java.c. A `jstring` is what `GetStringUTFChars` gives for it, which succeeds.
use pupa.Common.{ℕ, Bool, true, false, [], Option, none, some, if◌then◌else◌}
use pupa.Common.Texts.{Text}
use pupa.Context.{Status, Env, failed}
use pupa.Shm.{Os}
use pupa.Api.{Pupa, Start, pupa_init, pupa_fini, pupa_get, pupa_set, pupa_del}
use pupa.Stats.{pupa_stats}
use pupa.Sdk.{c_arg, value_string}

-- JAVA_TRUE and JAVA_FALSE
abbrev java_bool : Status → Bool
java_bool ret = if failed ret then false else true

unfoldable pub init : Start → Pupa → (str : Text) → (key_count op_type : ℕ) → Bool × Pupa
init start pupa str key_count op_type =
    let (ret, opened) = pupa_init start key_count op_type pupa in (java_bool ret, opened)

unfoldable pub fini : Os → Pupa → Bool × Pupa
fini os pupa = let (ret, closed) = pupa_fini os pupa in (java_bool ret, closed)

abbrev pub set_result : Option (Status × Pupa) → Option (Bool × Pupa)
set_result none = none
set_result (some (ret, after)) = some (java_bool ret, after)

unfoldable pub set : Env → Pupa → (key_str value_str : Text) → Option (Bool × Pupa)
set env pupa key_str value_str = set_result (pupa_set env pupa (c_arg key_str) (c_arg value_str))

unfoldable pub delete : Env → Pupa → (key_str : Text) → Bool × Pupa
delete env pupa key_str =
    let (ret, after) = pupa_del env pupa (c_arg key_str) in (java_bool ret, after)

-- An empty string stands for a failure.
unfoldable pub get : Pupa → (key_str : Text) → Text × Pupa
get pupa key_str =
    let (ret, value, after) = pupa_get pupa (c_arg key_str) in
    ((if failed ret then [] else value_string after value), after)

unfoldable pub stats : Pupa → Text
stats pupa = let (ret, stat) = pupa_stats pupa in if failed ret then [] else stat
