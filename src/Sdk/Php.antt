-- ===== src/Sdk/Php.antt =====
-- sdk/php/pupa_php.c. The arguments are `none` where `zend_parse_parameters` fails.
use pupa.Common.{ℕ, Bool, true, false, Option, none, some, if◌then◌else◌}
use pupa.Common.Texts.{Text}
use pupa.Context.{Status, Env, failed}
use pupa.Shm.{Os}
use pupa.Api.{Pupa, Start, pupa_init, pupa_fini, pupa_get, pupa_set, pupa_del}
use pupa.Stats.{pupa_stats}
use pupa.CommandLine.{c_str}
use pupa.Sdk.{value_string}

-- RETURN_NULL, RETURN_TRUE and RETURN_FALSE, and _RETURN_STRING
pub data Zval : Type 0 where
  null : Zval
  boolean : Bool → Zval
  string : Text → Zval

abbrev php_bool : Status → Zval
php_bool ret = if failed ret then boolean false else boolean true

-- The file name, and the count and the type as `int`
unfoldable pub pupa_init_function : Start → Pupa → Option (Text × ℕ × ℕ) → Zval × Pupa
pupa_init_function start pupa none = (boolean false, pupa)
pupa_init_function start pupa (some (file_name, key_count, op_type)) =
    let (ret, opened) = pupa_init start key_count op_type pupa in (php_bool ret, opened)

unfoldable pub pupa_fini_function : Os → Pupa → Zval × Pupa
pupa_fini_function os pupa = let (ret, closed) = pupa_fini os pupa in (php_bool ret, closed)

-- A key has the length that PHP has for it, also with a '\0' in it.
unfoldable pub pupa_get_function : Pupa → Option Text → Zval × Pupa
pupa_get_function pupa none = (null, pupa)
pupa_get_function pupa (some p_key) =
    let (ret, value, after) = pupa_get pupa (c_str p_key) in
    ((if failed ret then null else string (value_string after value)), after)

abbrev pub set_result : Option (Status × Pupa) → Option (Zval × Pupa)
set_result none = none
set_result (some (ret, after)) = some (php_bool ret, after)

unfoldable pub pupa_set_function : Env → Pupa → Option (Text × Text) → Option (Zval × Pupa)
pupa_set_function env pupa none = some (null, pupa)
pupa_set_function env pupa (some (p_key, p_val)) =
    set_result (pupa_set env pupa (c_str p_key) (c_str p_val))

unfoldable pub pupa_del_function : Env → Pupa → Option Text → Zval × Pupa
pupa_del_function env pupa none = (null, pupa)
pupa_del_function env pupa (some p_key) =
    let (ret, after) = pupa_del env pupa (c_str p_key) in (php_bool ret, after)

unfoldable pub pupa_stats_function : Pupa → Zval
pupa_stats_function pupa =
    let (ret, stat) = pupa_stats pupa in if failed ret then null else string stat
