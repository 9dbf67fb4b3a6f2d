-- ===== src/Tool/Arguments.antt =====
-- `parse_cmd` of src/tools/pupa_tool.c
use pupa.Common.{
  ℕ, Bool, false, ◌||◌, List, [], ◌∷◌, Option, none, some, ℤ, pos, negsuc, ◌==◌, if◌then◌else◌,
}
use pupa.Common.Texts.{Text, codes, same_text}
use pupa.CommandLine.{byte_at, atoi, getopt}

-- What `parse_cmd` fills in.
pub record Args : Type 0 where
  pub cmd : Text
  pub key : Text
  pub value : Text
  pub filename : Text
  pub key_count : ℤ
  pub kv_ver : ℤ

-- The values that `main` starts with; it leaves `key` and `value` unset.
abbrev pub default_args : Args
default_args = record {
  cmd = [];
  key = [];
  value = [];
  filename = codes "./pupa.store";
  key_count = pos 1000;
  kv_ver = pos 1;
}

abbrev pub is_minus_one : ℤ → Bool
is_minus_one (negsuc n) = n == 0
is_minus_one (pos n) = false

-- One turn of the loop over the options: what it prints, and nothing where it gives up.
unfoldable pub parse_option : ℕ → (optarg : Text) → Args → Text × Option Args
parse_option c optarg args =
    let ret = atoi optarg in
    if c == b'n'
    then (if is_minus_one ret
        then (codes "Option \"n\" must be an positive integer.\n\n", none)
        else ([], some (record args { key_count = ret })))
    else if c == b'v'
    then (if is_minus_one ret
        then (codes "Option \"v\" must be an positive integer.\n\n", none)
        else ([], some (record args { kv_ver = ret })))
    else if c == b'f'
    then ([], some (record args { filename = optarg }))
    else ([], some args)

unfoldable pub parse_options : List (ℕ × Text) → Args → Text × Option Args
unfolding parse_option
parse_options [] args = ([], some args)
parse_options ((c, optarg) ∷ rest) args =
    let (out, done) = parse_option c optarg args in
    elim done [ none ↦ (out, none) | some next ↦ parse_options rest next ]

-- `argv[i][0] == '-'`
abbrev pub starts_dash : Text → Bool
starts_dash word = byte_at word 0 == b'-'

-- The branch of "set", and the options behind it
unfoldable pub parse_set : Text → List Text → Text × Option Args
unfolding parse_options getopt
parse_set command (key ∷ value ∷ rest) =
    let args = record default_args { cmd = command; key = key; value = value } in
    let options = parse_options (getopt rest) args in
    if starts_dash key || starts_dash value then ([], none) else options
parse_set command _ = ([], none)

-- The branches of "get" and "del"
unfoldable pub parse_key : Text → List Text → Text × Option Args
unfolding parse_options getopt
parse_key command (key ∷ rest) =
    let args = record default_args { cmd = command; key = key } in
    let options = parse_options (getopt rest) args in
    if starts_dash key then ([], none) else options
parse_key command [] = ([], none)

-- What it prints, and nothing where it returns -1.
unfoldable pub parse_cmd : (argv : List Text) → Text × Option Args
unfolding parse_set parse_key parse_options getopt
parse_cmd (prog ∷ command ∷ rest) =
    let set = parse_set command rest in
    let key = parse_key command rest in
    let stat = parse_options (getopt rest) (record default_args { cmd = command }) in
    if same_text command (codes "set")
    then set
    else if same_text command (codes "get")
    then key
    else if same_text command (codes "del")
    then key
    else if same_text command (codes "stat")
    then stat
    else ([], none)
parse_cmd _ = ([], none)
