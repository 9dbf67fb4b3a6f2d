-- ===== src/Tool/Usage.antt =====
-- `usage` of src/tools/pupa_tool.c
use pupa.Common.{◌++◌}
use pupa.Common.Texts.{Text, codes}

-- What it prints to `stderr`
unfoldable pub usage : (prog : Text) → Text
usage prog =
    codes "About: PUPA Debug Tool\n\n"
    ++ codes "Usage: "
    ++ prog
    ++ codes " [option] command\n\n"
    ++ codes "Commands:\n"
    ++ codes "    set     Set key to the string value.\n"
    ++ codes "            For example: set key value\n"
    ++ codes "    get     Get the value of the key.\n"
    ++ codes "            For example: get key\n"
    ++ codes "                       : get key -v 3\n"
    ++ codes "    del     Delete the specified key.\n"
    ++ codes "            For example: del key\n"
    ++ codes "    stat    Statistics and Information about the pupa store.\n\n"
    ++ codes "Options:\n"
    ++ codes "    -f      Specify the store file of the PUPA. If not specified, \n"
    ++ codes "            pupa.store file will be used in the current directory.\n"
    ++ codes "    -v      Specify the key-value version. If not specified, \n"
    ++ codes "            the latest one returned. 0 for all versions.\n"
    ++ codes "    -n      Specify the number of the key. If not specified,\n"
    ++ codes "            default is 1000.\n"
