-- ===== src/Tests/Tools.antt =====
-- Runs of `pupa_tool` on a new file and on one with the store of two items.
use pupa.Common.{ℕ, zero, suc, ◌<◌, ◌≡◌, ◌≢◌, refl, true, false, some, [], ◌∷◌, arith, pos}
use pupa.Common.Texts.{Text, codes}
use pupa.Context.{ok}
use pupa.Shm.{Os}
use pupa.Store.{IsStore}
use pupa.Write.Strings.{terminated}
use pupa.Api.{Pupa, Start}
use pupa.Api.Session.{IsNew}
use pupa.Api.Reopen.{Holds, IsOld, left, file_ctx}
use pupa.Dict.{Dict, str_text, dict_set, dict_get}
use pupa.Dict.Keys.{key_text}
use pupa.Dict.Contents.{contents, contents-Represents}
use pupa.Dict.Settable.{Settable, adds}
use pupa.CommandLine.{atoi, byte_at, c_str}
use pupa.Tool.{main}
use pupa.Tool.Get.{IsWord, Ends, got, value_text, main_get}
use pupa.Tool.Sessions.{tool_set_get, tool_first_set}
use pupa.Tests.Fixture.{hdr, bytes, two, two-IsStore, room, fine}
use pupa.Tests.Keys.{LacksKey-c}
use pupa.Tests.Writes.{fits, c_above_a}

abbrev os_of : ℕ → Os
os_of size = record {
  opened = true;
  stated = true;
  st_size = size;
  truncated = true;
  mapped = true;
  unmapped = true;
}

abbrev files_of : ℕ → Text → Start
files_of size path = record { os = os_of size; file_hdr = hdr; file_mem = bytes; local_hdr = hdr }

abbrev process : Pupa
process = record {
  init = false;
  shm = record { mapping = false; size = 0; exists = false };
  ctx = two;
}

os-IsOld : IsOld (os_of 6944)
os-IsOld = record { opened = refl; stated = refl; mapped = refl; filled = omega arith }

os-IsNew : IsNew (os_of 0)
os-IsNew = record { opened = refl; stated = refl; empty = refl; truncated = refl; mapped = refl }

abbrev file : Start
file = files_of 6944 []

abbrev d : Dict
d = contents (file_ctx file)

file-Holds : Holds file d
file-Holds =
    let s : IsStore (file_ctx file) = record {
      room = two-IsStore.room;
      table = two-IsStore.table;
    } in
    record { store = s; represents = contents-Represents (file_ctx file) s }

IsWord-a : IsWord (codes "a")
IsWord-a = record { plain = refl; no_zero = no_zero; short = omega arith }
  where
    no_zero : (i : ℕ) → i < 1 → byte_at (codes "a") i ≢ 0
    no_zero zero l e = absurd (omega arith)
    no_zero (suc i) l e = absurd (omega arith)

IsWord-c : IsWord (codes "c")
IsWord-c = record { plain = refl; no_zero = no_zero; short = omega arith }
  where
    no_zero : (i : ℕ) → i < 1 → byte_at (codes "c") i ≢ 0
    no_zero zero l e = absurd (omega arith)
    no_zero (suc i) l e = absurd (omega arith)

IsWord-value : IsWord (codes "EF")
IsWord-value = record { plain = refl; no_zero = no_zero; short = omega arith }
  where
    no_zero : (i : ℕ) → i < 2 → byte_at (codes "EF") i ≢ 0
    no_zero zero l e = absurd (omega arith)
    no_zero (suc zero) l e = absurd (omega arith)
    no_zero (suc (suc i)) l e = absurd (omega arith)

two_read : atoi (codes "2") ≡ pos 2
unfolding atoi
two_read = refl

main_get_example :
    Ends
      (main
        (files_of 6944)
        fine
        process
        (codes "pupa_tool" ∷ codes "get" ∷ codes "a" ∷ codes "-v" ∷ codes "2" ∷ []))
      (got
        (codes "a")
        (dict_get 3 d (key_text (c_str (codes "a"))) 2).0
        (value_text (dict_get 3 d (key_text (c_str (codes "a"))) 2).1))
main_get_example =
    main_get (files_of 6944) fine process (codes "pupa_tool") (codes "a") d refl IsWord-a os-IsOld
      file-Holds 2 (codes "2") two_read (omega arith)

c-Settable : Settable (file_ctx file) (c_str (codes "c")) (c_str (codes "EF"))
c-Settable =
    adds (fits 2 (omega arith) (c_str (codes "c")) refl) (room 2 3 (omega arith)) LacksKey-c 0
      (omega arith) c_above_a

tool_set_get_example :
    (p : Pupa) × (main
        (files_of 6944)
        fine
        process
        (codes "pupa_tool" ∷ codes "set" ∷ codes "c" ∷ codes "EF" ∷ [])
      ≡ some (record { code = ok; out = codes "set successfully.\n"; err = []; pupa = p }))
    × Holds
        (left (os_of 6944) p)
        (dict_set 3 d (key_text (c_str (codes "c"))) (str_text (terminated (c_str (codes "EF")))))
    × Ends
        (main
          (λ _. left (os_of 6944) p)
          fine
          process
          (codes "pupa_tool" ∷ codes "get" ∷ codes "c" ∷ []))
        (ok, codes "\nGot c : EF\n")
tool_set_get_example =
    tool_set_get (files_of 6944) fine process (codes "pupa_tool") (codes "c") (codes "EF") d
      IsWord-c IsWord-value refl refl refl os-IsOld file-Holds c-Settable (os_of 6944) os-IsOld
      process refl

tool_first_set_example :
    (p : Pupa) × (main
        (files_of 0)
        fine
        process
        (codes "pupa_tool" ∷ codes "set" ∷ codes "c" ∷ codes "EF" ∷ [])
      ≡ some (record { code = ok; out = codes "set successfully.\n"; err = []; pupa = p }))
    × Ends
        (main
          (λ _. left (os_of 6944) p)
          fine
          process
          (codes "pupa_tool" ∷ codes "get" ∷ codes "c" ∷ []))
        (ok, codes "\nGot c : EF\n")
tool_first_set_example =
    tool_first_set (files_of 0) fine process (codes "pupa_tool") (codes "c") (codes "EF") IsWord-c
      IsWord-value (omega arith) (omega arith) refl refl refl os-IsNew (os_of 6944) os-IsOld process
      refl
