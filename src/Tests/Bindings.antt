-- ===== src/Tests/Bindings.antt =====
-- The bindings on the store of two items: for "a" they return the key of the next item.
use pupa.Common.{ℕ, zero, suc, ◌<◌, ◌≡◌, ◌≢◌, true, [], ◌∷◌, some, arith}
use pupa.Common.Texts.{codes}
use pupa.Api.{Pupa}
use pupa.Api.Calls.{looked_up}
use pupa.CommandLine.{byte_at}
use pupa.Sdk.Lua
use pupa.Sdk.Java
use pupa.Sdk.Php
use pupa.Sdk.Gets.{next_key, bindings_next_key}
use pupa.Tests.Fixture.{two, two-IsStore}
use pupa.Tests.Keys.{IsKey-a, HasKey-a}

abbrev opened : Pupa
opened = record {
  init = true;
  shm = record { mapping = true; size = 6944; exists = true };
  ctx = two;
}

no_zero : (i : ℕ) → i < 1 → byte_at (codes "a") i ≢ 0
no_zero zero l e = absurd (omega arith)
no_zero (suc i) l e = absurd (omega arith)

bindings_next_key_example :
    (Lua.get opened (codes "a") ≡ (
      Lua.returned (Lua.string (next_key (looked_up opened) 0) ∷ Lua.nil ∷ []),
      looked_up opened,
    ))
    × (Java.get opened (codes "a") ≡ (next_key (looked_up opened) 0, looked_up opened))
    × (Php.pupa_get_function opened (some (codes "a"))
        ≡ (Php.string (next_key (looked_up opened) 0), looked_up opened))
bindings_next_key_example =
    bindings_next_key opened two-IsStore (codes "a") no_zero IsKey-a 0 HasKey-a
