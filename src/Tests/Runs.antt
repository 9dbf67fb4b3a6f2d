-- ===== src/Tests/Runs.antt =====
-- Runs of the store of two items: what a caller reads after some calls.
use pupa.Common.{ℕ, zero, suc, ◌+◌, ◌≡◌, refl, List, [], ◌∷◌, Option, none, some, pos}
use pupa.Memory.{Mem, load, store}
use pupa.Item.{Str, View}
use pupa.Context.{Status, ok, not_found, Ctx}
use pupa.Read.{pupa_store_get}
use pupa.Write.{pupa_store_set, pupa_store_del, finish_new, sort_counted, finish_sort}
use pupa.Sort.{pupa_sort}
use pupa.Tests.Fixture.{two, fine}
use pupa.Tests.Keys.{key_a, key_b, key_c, value_c}

abbrev read : Mem → ℕ → ℕ → List ℕ
read m zero a = []
read m (suc n) a = m a ∷ read m n (a + 1)

abbrev shown : Status × Option View × Ctx → Status × List ℕ
shown (s, none, c) = (s, [])
shown (s, some v, c) = (s, read c.mem v.len v.offset)

abbrev then_get : Option (Status × Ctx) → Str → Option (Status × List ℕ)
then_get none key = none
then_get (some (s, c)) key = some (shown (pupa_store_get c key (pos 1)))

get_run : then_get (some (ok, two)) key_a ≡ some (ok, 67 ∷ 0 ∷ [])
unfolding pupa_store_get load
get_run = refl

set_new_run : then_get (pupa_store_set fine two key_c value_c) key_c ≡ some (ok, 69 ∷ 70 ∷ 0 ∷ [])
unfolding pupa_store_set pupa_store_get finish_new sort_counted finish_sort pupa_sort load store
set_new_run = refl

set_old_run : then_get (pupa_store_set fine two key_a value_c) key_a ≡ some (ok, 69 ∷ 70 ∷ 0 ∷ [])
unfolding pupa_store_set pupa_store_get load store
set_old_run = refl

del_run : then_get (some (pupa_store_del fine two key_b)) key_b ≡ some (not_found, [])
unfolding pupa_store_del pupa_store_get load store
del_run = refl
