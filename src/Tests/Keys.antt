-- ===== src/Tests/Keys.antt =====
-- Keys that the stores of the fixture have, and keys that they lack.
use pupa.Common.{ℕ, suc, zero, ◌+◌, ◌≤◌, ◌<◌, ◌≡◌, ◌≢◌, refl, [], ◌∷◌, Ordering, arith}
use pupa.Memory.{load}
use pupa.Layout.{offset, item_len}
use pupa.Item.{Str, key_offset, key_len}
use pupa.Item.Order.{order, item_key, SameStr}
use pupa.Write.Strings.{terminated}
use pupa.Store.Find.{IsKey, asked}
use pupa.Store.Get.{HasKey, LacksKey, current}
use pupa.Tests.Fixture.{at, str, ctx_of, two, three, bytes}

abbrev pub key_a : Str
key_a = str (97 ∷ [])

abbrev pub key_b : Str
key_b = str (98 ∷ [])

abbrev pub key_c : Str
key_c = str (99 ∷ [])

-- A key smaller than all others.
abbrev pub key_least : Str
key_least = str (65 ∷ [])

pub IsKey-a : IsKey key_a
IsKey-a = record { short = omega arith; ended = refl }

pub IsKey-b : IsKey key_b
IsKey-b = record { short = omega arith; ended = refl }

pub IsKey-least : IsKey key_least
IsKey-least = record { short = omega arith; ended = refl }

pub IsKey-c : IsKey key_c
IsKey-c = record { short = omega arith; ended = refl }

pub HasKey-a : HasKey two key_a 0
unfolding offset item_len key_len key_offset load
HasKey-a = record { inside = omega arith; same = record { same_len = refl; same_bytes = same } }
  where
    same : (i : ℕ) → i < 2 → at (97 ∷ []) i ≡ bytes (key_offset bytes 128 + i)
    same zero l = refl
    same (suc zero) l = refl
    same (suc (suc i)) l = absurd (omega arith)

pub HasKey-b : (n : ℕ) → 1 < n → HasKey (ctx_of n) key_b 1
unfolding offset item_len key_len key_offset load
HasKey-b n p = record { inside = p; same = record { same_len = refl; same_bytes = same } }
  where
    same : (i : ℕ) → i < 2 → at (98 ∷ []) i ≡ bytes (key_offset bytes 192 + i)
    same zero l = refl
    same (suc zero) l = refl
    same (suc (suc i)) l = absurd (omega arith)

pub HasKey-c : HasKey three key_c 2
unfolding offset item_len key_len key_offset load
HasKey-c = record { inside = omega arith; same = record { same_len = refl; same_bytes = same } }
  where
    same : (i : ℕ) → i < 2 → at (99 ∷ []) i ≡ bytes (key_offset bytes 256 + i)
    same zero l = refl
    same (suc zero) l = refl
    same (suc (suc i)) l = absurd (omega arith)

lacks :
    (x n i : ℕ)
    → n ≤ 2
    → i < n
    → x ≢ 97
    → x ≢ 98
    → ¬ SameStr (asked (str (x ∷ []))) (item_key bytes (current (ctx_of n) i))
unfolding offset item_len key_len key_offset load
lacks x n zero le l p q same = p (same.same_bytes 0 (omega arith))
lacks x n (suc zero) le l p q same = q (same.same_bytes 0 (omega arith))
lacks x n (suc (suc i)) le l p q same = absurd (omega arith)

pub LacksKey-c : LacksKey two key_c
LacksKey-c i l =
    lacks 99 2 i (omega arith) l (λ e. absurd (omega arith)) (λ e. absurd (omega arith))

pub LacksKey-least : (n : ℕ) → n ≤ 2 → LacksKey (ctx_of n) key_least
LacksKey-least n le i l = lacks 65 n i le l (λ e. absurd (omega arith)) (λ e. absurd (omega arith))

-- The key "A" is smaller than the others.
pub least :
    (n : ℕ)
    → n ≤ 2
    → (i : ℕ) → i < n
    → order (terminated key_least) (item_key bytes (current (ctx_of n) i)) ≡ Ordering.lt
unfolding offset item_len order key_len key_offset load
least n le zero l = refl
least n le (suc zero) l = refl
least n le (suc (suc i)) l = absurd (omega arith)

abbrev pub value_c : Str
value_c = str (69 ∷ 70 ∷ [])

pub LacksKey-three : LacksKey three key_least
unfolding offset item_len key_len key_offset load
LacksKey-three zero l same = absurd (omega (arith, same.same_bytes 0 (omega arith)))
LacksKey-three (suc zero) l same = absurd (omega (arith, same.same_bytes 0 (omega arith)))
LacksKey-three (suc (suc zero)) l same = absurd (omega (arith, same.same_bytes 0 (omega arith)))
LacksKey-three (suc (suc (suc i))) l same = absurd (omega arith)
