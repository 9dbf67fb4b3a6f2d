-- ===== src/Write/Strings.antt =====
-- What `memcpy(p, data, len); p[len] = '\0'` leaves behind.
use pupa.Common.{ℕ, ◌+◌, ◌≤◌, ◌<◌, ◌≡◌, ◌∙◌, ◌⊎◌, arith, ltb, if◌then◌else◌}
use pupa.Memory.{Mem, put, put_outside}
use pupa.Item.{Str}
use pupa.Write.{write_str}

-- The string as it is stored: with a '\0' that counts.
abbrev pub terminated : Str → Str
terminated s = record { len = s.len + 1; bytes = λ i. if ltb i s.len then s.bytes i else 0 }

module _ (m : Mem) (p : ℕ) (s : Str) where
  pub write_str_inside :
      (x i : ℕ) → x ≡ p + i → i < s.len + 1 → write_str m p s x ≡ (terminated s).bytes i
  unfolding write_str put
  write_str_inside x i e h = ground arith

  pub write_str_outside : (x : ℕ) → (x < p) ⊎ (p + (s.len + 1) ≤ x) → write_str m p s x ≡ m x
  unfolding write_str
  write_str_outside x h =
      put_outside (put m p s.bytes s.len) (p + s.len) (λ _. 0) 1 x (omega arith)
      ∙ put_outside m p s.bytes s.len x (omega arith)
