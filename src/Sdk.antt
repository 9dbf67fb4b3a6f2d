-- ===== src/Sdk.antt =====
-- The bindings under sdk: how they hand strings to the library and back.
pub mod Lua
pub mod Java
pub mod Php
pub mod Gets
use pupa.Common.{ℕ, zero, suc, ◌+◌, ◌-◌, List, [], ◌∷◌, Option, none, some, ◌==◌, if◌then◌else◌}
use pupa.Common.Texts.{Text}
use pupa.Item.{Str, View}
use pupa.Api.{Pupa}
use pupa.CommandLine.{byte_at, printed}

abbrev pub strlen : Text → ℕ
strlen [] = 0
strlen (c ∷ cs) = let rest = strlen cs in if c == 0 then 0 else suc rest

-- `data`, and `len = strlen(data)`, for a string of the language, which may have a '\0' in it.
abbrev pub c_arg : Text → Str
c_arg t = record { len = strlen t; bytes = byte_at t }

-- The C string at `data` of a value, up to its '\0', which lies in the mapping. The bytes of the header
-- (`a` below 128) stand in a record of their own and are not read here.
abbrev pub string_at : Pupa → ℕ → Text
string_at pupa a = printed (pupa.shm.size - a) (λ i. pupa.ctx.mem (a + i))

-- The string of a value that a successful lookup sets.
abbrev pub value_string : Pupa → Option View → Text
value_string pupa none = []
value_string pupa (some w) = string_at pupa w.offset
