-- ===== src/Dict.antt =====
-- What a store promises, without its layout: a dictionary that keeps the last versions of each key.
--
-- Keys and values end with the '\0' that the store keeps.
pub mod Versions
pub mod Represents
pub mod Keys
pub mod Writes
pub mod Contents
pub mod Refine
pub mod Settable
pub mod Atomic
pub mod Run
use pupa.Common.{
  ℕ, zero, suc, ◌-◌, Bool, true, false, ◌&&◌, Option, none, some, List, [], ◌∷◌, ltb, ◌==◌,
  if◌then◌else◌, take, get_elem?,
}
use pupa.Common.Texts.{Text, bytes_text, same_text}
use pupa.Item.{Str}
use pupa.Context.{Status, ok, not_found, not_found_value, exceed_maximum_num}

abbrev pub str_text : Str → Text
str_text s = bytes_text s.len s.bytes

-- The versions of a key, the newest first. A key that is not there has none.
abbrev pub Dict : Type 0
Dict = Text → List Text

-- A new version goes in front, and no more than `max` are kept.
unfoldable pub dict_set : ℕ → Dict → Text → Text → Dict
dict_set max d key value other = if same_text other key then take max (value ∷ d key) else d other

unfoldable pub dict_del : Dict → Text → Dict
dict_del d key other = if same_text other key then [] else d other

unfoldable pub dict_version : List Text → ℕ → Status × Option Text
dict_version [] v = (not_found, none)
dict_version (t ∷ ts) v = elim (get_elem? (t ∷ ts) (v - 1)) [
  | none ↦ (not_found_value, none)
  | some text ↦ (ok, some text)
]

-- A lookup of version `v`, which counts from 1.
unfoldable pub dict_get : ℕ → Dict → Text → ℕ → Status × Option Text
unfolding dict_version
dict_get max d key v = if ltb max v then (exceed_maximum_num, none) else dict_version (d key) v
