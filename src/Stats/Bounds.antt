-- ===== src/Stats/Bounds.antt =====
-- The buffer of `pupa_store_stats` is large enough.
use Prim.Native.String.{String}
use pupa.Common.{ℕ, ◌+◌, ◌^◌, ◌≤◌, ◌<◌, arith, length}
use pupa.Common.Texts.{codes, decimal, length-append, length-decimal}
use pupa.Layout.{Section}
use pupa.Context.{Ctx}
use pupa.Stats.{section_text, stats_text, pupa_store_stats}

-- The fields of the C struct: `id` is a `uint8_t`, the others are `size_t`.
pub record IsSection (s : Section) : Type 0 where
  pub id : s.id < 2 ^ 8
  pub size : s.size < 2 ^ 64
  pub used : s.used < 2 ^ 64
  pub sec1_offset : s.sec1_offset < 2 ^ 64
  pub sec2_offset : s.sec2_offset < 2 ^ 64

word_digits : (n : ℕ) → n < 2 ^ 64 → length (decimal n) ≤ 20
word_digits n h = length-decimal 19 n (omega arith)

byte_digits : (n : ℕ) → n < 2 ^ 8 → length (decimal n) ≤ 3
byte_digits n h = length-decimal 2 n (omega arith)

section_length :
    (name : String) (s : Section) (closing : String)
    → IsSection s
    → length (section_text name s closing) ≤ length (codes name) + length (codes closing) + 160
unfolding section_text
section_length name s closing b = simp length-append (
    omega (
      arith,
      word_digits s.size b.size,
      word_digits s.used b.used,
      byte_digits s.id b.id,
      word_digits s.sec1_offset b.sec1_offset,
      word_digits s.sec2_offset b.sec2_offset,
    ))

-- For every header with fields in the ranges of their C types, what `pupa_store_stats` prints fits
-- with its '\0' into the 1024 bytes of `buf`.
pub stats_fit :
    (ctx : Ctx)
    → IsSection ctx.store_hdr.item_section
    → IsSection ctx.store_hdr.key_section
    → IsSection ctx.store_hdr.value_section
    → length (pupa_store_stats ctx).1 + 1 ≤ 1024
unfolding pupa_store_stats stats_text
stats_fit ctx i k v = simp length-append (
    omega (
      arith,
      section_length "item" ctx.store_hdr.item_section "\t},\n" i,
      section_length "key" ctx.store_hdr.key_section "\t},\n" k,
      section_length "value" ctx.store_hdr.value_section "\t}\n" v,
    ))
