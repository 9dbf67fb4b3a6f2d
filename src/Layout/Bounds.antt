-- ===== src/Layout/Bounds.antt =====
-- Where `pupa_store_init` puts the areas, and what fits into them.
use pupa.Common.{ℕ, ◌+◌, ◌*◌, ◌^◌, ◌≤◌, ◌<◌, ◌≡◌, ap, refl, ◌∙◌, arith, step_le}
use pupa.Layout.{Section, Header, pupa_store_init, advance, behind, init_section, item_len}

-- The areas of a section lie one behind the other from `start` on, each of `bytes` bytes, the first
-- one is current, and nothing of it is used.
pub record IsLaidOut (s : Section) (start bytes size : ℕ) : Type 0 where
  pub current : s.id ≡ 1
  pub capacity : s.size ≡ size
  pub empty : s.used ≡ 0
  pub first : s.sec1_offset ≡ start
  pub second : s.sec2_offset ≡ start + bytes

advance_exact : (x n : ℕ) → x + n < 2 ^ 31 → advance x n ≡ x + n
unfolding advance
advance_exact x n h = ground arith

behind_exact : (x n : ℕ) → x + 2 * n < 2 ^ 31 → behind x n ≡ x + 2 * n
unfolding behind
behind_exact x n h =
    let first = advance_exact x n (omega arith) in
    rw first (omega (arith, advance_exact (x + n) n (omega arith)))

init_section-IsLaidOut :
    (x start size bytes : ℕ)
    → x ≡ start
    → start + bytes < 2 ^ 31
    → IsLaidOut (init_section x size bytes) start bytes size
unfolding init_section
init_section-IsLaidOut x start size bytes e h = record {
  current = refl;
  capacity = refl;
  empty = refl;
  first = ground arith;
  second = ground (arith, advance_exact x bytes);
}

too_many : (k v : ℕ) → 1 < k → 0 < v → k * 16 + v * 16 < k * (16 + v * 16)
too_many k v p q = let twice : 1 * v + v ≤ k * v = step_le 1 k v p in grind arith

-- The size of the file for `key_count` keys of `max_ver_num` versions.
abbrev pub file_size : ℕ → ℕ → ℕ
file_size key_count max_ver_num =
    128 + 2 * (key_count * 16 + max_ver_num * 16) + 2 * (key_count * 64) + 2 * (key_count * 256)

module _ (key_count max_ver_num : ℕ) (small : file_size key_count max_ver_num < 2 ^ 31) where
  abbrev hdr : Header
  hdr = (pupa_store_init key_count max_ver_num).0

  abbrev items : ℕ
  items = key_count * 16 + max_ver_num * 16

  abbrev keys_start : ℕ
  keys_start = 128 + 2 * items

  abbrev values_start : ℕ
  values_start = keys_start + 2 * (key_count * 64)

  key_start : behind 128 items ≡ keys_start
  key_start = behind_exact 128 items (omega arith)

  value_start : behind (behind 128 items) (key_count * 64) ≡ values_start
  value_start = rw key_start (behind_exact keys_start (key_count * 64) (omega arith))

  -- While the size of the file is below 2 ^ 31, `pupa_store_init` puts the three pairs of areas one
  -- behind the other with nothing between them, the header first, each section empty with the first
  -- area current, and returns the size of the file; the `int32_t` in between loses nothing.
  pub init_areas :
      (hdr.max_ver_num ≡ max_ver_num)
      × IsLaidOut hdr.item_section 128 items key_count
      × IsLaidOut hdr.key_section keys_start (key_count * 64) (64 * key_count)
      × IsLaidOut hdr.value_section values_start (key_count * 256) (256 * key_count)
      × ((pupa_store_init key_count max_ver_num).1 ≡ file_size key_count max_ver_num)
  unfolding pupa_store_init
  init_areas = (
    refl,
    init_section-IsLaidOut 128 128 key_count items refl (omega arith),
    init_section-IsLaidOut _ keys_start (64 * key_count) (key_count * 64) key_start (omega arith),
    init_section-IsLaidOut _ values_start (256 * key_count) (key_count * 256) value_start
        (omega arith),
    ap (λ (x : ℕ). behind x (key_count * 256)) value_start
        ∙ behind_exact values_start (key_count * 256) (omega arith),
  )

  -- For two keys or more with at least one version, in a file smaller than 2 ^ 31 bytes, the
  -- `key_count` items that the item section admits do not fit into one of its areas: they reach into
  -- the other area of the pair.
  pub items_overlap :
      1 < key_count
      → 0 < max_ver_num
      → hdr.item_section.sec2_offset
        < hdr.item_section.sec1_offset + hdr.item_section.size * item_len hdr
  unfolding item_len
  items_overlap two versions =
      let (m, i, ks, vs, total) = init_areas in
      rw (m, i.capacity, i.first, i.second)
        (omega (arith, too_many key_count max_ver_num two versions))
