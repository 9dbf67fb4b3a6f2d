-- ===== src/Write/Add.antt =====
-- The memory after the two halves of `pupa_store_item_add`.
use pupa.Common.{ℕ, ◌+◌, ◌^◌, ◌≤◌, ◌<◌, ◌≡◌, ◌∙◌, ◌⊎◌, arith}
use pupa.Memory.{
  Mem, put, store, put_outside, load_of_bytes, load-store_self, load-put_apart, load, byte,
}
use pupa.Item.{
  Str, key_offset, key_len, val_cnt, value_offset, value_len, set_key_offset, set_key_len,
  set_val_cnt, set_value_offset, set_value_len,
}
use pupa.Context.{Ctx}
use pupa.Write.{write_str, write_key, link_value, add_value, last_value}
use pupa.Write.Strings.{terminated, write_str_inside, write_str_outside}

module _ (ctx : Ctx) (item p offset : ℕ) (key : Str) (apart : item + 16 ≤ p)
    (short : key.len + 1 < 2 ^ 31) (small : offset + ctx.store_hdr.key_section.used < 2 ^ 63) where
  abbrev key_linked : Mem
  key_linked =
      set_key_offset (set_key_len ctx.mem item (key.len + 1)) item
        (offset + ctx.store_hdr.key_section.used)

  pub write_key_outside :
      (x : ℕ)
      → (x < item) ⊎ (item + 12 ≤ x)
      → (x < p) ⊎ (p + (key.len + 1) ≤ x)
      → (write_key ctx item p offset key).mem x ≡ ctx.mem x
  unfolding write_key set_key_offset set_key_len store
  write_key_outside x h k =
      write_str_outside key_linked p key x k
      ∙ put_outside (set_key_len ctx.mem item (key.len + 1)) item
          (byte (offset + ctx.store_hdr.key_section.used)) 8 x (omega arith)
      ∙ put_outside ctx.mem (item + 8) (byte (key.len + 1)) 4 x (omega arith)

  pub write_key_bytes :
      (x i : ℕ)
      → x ≡ p + i
      → i < key.len + 1
      → (write_key ctx item p offset key).mem x ≡ (terminated key).bytes i
  unfolding write_key
  write_key_bytes x i e h = write_str_inside key_linked p key x i e h

  pub write_key-key_len : key_len (write_key ctx item p offset key).mem item ≡ key.len + 1
  unfolding key_len write_key set_key_offset set_key_len write_str put store
  write_key-key_len = load_of_bytes 4 _ (item + 8) (key.len + 1) (omega arith) (λ i l. ground arith)

  pub write_key-key_offset :
      key_offset (write_key ctx item p offset key).mem item
      ≡ offset + ctx.store_hdr.key_section.used
  unfolding key_offset write_key set_key_offset set_key_len write_str put store
  write_key-key_offset = load_of_bytes 8 _ item _ (omega arith) (λ i l. ground arith)

  pub write_key-used :
      (write_key ctx item p offset key).store_hdr.key_section.used
      ≡ ctx.store_hdr.key_section.used + (key.len + 1)
  unfolding write_key
  write_key-used = omega (arith, write_key-key_len)

module _ (ctx : Ctx) (item p offset : ℕ) (value : Str) (apart : last_value ctx item + 16 ≤ p)
    (short : value.len + 1 < 2 ^ 31)
    (small : offset + ctx.store_hdr.value_section.used < 2 ^ 63) where
  abbrev val : ℕ
  val = last_value ctx item

  abbrev value_written : Mem
  value_written = write_str ctx.mem p value

  abbrev value_pointed : Mem
  value_pointed = set_value_offset value_written val (offset + ctx.store_hdr.value_section.used)

  abbrev value_linked : Mem
  value_linked = set_value_len value_pointed val (value.len + 1)

  pub add_value_outside :
      (x : ℕ)
      → (x < item + 12) ⊎ (item + 16 ≤ x)
      → (x < val) ⊎ (val + 12 ≤ x)
      → (x < p) ⊎ (p + (value.len + 1) ≤ x)
      → (add_value ctx item p offset value).mem x ≡ ctx.mem x
  unfolding add_value link_value set_value_offset set_value_len set_val_cnt store
  add_value_outside x h k l =
      put_outside value_linked (item + 12) (byte 1) 4 x (omega arith)
      ∙ put_outside value_pointed (val + 8) (byte (value.len + 1)) 4 x (omega arith)
      ∙ put_outside value_written val (byte (offset + ctx.store_hdr.value_section.used)) 8 x
          (omega arith)
      ∙ write_str_outside ctx.mem p value x l

  pub add_value_bytes :
      (x i : ℕ)
      → x ≡ p + i
      → i < value.len + 1
      → (add_value ctx item p offset value).mem x ≡ (terminated value).bytes i
  unfolding add_value link_value set_value_offset set_value_len set_val_cnt store
  add_value_bytes x i e h =
      put_outside value_linked (item + 12) (byte 1) 4 x (omega arith)
      ∙ put_outside value_pointed (val + 8) (byte (value.len + 1)) 4 x (omega arith)
      ∙ put_outside value_written val (byte (offset + ctx.store_hdr.value_section.used)) 8 x
          (omega arith)
      ∙ write_str_inside ctx.mem p value x i e h

  pub add_value-val_cnt : val_cnt (add_value ctx item p offset value).mem item ≡ 1
  unfolding add_value val_cnt set_val_cnt
  add_value-val_cnt = load-store_self 4 value_linked (item + 12) 1 (omega arith)

  pub link_value-value_len : value_len value_linked val ≡ value.len + 1
  unfolding value_len set_value_len
  link_value-value_len = load-store_self 4 value_pointed (val + 8) (value.len + 1) (omega arith)

  pub add_value-value_len : value_len (add_value ctx item p offset value).mem val ≡ value.len + 1
  unfolding add_value value_len link_value set_val_cnt store
  add_value-value_len =
      load-put_apart 4 value_linked (item + 12) (byte 1) 4 (val + 8) (omega arith)
      ∙ link_value-value_len

  pub add_value-value_offset :
      value_offset (add_value ctx item p offset value).mem val
      ≡ offset + ctx.store_hdr.value_section.used
  unfolding add_value value_offset link_value set_val_cnt set_value_len set_value_offset load store
  add_value-value_offset =
      load-put_apart 8 value_linked (item + 12) (byte 1) 4 val (omega arith)
      ∙ load-put_apart 8 value_pointed (val + 8) (byte (value.len + 1)) 4 val (omega arith)
      ∙ load-store_self 8 value_written val _ (omega arith)

  pub add_value-used :
      (add_value ctx item p offset value).store_hdr.value_section.used
      ≡ ctx.store_hdr.value_section.used + (value.len + 1)
  unfolding add_value link_value
  add_value-used = omega (arith, link_value-value_len)
