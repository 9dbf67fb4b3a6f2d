-- ===== src/Api.antt =====
-- src/pupa.c: the interface of the library, over one global context.
pub mod Init
pub mod Session
pub mod Calls
pub mod Reopen
use pupa.Common.{ℕ, Bool, true, false, Option, none, some, List, ℤ, pos, ◌==◌, if◌then◌else◌}
use pupa.Memory.{Mem}
use pupa.Layout.{Header, pupa_store_init, offset, snapshot_offset, to_size}
use pupa.Item.{Str, View}
use pupa.Context.{Status, ok, error, Ctx, Env}
use pupa.Read.{pupa_store_get, pupa_store_get_values}
use pupa.Write.{pupa_store_set, pupa_store_del}
use pupa.Shm.{Os, Shm, op_type_rw, pupa_shm_init, pupa_shm_fini}

-- `pupa_ctx`, with what `init` and `shm` hold.
pub record Pupa : Type 0 where
  pub init : Bool
  pub shm : Shm
  pub ctx : Ctx

-- What `pupa_init` meets: the system calls, the header and the bytes of the mapped file, and what
-- the local `store_hdr` holds before it is set.
pub record Start : Type 0 where
  pub os : Os
  pub file_hdr : Header
  pub file_mem : Mem
  pub local_hdr : Header

-- `pupa_init` from the assignment of `pupa_ctx.store_hdr` on
unfoldable pub open_store : Start → Header → Shm → Pupa
unfolding offset snapshot_offset
open_store start store_hdr shm =
    let hdr = if shm.exists then start.file_hdr else store_hdr in
    record {
      init = true;
      shm = shm;
      ctx = record {
        store_hdr = hdr;
        mem = start.file_mem;
        store_items = offset hdr.item_section;
        store_items_snapshot = snapshot_offset hdr.item_section;
      };
    }

-- `pupa_init` after `pupa_shm_init`
unfoldable pub init_opened : Start → Header → Pupa → Status × Shm → Status × Pupa
unfolding open_store
init_opened start store_hdr pupa (ok, shm) = (ok, open_store start store_hdr shm)
init_opened start store_hdr pupa (status, shm) = (status, record pupa { shm = shm })

-- `store_hdr` and `shm.size` after the test of `op_type`
unfoldable pub init_size : Start → (key_count op_type : ℕ) → Pupa → Header × ℕ
unfolding pupa_store_init
init_size start key_count op_type pupa =
    let (hdr, size) = pupa_store_init key_count 3 in
    if op_type == op_type_rw then (hdr, to_size size) else (start.local_hdr, pupa.shm.size)

unfoldable pub pupa_init : Start → (key_count op_type : ℕ) → Pupa → Status × Pupa
unfolding init_size init_opened pupa_shm_init
pupa_init start key_count op_type pupa =
    let (store_hdr, size) = init_size start key_count op_type pupa in
    let opened =
      init_opened start store_hdr pupa
        (pupa_shm_init start.os op_type (record (pupa.shm) { size = size })) in
    if pupa.init then (error, pupa) else opened

unfoldable pub pupa_get_by_ver : Pupa → Str → ℤ → Status × Option View × Pupa
unfolding pupa_store_get
pupa_get_by_ver pupa key version =
    let (status, value, ctx) = pupa_store_get pupa.ctx key version in
    (status, value, record pupa { ctx = ctx })

unfoldable pub pupa_get : Pupa → Str → Status × Option View × Pupa
unfolding pupa_store_get
pupa_get pupa key =
    let (status, value, ctx) = pupa_store_get pupa.ctx key (pos 0) in
    (status, value, record pupa { ctx = ctx })

unfoldable pub pupa_get_all_ver : Pupa → Str → Status × List View × Pupa
unfolding pupa_store_get_values
pupa_get_all_ver pupa key =
    let (status, values, ctx) = pupa_store_get_values pupa.ctx key in
    (status, values, record pupa { ctx = ctx })

unfoldable pub set_done : Pupa → Option (Status × Ctx) → Option (Status × Pupa)
set_done pupa none = none
set_done pupa (some (status, ctx)) = some (status, record pupa { ctx = ctx })

unfoldable pub pupa_set : Env → Pupa → Str → Str → Option (Status × Pupa)
unfolding set_done
pupa_set env pupa key value = set_done pupa (pupa_store_set env pupa.ctx key value)

unfoldable pub pupa_del : Env → Pupa → Str → Status × Pupa
unfolding pupa_store_del
pupa_del env pupa key =
    let (status, ctx) = pupa_store_del env pupa.ctx key in (status, record pupa { ctx = ctx })

unfoldable pub pupa_fini : Os → Pupa → Status × Pupa
unfolding pupa_shm_fini
pupa_fini os pupa =
    let closed : Status × Pupa = elim (pupa_shm_fini os) [
      | ok ↦ (ok, record pupa { init = false })
      | status ↦ (status, pupa)
    ] in
    if pupa.init then closed else (ok, pupa)
