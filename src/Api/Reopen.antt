-- ===== src/Api/Reopen.antt =====
-- `pupa_init` on a file that an earlier process has left.
use pupa.Common.{ℕ, ◌<◌, ◌≡◌, refl, true, false, arith}
use pupa.Layout.{offset, snapshot_offset}
use pupa.Context.{Ctx, ok}
use pupa.Store.{IsStore, IsFresh}
use pupa.Store.Keep.{SameItem-refl}
use pupa.Dict.{Dict}
use pupa.Dict.Represents.{Represents}
use pupa.Dict.Refine.{kept-Represents}
use pupa.Shm.{Os}
use pupa.Api.{Pupa, Start, pupa_init}

-- The context over a header and the bytes of a file.
abbrev pub file_ctx : Start → Ctx
file_ctx start = record {
  store_hdr = start.file_hdr;
  mem = start.file_mem;
  store_items = offset start.file_hdr.item_section;
  store_items_snapshot = snapshot_offset start.file_hdr.item_section;
}

-- The system calls succeed on a file that is there.
pub record IsOld (os : Os) : Type 0 where
  pub opened : os.opened ≡ true
  pub stated : os.stated ≡ true
  pub mapped : os.mapped ≡ true
  pub filled : 0 < os.st_size

-- A file holds a store that represents a dictionary.
pub record Holds (start : Start) (d : Dict) : Type 0 where
  pub store : IsStore (file_ctx start)
  pub represents : Represents (file_ctx start) d

-- The library over an old file.
abbrev pub reopened : Start → Pupa
reopened start = record {
  init = true;
  shm = record { mapping = true; size = start.os.st_size; exists = true };
  ctx = file_ctx start;
}

-- `pupa_init` opens an old file with what it holds, whatever the count and the mode.
pub init_old_file :
    (start : Start) (key_count op_type : ℕ) (pupa : Pupa)
    → pupa.init ≡ false
    → IsOld start.os
    → pupa_init start key_count op_type pupa ≡ (ok, reopened start)
unfolding pupa_init
init_old_file start key_count op_type pupa idle old =
    ground (arith, idle, old.opened, old.stated, old.mapped, old.filled)

reopened-IsFresh : (start : Start) → IsFresh (file_ctx start)
reopened-IsFresh start = refl

-- The file that a process leaves.
abbrev pub left : Os → Pupa → Start
left os pupa = record {
  os = os;
  file_hdr = pupa.ctx.store_hdr;
  file_mem = pupa.ctx.mem;
  local_hdr = pupa.ctx.store_hdr;
}

-- A later process finds in the file what the store holds.
pub left-Holds :
    (os : Os) (pupa : Pupa) (d : Dict)
    → IsStore pupa.ctx
    → Represents pupa.ctx d
    → Holds (left os pupa) d
left-Holds os pupa d s rep = record {
  store = record { room = s.room; table = s.table };
  represents =
      kept-Represents pupa.ctx (file_ctx (left os pupa)) d rep refl (λ i l. SameItem-refl _ _ _);
}
