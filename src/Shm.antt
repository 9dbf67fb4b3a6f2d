-- ===== src/Shm.antt =====
-- src/pupa_shm.c: the file is opened, sized and mapped. What the system calls report is an input.
use pupa.Common.{ℕ, Bool, true, false, ◌==◌, if◌then◌else◌}
use pupa.Context.{Status, ok, error}

abbrev pub op_type_ro : ℕ
op_type_ro = 1

abbrev pub op_type_rw : ℕ
op_type_rw = 2

-- Whether open, fstat, ftruncate, mmap and munmap succeed, and the `st_size` that fstat reports.
pub record Os : Type 0 where
  pub opened : Bool
  pub stated : Bool
  pub st_size : ℕ
  pub truncated : Bool
  pub mapped : Bool
  pub unmapped : Bool

-- `pupa_shm_s`, without the path; `mapping` is whether `data` is one.
pub record Shm : Type 0 where
  pub mapping : Bool
  pub size : ℕ
  pub exists : Bool

-- The `mmap` call and the test of its result.
unfoldable pub map_file : Os → Shm → Status × Shm
map_file os shm =
    if os.mapped
    then (ok, record shm { mapping = true })
    else (error, record shm { mapping = false })

-- `pupa_shm_init` with PUPA_OP_TYPE_RO, after a successful fstat
unfoldable pub init_ro : Os → Shm → Status × Shm
unfolding map_file
init_ro os shm =
    if os.st_size == 0
    then (error, shm)
    else map_file os (record shm { size = os.st_size; exists = true })

-- `pupa_shm_init` with another `op_type`, after a successful fstat
unfoldable pub init_rw : Os → Shm → Status × Shm
unfolding map_file
init_rw os shm =
    if os.st_size == 0
    then (if os.truncated
        then map_file os (record shm { exists = false })
        else (error, record shm { exists = false }))
    else map_file os (record shm { size = os.st_size; exists = true })

unfoldable pub pupa_shm_init : Os → (op_type : ℕ) → Shm → Status × Shm
unfolding init_ro init_rw
pupa_shm_init os op_type shm =
    if os.opened
    then (if os.stated
        then (if op_type == op_type_ro then init_ro os shm else init_rw os shm)
        else (error, shm))
    else (error, shm)

unfoldable pub pupa_shm_fini : Os → Status
pupa_shm_fini os = if os.unmapped then ok else error
