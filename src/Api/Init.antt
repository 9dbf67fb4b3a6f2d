-- ===== src/Api/Init.antt =====
-- When `pupa_init` succeeds, and the store that it makes in a new file.
use pupa.Common.{ℕ, ◌<◌, ◌≡◌, ◌≢◌, ◌↔◌, ◌⊎◌, inl, inr, refl, true, false, arith, Bool-cases}
use pupa.Layout.{Header}
use pupa.Context.{Status, ok, error, overflow, not_found, not_found_value, exceed_maximum_num}
use pupa.Shm.{Os, Shm, op_type_ro, pupa_shm_init}
use pupa.Api.{Pupa, Start, pupa_init, init_size, init_opened}

-- The system calls that `pupa_init` makes for `op_type` succeed, and a file that is only read is not
-- empty.
pub record Opens (os : Os) (op_type : ℕ) : Type 0 where
  pub opened : os.opened ≡ true
  pub stated : os.stated ≡ true
  pub mapped : os.mapped ≡ true
  pub sized : (0 < os.st_size) ⊎ ((op_type ≢ op_type_ro) × (os.truncated ≡ true))

shm_ok_iff :
    (os : Os) (op_type : ℕ) (shm : Shm) → ((pupa_shm_init os op_type shm).0 ≡ ok) ↔ Opens os op_type
unfolding pupa_shm_init
shm_ok_iff os op_type shm = (
  (λ h. record {
    opened = ground arith;
    stated = ground arith;
    mapped = ground arith;
    sized = ground arith;
  }),
  λ o. ground (arith, o.opened, o.stated, o.mapped, o.sized),
)

opened_ok_iff :
    (start : Start) (store_hdr : Header) (pupa : Pupa) (r : Status × Shm)
    → ((init_opened start store_hdr pupa r).0 ≡ ok) ↔ (r.0 ≡ ok)
unfolding init_opened
opened_ok_iff start store_hdr pupa (ok, shm) = ((λ h. refl), λ h. refl)
opened_ok_iff start store_hdr pupa (error, shm) = ((λ h. h), λ h. h)
opened_ok_iff start store_hdr pupa (overflow, shm) = ((λ h. h), λ h. h)
opened_ok_iff start store_hdr pupa (not_found, shm) = ((λ h. h), λ h. h)
opened_ok_iff start store_hdr pupa (not_found_value, shm) = ((λ h. h), λ h. h)
opened_ok_iff start store_hdr pupa (exceed_maximum_num, shm) = ((λ h. h), λ h. h)

-- `pupa_init` succeeds if and only if the library is not initialised yet and its system calls
-- succeed, where a file that is only read must not be empty.
pub init_ok_iff :
    (start : Start) (key_count op_type : ℕ) (pupa : Pupa)
    → ((pupa_init start key_count op_type pupa).0 ≡ ok)
      ↔ ((pupa.init ≡ false) × Opens start.os op_type)
unfolding pupa_init
init_ok_iff start key_count op_type pupa =
    let (store_hdr, size) = init_size start key_count op_type pupa in
    let shm = record (pupa.shm) { size = size } in
    let (sound, complete) = shm_ok_iff start.os op_type shm in
    let (up, down) = opened_ok_iff start store_hdr pupa (pupa_shm_init start.os op_type shm) in
    elim (Bool-cases pupa.init) [
      | inl e ↦ ((λ h. absurd (ground (arith, e))), λ (f, o). absurd (ground (arith, e)))
      | inr e ↦ (
        (λ h. (e, sound (up (ground (arith, e))))),
        λ (f, o). ground (arith, e, down (complete o)),
      )
    ]
