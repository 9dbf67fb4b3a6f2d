-- ===== src/Layout/Switch.antt =====
-- Switching a section to its snapshot, and filling it.
use pupa.Common.{ℕ, ◌+◌, ◌≡◌, arith}
use pupa.Layout.{Section, snapshot_id, offset, snapshot_offset, free_offset}

-- A switched section reads what was its snapshot, and the other way round.
pub offset-switch :
    (s : Section) (u : ℕ) → offset (record s { id = snapshot_id s; used = u }) ≡ snapshot_offset s
unfolding offset snapshot_offset snapshot_id
offset-switch s u = ground arith

pub snapshot_offset-switch :
    (s : Section) (u : ℕ) → snapshot_offset (record s { id = snapshot_id s; used = u }) ≡ offset s
unfolding offset snapshot_offset snapshot_id
snapshot_offset-switch s u = ground arith

-- The area does not move when it fills up.
pub offset-used : (s : Section) (u : ℕ) → offset (record s { used = u }) ≡ offset s
unfolding offset
offset-used s u = ground arith

pub free_offset_lem : (s : Section) → free_offset s ≡ offset s + s.used
unfolding offset free_offset
free_offset_lem s = ground arith
