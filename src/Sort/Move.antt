-- ===== src/Sort/Move.antt =====
-- What `insert_last` does to the elements: those in front of the place stay, those behind it go one
-- further, and the last one takes the place.
use native.Mathlib.Decide.{dec_lt}
use pupa.Common.{
  ℕ, ◌+◌, ◌-◌, ◌*◌, ◌≤◌, ◌<◌, ◌≡◌, ◌∙◌, ◌⊎◌, inl, inr, sym, refl, arith, ltb, Bool-cases, step_le,
  ap, lt→ltb, ltb→lt,
}
use pupa.Memory.{Mem, put, copy, put_inside, put_outside, copy_inside, copy_outside}
use pupa.Item.Block.{SameBlock}
use pupa.Sort.{insert_last}

module _ (m : Mem) (base size count pos : ℕ) (le : pos ≤ count) where
  abbrev moved : Mem
  moved = copy m (base + (pos + 1) * size) (base + pos * size) ((count - pos) * size)

  gap : (count - pos) * size + pos * size ≡ count * size
  gap = grind arith

  next : (pos + 1) * size ≡ pos * size + size
  next = grind arith

  abbrev last_bytes : ℕ → ℕ
  last_bytes i = m (base + count * size + i)

  -- What the function leaves if the element is not in its place yet.
  placed :
      (x : ℕ)
      → pos < count
      → insert_last m base size count pos x ≡ put moved (base + pos * size) last_bytes size x
  unfolding insert_last
  placed x h = rw (lt→ltb pos count h) refl

  unmoved : (x : ℕ) → ¬ (pos < count) → insert_last m base size count pos x ≡ m x
  unfolding insert_last
  unmoved x h = elim (Bool-cases (ltb pos count)) [
    | inl e ↦ absurd (h (ltb→lt pos count e))
    | inr e ↦ rw e refl
  ]

  -- Bytes outside of the elements from the place on stay.
  outside :
      (x : ℕ)
      → (x < base + pos * size) ⊎ (base + count * size + size ≤ x)
      → insert_last m base size count pos x ≡ m x
  outside x h = elim (dec_lt pos count) [
    | no p ↦ unmoved x p
    | yes p ↦
        placed x p
        ∙ put_outside moved (base + pos * size) last_bytes size x
            (omega (arith, gap, next, step_le pos count size p))
        ∙ copy_outside m (base + (pos + 1) * size) (base + pos * size) ((count - pos) * size) x
            (omega (arith, gap, next))
  ]

  -- The elements in front of the place stay.
  pub insert_below :
      (i : ℕ)
      → i < pos
      → SameBlock size m (base + i * size) (insert_last m base size count pos) (base + i * size)
  insert_below i l x y j ex ey h =
      let e : x ≡ y = omega arith in ap m e ∙ sym (outside y (omega (arith, step_le i pos size l)))

  -- The last element takes the place.
  pub insert_at :
      SameBlock size m (base + count * size) (insert_last m base size count pos) (base + pos * size)
  insert_at x y j ex ey h = elim (dec_lt pos count) [
    | yes p ↦
        ap m ex ∙ sym (placed y p ∙ put_inside moved (base + pos * size) last_bytes size y j ey h)
    | no p ↦
        let c : pos ≡ count = omega arith in
        let e : x ≡ y = omega (arith, ap (λ (t : ℕ). t * size) c) in ap m e ∙ sym (unmoved y p)
  ]

  -- The elements from the place on go one further.
  pub insert_above :
      (i : ℕ)
      → pos ≤ i
      → i < count
      → SameBlock size m
          (base + i * size)
          (insert_last m base size count pos)
          (base + (i + 1) * size)
  insert_above i l l' x y j ex ey h =
      let p : pos < count = omega arith in
      let up : (i + 1) * size ≡ i * size + size = grind arith in
      let low : pos * size ≤ i * size = grind arith in
      let high : i * size + size ≤ count * size = step_le i count size l' in
      let k = y - (base + (pos + 1) * size) in
      let e : x ≡ base + pos * size + k = omega (arith, next) in
      ap m e
      ∙ sym (
          placed y p
          ∙ put_outside moved (base + pos * size) last_bytes size y (omega (arith, next))
          ∙ copy_inside m (base + (pos + 1) * size) (base + pos * size) ((count - pos) * size) y k
              (omega (arith, next)) (omega (arith, gap, next)))

  -- Bytes outside of the array stay.
  pub insert_outside :
      (x : ℕ)
      → (x < base) ⊎ (base + (count + 1) * size ≤ x)
      → insert_last m base size count pos x ≡ m x
  insert_outside x h =
      let e : (count + 1) * size ≡ count * size + size = grind arith in outside x (omega arith)
