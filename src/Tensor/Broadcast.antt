-- ===== src/Tensor/Broadcast.antt =====
-- `HasBroadcastDim` against what it looks for.
use infini_ops.Prelude.{
  ℕ, zero, suc, ◌+◌, ◌≡◌, ◌≢◌, refl, ap, ◌∙◌, List, [], ◌∷◌, Bool, true, false, ◌&&◌, ◌||◌, not,
  arith, length, get_elem?, drop, some, ok, ◌==◌, if◌then◌else◌, Bool-cases, inl, inr,
}
use infini_ops.Prelude.Products.{get_elem?_below}
use infini_ops.Tensor.{Tensor, any_broadcast, has_broadcast_dim}
use infini_ops.Tensor.Strides.{drop-get}
use infini_ops.Tensor.Contiguous.{IsView, drop_past}

-- Some dimension of more or less than one element has stride 0.
abbrev pub is_broadcast : List ℕ → List ℕ → Bool
is_broadcast (s ∷ ss) (d ∷ ds) = (not (s == 1) && d == 0) || is_broadcast ss ds
is_broadcast _ _ = false

-- The same among the dimensions before the first of size 1.
abbrev pub broadcast_before_unit : List ℕ → List ℕ → Bool
broadcast_before_unit (s ∷ ss) (d ∷ ds) =
    if s == 1 then false else (d == 0 || broadcast_before_unit ss ds)
broadcast_before_unit _ _ = false

any_broadcast-suc :
    (t : Tensor) (rounds i s d : ℕ)
    → get_elem? t.shape i ≡ some s
    → get_elem? t.strides i ≡ some d
    → any_broadcast t (suc rounds) i ≡ (
        if s == 1
        then any_broadcast t rounds i
        else if d == 0
        then ok true
        else any_broadcast t rounds (i + 1))
unfolding any_broadcast
any_broadcast-suc t rounds i s d hs hd = rw (hs, hd)

-- A dimension of size 1 is looked at again in every round that is left.
any_broadcast_stuck :
    (t : Tensor) (rounds i d : ℕ)
    → get_elem? t.shape i ≡ some 1
    → get_elem? t.strides i ≡ some d
    → any_broadcast t rounds i ≡ ok false
any_broadcast_stuck t zero i d hs hd = unfold any_broadcast in refl
any_broadcast_stuck t (suc rounds) i d hs hd =
    any_broadcast-suc t rounds i 1 d hs hd ∙ any_broadcast_stuck t rounds i d hs hd

module _ (t : Tensor) (v : IsView t) where
  before_step :
      (i rounds s d : ℕ)
      → get_elem? t.shape i ≡ some s
      → get_elem? t.strides i ≡ some d
      → any_broadcast t rounds (suc i)
        ≡ ok (broadcast_before_unit (drop (suc i) t.shape) (drop (suc i) t.strides))
      → any_broadcast t (suc rounds) i
        ≡ ok (broadcast_before_unit (drop i t.shape) (drop i t.strides))
  before_step i rounds s d hs hd rest =
      let shapes = drop-get t.shape i s hs in
      let steps = drop-get t.strides i d hd in
      let next = ap (any_broadcast t rounds) {x = i + 1} {y = suc i} (omega arith) ∙ rest in
      any_broadcast-suc t rounds i s d hs hd ∙ elim (Bool-cases (s == 1)) [
        | inl unit ↦
            let one : s ≡ 1 = ground arith in
            let unit_here : get_elem? t.shape i ≡ some 1 = hs ∙ ap some one in
            rw (unit, shapes, steps, unit) (any_broadcast_stuck t rounds i d unit_here hd)
        | inr other ↦ rw (other, shapes, steps, other, next) (ground arith)
      ]

  any_broadcast-before :
      (rounds i : ℕ)
      → i + rounds ≡ length t.shape
      → any_broadcast t rounds i ≡ ok (broadcast_before_unit (drop i t.shape) (drop i t.strides))
  any_broadcast-before zero i h = unfold any_broadcast in rw (drop_past t.shape i (omega arith))
  any_broadcast-before (suc rounds) i h =
      let same = v.same_length in
      let (s, hs) = get_elem?_below t.shape i (omega arith) in
      let (d, hd) = get_elem?_below t.strides i (omega arith) in
      before_step i rounds s d hs hd (any_broadcast-before rounds (suc i) (omega arith))

abbrev pub NoUnit : List ℕ → Type 0
NoUnit [] = Unit {0}
NoUnit (s ∷ ss) = (s ≢ 1) × NoUnit ss

before_unit_sound :
    (ss ds : List ℕ) → broadcast_before_unit ss ds ≡ true → is_broadcast ss ds ≡ true
before_unit_sound [] ds h = h
before_unit_sound (s ∷ ss) [] h = h
before_unit_sound (s ∷ ss) (d ∷ ds) h = ground (arith, before_unit_sound ss ds)

before_unit-NoUnit : (ss ds : List ℕ) → NoUnit ss → broadcast_before_unit ss ds ≡ is_broadcast ss ds
before_unit-NoUnit [] ds n = refl
before_unit-NoUnit (s ∷ ss) [] n = refl
before_unit-NoUnit (s ∷ ss) (d ∷ ds) n = ground (arith, before_unit-NoUnit ss ds n.1)

before_unit-first : (ss ds : List ℕ) → get_elem? ss 0 ≡ some 1 → broadcast_before_unit ss ds ≡ false
before_unit-first [] ds h = refl
before_unit-first (s ∷ ss) [] h = refl
before_unit-first (s ∷ ss) (d ∷ ds) h = ground arith

-- On a view `HasBroadcastDim` ends with an answer. A yes is right: some dimension of another size
-- than 1 has stride 0. A no is right if no dimension has size 1. If the first has, the answer is no
-- whatever the other dimensions are.
pub has_broadcast_dim_answer :
    (t : Tensor)
    → IsView t
    → (b : Bool) × (has_broadcast_dim t ≡ ok b)
      × (b ≡ true → is_broadcast t.shape t.strides ≡ true)
      × (NoUnit t.shape → b ≡ is_broadcast t.shape t.strides)
      × (get_elem? t.shape 0 ≡ some 1 → b ≡ false)
unfolding has_broadcast_dim
has_broadcast_dim_answer t v = (
  broadcast_before_unit t.shape t.strides,
  any_broadcast-before t v (length t.shape) 0 (omega arith),
  before_unit_sound t.shape t.strides,
  before_unit-NoUnit t.shape t.strides,
  before_unit-first t.shape t.strides,
)
