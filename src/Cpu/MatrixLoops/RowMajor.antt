-- ===== src/Cpu/MatrixLoops/RowMajor.antt =====
-- A row-major output has a place for each element.
use infini_ops.Prelude.{ℕ, ◌+◌, ◌*◌, ◌<◌, ◌≤◌, ◌^◌, ◌≡◌, ap, sym, ◌∙◌, arith, dec_lt}
use infini_ops.Cpu.MatrixLoops.{Arithmetic, MatrixLayout, offset}
use infini_ops.Cpu.MatrixLoops.Laws.{IsSeparate}

pub next_row : (q q' n : ℕ) → q < q' → q * n + n ≤ q' * n
next_row q q' n h = grind arith

-- A quotient and a remainder are found back.
pub parts_unique :
    (n q r q' r' : ℕ) → r < n → r' < n → q * n + r ≡ q' * n + r' → (q ≡ q') × (r ≡ r')
parts_unique n q r q' r' h h' e = elim (dec_lt q q') [
  | yes lt ↦ absurd (omega (arith, next_row q q' n lt))
  | no nlt ↦ elim (dec_lt q' q) [
    | yes lt ↦ absurd (omega (arith, next_row q' q n lt))
    | no nlt' ↦ let same : q ≡ q' = omega arith in (same, omega (arith, ap (λ (t : ℕ). t * n) same))
  ]
]

-- An offset is the number of the element.
pub offset-row_major :
    (m n count batch i j : ℕ)
    → batch < count
    → i < m
    → j < n
    → count * (m * n) < 2 ^ 64
    → offset batch (m * n) i n j 1 ≡ batch * (m * n) + (i * n + j)
offset-row_major m n count batch i j hb hi hj small =
    let row : i * n + n ≤ m * n = next_row i m n hi in
    let slab : batch * (m * n) + m * n ≤ count * (m * n) = next_row batch count (m * n) hb in
    let p : ℕ = m * n in let q : ℕ = batch * (m * n) in let r : ℕ = i * n in omega arith

-- It lies below the number of elements.
pub place_below :
    (m n count batch i j : ℕ)
    → batch < count
    → i < m
    → j < n
    → batch * (m * n) + (i * n + j) < count * (m * n)
place_below m n count batch i j hb hi hj =
    let row : i * n + n ≤ m * n = next_row i m n hi in
    let slab : batch * (m * n) + m * n ≤ count * (m * n) = next_row batch count (m * n) hb in
    let p : ℕ = m * n in let q : ℕ = batch * (m * n) in let r : ℕ = i * n in omega arith

module _ {T F : Type 0} (f : Arithmetic T F) (s : MatrixLayout) (a b : ℕ → T) where
  -- The strides of a row-major batch of matrices, or of one matrix.
  pub row_major-IsSeparate :
      (finish : ℕ → F → T → T)
      → s.stride_c_n ≡ 1
      → s.stride_c_m ≡ s.n
      → s.batch_stride_c ≡ s.m * s.n
      → s.batch_count * (s.m * s.n) < 2 ^ 64
      → IsSeparate f s a b finish
  row_major-IsSeparate finish h1 h2 h3 small batch i j batch' i' j' r r' e =
      let e' : offset batch (s.m * s.n) i s.n j 1 ≡ offset batch' (s.m * s.n) i' s.n j' 1 =
        sym (λ t. offset batch (h3 t) i (h2 t) j (h1 t))
        ∙ e
        ∙ (λ t. offset batch' (h3 t) i' (h2 t) j' (h1 t)) in
      let sums : batch * (s.m * s.n) + (i * s.n + j) ≡ batch' * (s.m * s.n) + (i' * s.n + j') =
        sym (offset-row_major s.m s.n s.batch_count batch i j r.0 r.1 r.2 small)
        ∙ e'
        ∙ offset-row_major s.m s.n s.batch_count batch' i' j' r'.0 r'.1 r'.2 small in
      let row = next_row i s.m s.n r.1 in
      let row' = next_row i' s.m s.n r'.1 in
      let (same_batch, rest) =
        parts_unique (s.m * s.n) batch (i * s.n + j) batch' (i' * s.n + j') (omega (arith, r.2))
          (omega (arith, r'.2)) sums in
      let (same_i, same_j) = parts_unique s.n i j i' j' r.2 r'.2 rest in
      (same_batch, same_i, same_j)
