-- ===== src/Cpu/Gemm/Product.antt =====
-- The CPU's `Gemm` against the product of matrices.
use infini_ops.Prelude.{
  ℕ, zero, suc, ◌+◌, ◌*◌, ◌<◌, ◌≤◌, ◌^◌, ◌%◌, ◌≡◌, refl, ap, sym, ◌∙◌, subst, Option, none, some,
  [], ◌∷◌, ok, arith,
}
use infini_ops.DataType.{DataType}
use infini_ops.Device.{Device}
use infini_ops.Tensor.{Tensor, strided, size, stride, get_effective_index}
use infini_ops.Base.Gemm.{gemm, value_or}
use infini_ops.Cpu.MatrixLoops.{
  Arithmetic, MatrixLayout, multiply_matrices, sum_from, sum_of, offset,
}
use infini_ops.Cpu.MatrixLoops.Laws.{multiply_matrices-entry, multiply_matrices-other, IsSeparate}
use infini_ops.Cpu.MatrixLoops.RowMajor.{next_row, parts_unique}
use infini_ops.Cpu.Gemm.{gemm_layout, gemm_finish, run_gemm}
use infini_ops.Cpu.Gemm.Laws.{IsMatrix, matrix_eta, subst3, gemm_call}

-- The sum of the first `n` terms, from the left.
abbrev pub left_sum : {F : Type 0} → (F → F → F) → F → (ℕ → F) → ℕ → F
left_sum plus nothing term zero = nothing
left_sum plus nothing term (suc n) = plus (left_sum plus nothing term n) (term n)

-- The layout of three matrices, of which the product is row-major.
abbrev layout : (m n k p0 p1 q0 q1 : ℕ) → MatrixLayout
layout m n k p0 p1 q0 q1 = record {
  m = m;
  n = n;
  k = k;
  batch_count = 1;
  stride_a_m = p0;
  stride_a_k = p1;
  stride_b_k = q0;
  stride_b_n = q1;
  stride_c_m = n;
  stride_c_n = 1;
  batch_stride_a = 0;
  batch_stride_b = 0;
  batch_stride_c = 0;
}

-- The place of an element that has no batch.
abbrev pub place : (i d j e : ℕ) → ℕ
place i d j e = (i * d + j * e) % 2 ^ 64

offset-place : (batch i d j e : ℕ) → offset batch 0 i d j e ≡ place i d j e
offset-place batch i d j e = omega arith

row_major_place :
    (m n batch i j : ℕ)
    → batch < 1
    → i < m
    → j < n
    → m * n < 2 ^ 64
    → offset batch 0 i n j 1 ≡ i * n + j
row_major_place m n batch i j one hi hj small =
    let row : i * n + n ≤ m * n = next_row i m n hi in
    let p : ℕ = i * n in let q : ℕ = m * n in omega arith

outside :
    (m n x batch i j : ℕ)
    → (batch < 1) × (i < m) × (j < n)
    → m * n < 2 ^ 64
    → m * n ≤ x
    → x ≡ offset batch 0 i n j 1
    → ⊥
outside m n x batch i j r small above e =
    let at = row_major_place m n batch i j r.0 r.1 r.2 small in
    let row : i * n + n ≤ m * n = next_row i m n r.1 in
    let inside = r.2 in let x_at : x ≡ i * n + j = e ∙ at in omega arith

module _ {T F : Type 0} (f : Arithmetic T F) (a_data b_data : ℕ → T) where
  -- The term of the product of matrices.
  abbrev pub term : (p0 p1 q0 q1 i j l : ℕ) → F
  term p0 p1 q0 q1 i j l =
      f.times (f.to_float (a_data (place i p0 l p1))) (f.to_float (b_data (place l q0 j q1)))

  module _ (m n k p0 p1 q0 q1 i j : ℕ) where
    sum_from-left_sum :
        (rounds l : ℕ)
        → sum_from f
            (layout m n k p0 p1 q0 q1)
            a_data
            b_data
            0
            i
            j
            rounds
            l
            (left_sum f.plus f.nothing (term p0 p1 q0 q1 i j) l)
          ≡ left_sum f.plus f.nothing (term p0 p1 q0 q1 i j) (l + rounds)
    unfolding sum_from
    sum_from-left_sum zero l = ap (left_sum f.plus f.nothing (term p0 p1 q0 q1 i j)) (omega arith)
    sum_from-left_sum (suc rounds) l =
        let s = layout m n k p0 p1 q0 q1 in
        let terms = term p0 p1 q0 q1 i j in
        let here : f.plus (left_sum f.plus f.nothing terms l) (
              f.times (f.to_float (a_data (offset 0 0 i p0 l p1)))
                (f.to_float (b_data (offset 0 0 l q0 j q1))))
            ≡ left_sum f.plus f.nothing terms (suc l) =
          λ t. f.plus (left_sum f.plus f.nothing terms l) (
            f.times (f.to_float (a_data (offset-place 0 i p0 l p1 t)))
              (f.to_float (b_data (offset-place 0 l q0 j q1 t)))) in
        let next : l + 1 ≡ suc l = omega arith in
        let reach : suc l + rounds ≡ l + suc rounds = omega arith in
        ap (sum_from f s a_data b_data 0 i j rounds (l + 1)) here
        ∙ ap
            (λ q.
              sum_from f s a_data b_data 0 i j rounds q (left_sum f.plus f.nothing terms (suc l)))
            next
        ∙ sum_from-left_sum rounds (suc l)
        ∙ ap (left_sum f.plus f.nothing terms) reach

    sum_of-left_sum :
        sum_of f (layout m n k p0 p1 q0 q1) a_data b_data 0 i j
        ≡ left_sum f.plus f.nothing (term p0 p1 q0 q1 i j) k
    unfolding sum_of
    sum_of-left_sum =
        sum_from-left_sum k 0 ∙ ap (left_sum f.plus f.nothing (term p0 p1 q0 q1 i j)) (omega arith)

  module _ (one : F) (alpha beta : Option F) (c_data : ℕ → T) where
    abbrev finish : ℕ → F → T → T
    finish j =
        gemm_finish f (value_or alpha (value_or alpha one)) (value_or beta (value_or beta one))

    call_on_pairs :
        (x y z m n k kk p0 p1 q0 q1 : ℕ) (u v w : DataType) (d e g : Device)
        → gemm_call f one a_data b_data alpha beta
            (strided x (m ∷ k ∷ []) u d (p0 ∷ p1 ∷ []))
            (strided y (kk ∷ n ∷ []) v e (q0 ∷ q1 ∷ []))
            (some 0)
            (some 0)
            (strided z (m ∷ n ∷ []) w g (n ∷ 1 ∷ []))
            c_data
          ≡ ok (multiply_matrices f (layout m n k p0 p1 q0 q1) a_data b_data finish c_data)
    unfolding gemm run_gemm gemm_layout size stride get_effective_index
    call_on_pairs x y z m n k kk p0 p1 q0 q1 u v w d e g = refl

    call_ok :
        (a b c : Tensor) (m n k kk p0 p1 q0 q1 : ℕ)
        → IsMatrix a m k p0 p1
        → IsMatrix b kk n q0 q1
        → IsMatrix c m n n 1
        → gemm_call f one a_data b_data alpha beta a b (some 0) (some 0) c c_data
          ≡ ok (multiply_matrices f (layout m n k p0 p1 q0 q1) a_data b_data finish c_data)
    call_ok a b c m n k kk p0 p1 q0 q1 ma mb mc =
        subst3
          (λ a b c.
            gemm_call f one a_data b_data alpha beta a b (some 0) (some 0) c c_data
            ≡ ok (multiply_matrices f (layout m n k p0 p1 q0 q1) a_data b_data finish c_data))
          (matrix_eta a m k p0 p1 ma) (matrix_eta b kk n q0 q1 mb) (matrix_eta c m n n 1 mc)
          (call_on_pairs a.data_ b.data_ c.data_ m n k kk p0 p1 q0 q1 a.dtype b.dtype c.dtype
            a.device b.device c.device)

    value_or_twice : (o : Option F) → value_or o (value_or o one) ≡ value_or o one
    value_or_twice none = refl
    value_or_twice (some v) = refl

    one_matrix-IsSeparate :
        (m n k p0 p1 q0 q1 : ℕ)
        → m * n < 2 ^ 64
        → IsSeparate f (layout m n k p0 p1 q0 q1) a_data b_data finish
    one_matrix-IsSeparate m n k p0 p1 q0 q1 small batch i j batch' i' j' r r' e =
        let places =
          sym (row_major_place m n batch i j r.0 r.1 r.2 small)
          ∙ e
          ∙ row_major_place m n batch' i' j' r'.0 r'.1 r'.2 small in
        let (same_i, same_j) = parts_unique n i j i' j' r.2 r'.2 places in
        (omega (arith, r.0, r'.0), same_i, same_j)

    -- A call without flags on matrices of any strides, whose output is row-major and has fewer than
    -- 2 ^ 64 elements, returns. It leaves in row i and column j of the output what the scalars make
    -- of the element that was there and of the sum of the products of row i of the first matrix and
    -- column j of the second, and it writes nowhere else.
    pub gemm_call-product :
        (a b c : Tensor) (m n k kk p0 p1 q0 q1 : ℕ)
        → IsMatrix a m k p0 p1
        → IsMatrix b kk n q0 q1
        → IsMatrix c m n n 1
        → m * n < 2 ^ 64
        → (result : ℕ → T) × (gemm_call f one a_data b_data alpha beta a b
              (some 0)
              (some 0)
              c
              c_data
            ≡ ok result)
          × ((i j : ℕ)
              → i < m
              → j < n
              → result (i * n + j)
                ≡ gemm_finish f
                    (value_or alpha one)
                    (value_or beta one)
                    (left_sum f.plus f.nothing (term p0 p1 q0 q1 i j) k)
                    (c_data (i * n + j)))
          × ((x : ℕ) → m * n ≤ x → result x ≡ c_data x)
    gemm_call-product a b c m n k kk p0 p1 q0 q1 ma mb mc small =
        let s = layout m n k p0 p1 q0 q1 in
        let sep : IsSeparate f s a_data b_data finish =
          one_matrix-IsSeparate m n k p0 p1 q0 q1 small in
        let result = multiply_matrices f s a_data b_data finish c_data in
        (
          result,
          call_ok a b c m n k kk p0 p1 q0 q1 ma mb mc,
          λ i j hi hj.
              let at = row_major_place m n 0 i j (omega arith) hi hj small in
              let stored =
                multiply_matrices-entry f s a_data b_data finish sep 0 i j (omega arith, hi, hj)
                  c_data in
              subst
                (λ x.
                  result x
                  ≡ gemm_finish f (value_or alpha one) (value_or beta one)
                      (left_sum f.plus f.nothing (term p0 p1 q0 q1 i j) k) (c_data x))
                at
                (stored ∙ (λ t.
                  gemm_finish f (value_or_twice alpha t) (value_or_twice beta t)
                    (sum_of-left_sum m n k p0 p1 q0 q1 i j t) (c_data (offset 0 0 i n j 1)))),
          λ x above.
              multiply_matrices-other f s a_data b_data finish x c_data
                (λ batch i j r e. outside m n x batch i j r small above e),
        )
