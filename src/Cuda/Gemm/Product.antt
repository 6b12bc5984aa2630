-- ===== src/Cuda/Gemm/Product.antt =====
-- The call of an operator that was made for given views.
use infini_ops.Prelude.{
  ℕ, ◌<◌, ◌≤◌, ◌≡◌, refl, sym, ap, subst, ◌∙◌, arith, Bool, true, false, ◌==◌, ==_iff, inl, inr,
  Option, length, ltb, if◌then◌else◌, ok, ok-inj, bind_ok,
}
use infini_ops.Tensor.{Tensor, size, stride}
use infini_ops.Base.Checks.{from_end, signed_max}
use infini_ops.Base.Gemm.{Gemm, gemm, leading, batch_stride, is_set, value_or}
use infini_ops.Cpu.MatrixLoops.{Arithmetic}
use infini_ops.Cuda.Gemm.{BlasGemm, BlasCall, blas_gemm, blas_call, as_int, unit_last}
use infini_ops.Cuda.Gemm.Laws.{
  IsDense, Memory, IsStridedBatched, IsEntry, swapped-IsEntry, plain-IsEntry,
}

-- The strides of the last two dimensions.
pub record HasStrides (t : Tensor) (d0 d1 : ℕ) : Type 0 where
  pub rows : stride t (from_end 2) ≡ ok d0
  pub cols : stride t (from_end 1) ≡ ok d1

leading-max : (t : Tensor) (d0 d1 : ℕ) → HasStrides t d0 d1 → leading t ≡ ok (signed_max d0 d1)
unfolding leading
leading-max t d0 d1 h = rw (h.rows, h.cols) refl

unit_last-eq : (t : Tensor) (d0 d1 : ℕ) → HasStrides t d0 d1 → unit_last t ≡ ok (d1 == 1)
unit_last-eq t d0 d1 h = rw h.cols refl

module _ {F : Type 0} (one : F) (a b : Tensor) (alpha beta : Option F) (trans_a trans_b : Option ℕ)
    (c : Tensor) where
  gemm-leading :
      (g : Gemm F)
      → gemm one a b alpha beta trans_a trans_b c ≡ ok g
      → (leading a ≡ ok g.lda) × (leading b ≡ ok g.ldb) × (leading c ≡ ok g.ldc)
  unfolding gemm
  gemm-leading g h =
      let (m, _, h1) = bind_ok (size c (from_end 2)) _ h in
      let (n, _, h2) = bind_ok (size c (from_end 1)) _ h1 in
      let (k, _, h3) =
        bind_ok (if is_set trans_a then size a (from_end 2) else size a (from_end 1)) _ h2 in
      let (lda, ea, h4) = bind_ok (leading a) _ h3 in
      let (ldb, eb, h5) = bind_ok (leading b) _ h4 in
      let (ldc, ec, h6) = bind_ok (leading c) _ h5 in
      let (_, _, h7) =
        bind_ok (if ltb 2 (length c.strides) then size c (from_end 3) else ok 1) _ h6 in
      let (_, _, h8) = bind_ok (batch_stride a) _ h7 in
      let (_, _, h9) = bind_ok (batch_stride b) _ h8 in
      let (_, _, h10) = bind_ok (batch_stride c) _ h9 in
      let made = ok-inj h10 in
      (
        ea ∙ ap (λ (r : Gemm F). ok r.lda) made,
        eb ∙ ap (λ (r : Gemm F). ok r.ldb) made,
        ec ∙ ap (λ (r : Gemm F). ok r.ldc) made,
      )

  -- The flags and leading dimensions of an operator.
  module _ (p0 p1 q0 q1 r0 r1 : ℕ) (sa : HasStrides a p0 p1) (sb : HasStrides b q0 q1)
      (sc : HasStrides c r0 r1) where
    blas_gemm-fields :
        (op : BlasGemm F)
        → blas_gemm one a b alpha beta trans_a trans_b c ≡ ok op
        → ((op.a_is_col_major ≡ (p1 == 1))
            × (op.b_is_col_major ≡ (q1 == 1))
            × (op.swap_a_and_b ≡ (r1 == 1)))
          × ((op.gemm.lda ≡ signed_max p0 p1)
              × (op.gemm.ldb ≡ signed_max q0 q1)
              × (op.gemm.ldc ≡ signed_max r0 r1))
    unfolding blas_gemm
    blas_gemm-fields op h =
        let (g, e1, h1) = bind_ok (gemm one a b alpha beta trans_a trans_b c) _ h in
        let (ua, e2, h2) = bind_ok (unit_last a) _ h1 in
        let (ub, e3, h3) = bind_ok (unit_last b) _ h2 in
        let (uc, e4, h4) = bind_ok (unit_last c) _ h3 in
        let made = ok-inj h4 in
        let same : gemm one a b alpha beta trans_a trans_b c ≡ ok op.gemm =
          e1 ∙ ap (λ (o : BlasGemm F). ok o.gemm) made in
        let (la, lb, lc) = gemm-leading op.gemm same in
        (
          (
            sym (ap (λ (o : BlasGemm F). o.a_is_col_major) made)
                ∙ ok-inj (sym e2 ∙ unit_last-eq a p0 p1 sa),
            sym (ap (λ (o : BlasGemm F). o.b_is_col_major) made)
                ∙ ok-inj (sym e3 ∙ unit_last-eq b q0 q1 sb),
            sym (ap (λ (o : BlasGemm F). o.swap_a_and_b) made)
                ∙ ok-inj (sym e4 ∙ unit_last-eq c r0 r1 sc),
          ),
          (
            ok-inj (sym la ∙ leading-max a p0 p1 sa),
            ok-inj (sym lb ∙ leading-max b q0 q1 sb),
            ok-inj (sym lc ∙ leading-max c r0 r1 sc),
          ),
        )

same_op :
    {F : Type 0} (op : BlasGemm F) (p1 q1 : ℕ) (swap : Bool)
    → op.a_is_col_major ≡ (p1 == 1)
    → op.b_is_col_major ≡ (q1 == 1)
    → op.swap_a_and_b ≡ swap
    → ◌≡◌ {A = BlasGemm F}
        (record {
          gemm = op.gemm;
          a_is_col_major = p1 == 1;
          b_is_col_major = q1 == 1;
          swap_a_and_b = swap;
        })
        op
same_op op p1 q1 swap ua ub us = λ t. record {
  gemm = op.gemm;
  a_is_col_major = sym ua t;
  b_is_col_major = sym ub t;
  swap_a_and_b = sym us t;
}

-- For matrices that are dense along one of their two dimensions each, flags that are 0 or 1, and a
-- product of elements that commutes: an operator that was made for them calls the library, which is
-- column-major, so that the element in row i and column j of each matrix of the output is made by the
-- scalars from the element that was there and the sum of the products of row i of the first matrix and
-- column j of the second, both transposed as their flags say, whichever dimensions are the dense ones.
pub blas_call-product :
    {T F : Type 0} (f : Arithmetic T F) (total : ℕ → (ℕ → F) → F) (one : F) (a b : Tensor)
    (alpha beta : Option F) (trans_a trans_b : Option ℕ) (c : Tensor) (p0 p1 q0 q1 r0 r1 : ℕ)
    (op : BlasGemm F) (call_alpha call_beta : Option F) (call_trans_a call_trans_b : Option ℕ)
    (blas : BlasCall F → Memory T → Memory T) (mem : Memory T) (batch i j : ℕ)
    → HasStrides a p0 p1
    → HasStrides b q0 q1
    → HasStrides c r0 r1
    → IsDense p0 p1
    → IsDense q0 q1
    → IsDense r0 r1
    → ((x y : F) → f.times x y ≡ f.times y x)
    → blas_gemm one a b alpha beta trans_a trans_b c ≡ ok op
    → value_or call_trans_a (as_int op.gemm.trans_a) ≤ 1
    → value_or call_trans_b (as_int op.gemm.trans_b) ≤ 1
    → IsStridedBatched f total blas
        (blas_call op a b call_alpha call_beta call_trans_a call_trans_b c)
        mem
    → batch < op.gemm.batch_count
    → i < op.gemm.m
    → j < op.gemm.n
    → IsEntry f total op.gemm a b c call_alpha call_beta call_trans_a call_trans_b p0 p1 q0 q1 r0 r1
        mem blas
        (blas (blas_call op a b call_alpha call_beta call_trans_a call_trans_b c) mem)
        batch
        i
        j
blas_call-product f total one a b alpha beta trans_a trans_b c p0 p1 q0 q1 r0 r1 op call_alpha
      call_beta call_trans_a call_trans_b blas mem batch i j sa sb sc da db dc comm made fa fb
      documented hb hi hj =
    let g = op.gemm in
    let ((ua, ub, uc), (lda, ldb, ldc)) =
      blas_gemm-fields one a b alpha beta trans_a trans_b c p0 p1 q0 q1 r0 r1 sa sb sc op made in
    let Holds : BlasGemm _ → Type 0 = λ o.
      IsStridedBatched f total blas
        (blas_call o a b call_alpha call_beta call_trans_a call_trans_b c) mem
      → IsEntry f total g a b c call_alpha call_beta call_trans_a call_trans_b p0 p1 q0 q1 r0 r1 mem
          blas (blas (blas_call o a b call_alpha call_beta call_trans_a call_trans_b c) mem) batch i
          j in
    elim dc [
      | inl (unit, some_r, small) ↦
          let swap : op.swap_a_and_b ≡ true = uc ∙ (==_iff r1 1).1 unit in
          subst Holds (same_op op p1 q1 true ua ub swap)
            (λ doc.
              swapped-IsEntry f total g a b c call_alpha call_beta call_trans_a call_trans_b p0 p1
                q0 q1 r0 r1 mem blas comm fa fb da db lda ldb ldc batch i j unit some_r small doc hb
                hi hj)
            documented
      | inr (unit, more, small) ↦
          let plain : op.swap_a_and_b ≡ false = uc ∙ ground arith in
          subst Holds (same_op op p1 q1 false ua ub plain)
            (λ doc.
              plain-IsEntry f total g a b c call_alpha call_beta call_trans_a call_trans_b p0 p1 q0
                q1 r0 r1 mem blas comm fa fb da db lda ldb ldc batch i j unit more small doc hb hi
                hj)
            documented
    ]
