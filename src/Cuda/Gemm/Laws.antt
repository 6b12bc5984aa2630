-- ===== src/Cuda/Gemm/Laws.antt =====
-- A column-major library computes products of matrices of either order.
use infini_ops.Prelude.{
  ℕ, zero, suc, ◌+◌, ◌*◌, ◌^◌, ◌<◌, ◌≤◌, ◌≡◌, ap, subst, ◌∙◌, arith, Bool, true, false, not, ◌==◌,
  ◌⊎◌, inl, inr, if◌then◌else◌, Option,
}
use infini_ops.Tensor.{Tensor}
use infini_ops.Base.Checks.{signed_max}
use infini_ops.Base.Gemm.{Gemm, value_or}
use infini_ops.Cpu.MatrixLoops.{Arithmetic}
use infini_ops.Cpu.Gemm.{gemm_finish}
use infini_ops.Cuda.Gemm.{BlasGemm, BlasCall, blas_call, get_op_a, get_op_b, as_int}

-- Where the library reads or writes an element: matrices are column-major, and `true` reads the
-- transposed one.
abbrev pub column_major : Bool → (ld i j : ℕ) → ℕ
column_major true ld i j = j + i * ld
column_major false ld i j = i + j * ld

-- Where a tensor has an element of its matrix, or of its transposed one if the flag is 1.
abbrev pub strided_place : (trans d0 d1 i j : ℕ) → ℕ
strided_place trans d0 d1 i j = if trans == 1 then j * d0 + i * d1 else i * d0 + j * d1

-- The strides of the last two dimensions, one of them 1, and the other positive.
abbrev pub IsDense : (d0 d1 : ℕ) → Type 0
IsDense d0 d1 = ((d1 ≡ 1) × (0 < d0) × (d0 < 2 ^ 63)) ⊎ ((d0 ≡ 1) × (1 < d1) × (d1 < 2 ^ 63))

max_first : (d : ℕ) → 0 < d → d < 2 ^ 63 → signed_max d 1 ≡ d
unfolding signed_max
max_first d some_d small = ground arith

max_second : (d : ℕ) → 1 < d → d < 2 ^ 63 → signed_max 1 d ≡ d
unfolding signed_max
max_second d more small = ground arith

-- The operation that is chosen for an operand in its place, and for one that is swapped.
plain_place :
    (t d0 d1 i j : ℕ)
    → t ≤ 1
    → IsDense d0 d1
    → column_major (not (as_int (d1 == 1) == t)) (signed_max d0 d1) i j ≡ strided_place t d0 d1 i j
plain_place zero d0 d1 i j flag (inl (unit, some_d, small)) =
    rw (unit, max_first d0 some_d small) (omega arith)
plain_place (suc zero) d0 d1 i j flag (inl (unit, some_d, small)) =
    rw (unit, max_first d0 some_d small) (omega arith)
plain_place zero d0 d1 i j flag (inr (unit, more, small)) =
    let other : (d1 == 1) ≡ false = ground arith in
    rw (other, unit, max_second d1 more small) (omega arith)
plain_place (suc zero) d0 d1 i j flag (inr (unit, more, small)) =
    let other : (d1 == 1) ≡ false = ground arith in
    rw (other, unit, max_second d1 more small) (omega arith)
plain_place (suc (suc t)) d0 d1 i j flag dense = absurd (omega arith)

swapped_place :
    (t d0 d1 i j : ℕ)
    → t ≤ 1
    → IsDense d0 d1
    → column_major (as_int (d1 == 1) == t) (signed_max d0 d1) j i ≡ strided_place t d0 d1 i j
swapped_place zero d0 d1 i j flag (inl (unit, some_d, small)) =
    rw (unit, max_first d0 some_d small) (omega arith)
swapped_place (suc zero) d0 d1 i j flag (inl (unit, some_d, small)) =
    rw (unit, max_first d0 some_d small) (omega arith)
swapped_place zero d0 d1 i j flag (inr (unit, more, small)) =
    let other : (d1 == 1) ≡ false = ground arith in
    rw (other, unit, max_second d1 more small) (omega arith)
swapped_place (suc zero) d0 d1 i j flag (inr (unit, more, small)) =
    let other : (d1 == 1) ≡ false = ground arith in
    rw (other, unit, max_second d1 more small) (omega arith)
swapped_place (suc (suc t)) d0 d1 i j flag dense = absurd (omega arith)

-- The buffers of the device: values under an address and an element offset.
abbrev pub Memory : Type 0 → Type 0
Memory T = ℕ → ℕ → T

module _ {T F : Type 0} (f : Arithmetic T F) (total : ℕ → (ℕ → F) → F) where
  -- What the library documents of a call: it leaves in each element of the output what the scalars make
  -- of the element that was there and of the sum of the products of a row and a column. In which
  -- order the sum is taken, `total`, is left to the library.
  abbrev pub IsStridedBatched : (BlasCall F → Memory T → Memory T) → BlasCall F → Memory T → Type 0
  IsStridedBatched blas call mem =
      (batch i j : ℕ)
      → batch < call.batch_count
      → i < call.m
      → j < call.n
      → blas call mem call.c.data_ (batch * call.c.batch_stride + (i + j * call.c.ld))
        ≡ gemm_finish f call.alpha call.beta
            (total call.k (λ l.
              f.times
                (f.to_float (
                  mem call.a.data_
                    (batch * call.a.batch_stride + column_major call.op_a call.a.ld i l)))
                (f.to_float (
                  mem call.b.data_
                    (batch * call.b.batch_stride + column_major call.op_b call.b.ld l j)))))
            (mem call.c.data_ (batch * call.c.batch_stride + (i + j * call.c.ld)))

  module _ (g : Gemm F) (a b c : Tensor) (alpha beta : Option F) (trans_a trans_b : Option ℕ)
      (p0 p1 q0 q1 r0 r1 : ℕ) (mem : Memory T) (blas : BlasCall F → Memory T → Memory T) where
    abbrev flag_a : ℕ
    flag_a = value_or trans_a (as_int g.trans_a)

    abbrev flag_b : ℕ
    flag_b = value_or trans_b (as_int g.trans_b)

    abbrev factor_a : (batch i l : ℕ) → F
    factor_a batch i l =
        f.to_float (mem a.data_ (batch * g.batch_stride_a + strided_place flag_a p0 p1 i l))

    abbrev factor_b : (batch l j : ℕ) → F
    factor_b batch l j =
        f.to_float (mem b.data_ (batch * g.batch_stride_b + strided_place flag_b q0 q1 l j))

    -- What is asked of an element of the output.
    abbrev pub IsEntry : Memory T → (batch i j : ℕ) → Type 0
    IsEntry after batch i j =
        let place = batch * g.batch_stride_c + (i * r0 + j * r1) in
        after c.data_ place
        ≡ gemm_finish f (value_or alpha g.alpha) (value_or beta g.beta)
            (total g.k (λ l. f.times (factor_a batch i l) (factor_b batch l j))) (mem c.data_ place)

    abbrev op_of : Bool → BlasGemm F
    op_of swap = record {
      gemm = g;
      a_is_col_major = p1 == 1;
      b_is_col_major = q1 == 1;
      swap_a_and_b = swap;
    }

    abbrev call_of : Bool → BlasCall F
    call_of swap = blas_call (op_of swap) a b alpha beta trans_a trans_b c

    module _ (comm : (x y : F) → f.times x y ≡ f.times y x) (fa : flag_a ≤ 1) (fb : flag_b ≤ 1)
        (da : IsDense p0 p1) (db : IsDense q0 q1) (lda : g.lda ≡ signed_max p0 p1)
        (ldb : g.ldb ≡ signed_max q0 q1) (ldc : g.ldc ≡ signed_max r0 r1) where
      -- A row-major output is a column-major one of the transposed product.
      pub swapped-IsEntry :
          (batch i j : ℕ)
          → r1 ≡ 1
          → 0 < r0
          → r0 < 2 ^ 63
          → IsStridedBatched blas (call_of true) mem
          → batch < g.batch_count
          → i < g.m
          → j < g.n
          → IsEntry (blas (call_of true) mem) batch i j
      unfolding blas_call get_op_a get_op_b
      swapped-IsEntry batch i j unit some_r small documented hb hi hj =
          let place : j + i * g.ldc ≡ i * r0 + j * r1 =
            ap (λ n. j + i * n) (ldc ∙ ap (signed_max r0) unit ∙ max_first r0 some_r small)
            ∙ rw unit (omega arith) in
          let at_a = λ (l : ℕ).
            ap (λ d. column_major (as_int (p1 == 1) == flag_a) d l i) lda
            ∙ swapped_place flag_a p0 p1 i l fa da in
          let at_b = λ (l : ℕ).
            ap (λ d. column_major (as_int (q1 == 1) == flag_b) d j l) ldb
            ∙ swapped_place flag_b q0 q1 l j fb db in
          let sums : (l : ℕ)
              → f.times
                  (f.to_float (
                    mem b.data_ (
                      batch * g.batch_stride_b
                      + column_major (as_int (q1 == 1) == flag_b) g.ldb j l)))
                  (f.to_float (
                    mem a.data_ (
                      batch * g.batch_stride_a
                      + column_major (as_int (p1 == 1) == flag_a) g.lda l i)))
                ≡ f.times (factor_a batch i l) (factor_b batch l j) =
            λ l. comm _ _ ∙ (λ t.
              f.times (f.to_float (mem a.data_ (batch * g.batch_stride_a + at_a l t)))
                (f.to_float (mem b.data_ (batch * g.batch_stride_b + at_b l t)))) in
          subst
            (λ x.
              blas (call_of true) mem c.data_ (batch * g.batch_stride_c + x)
              ≡ gemm_finish f (value_or alpha g.alpha) (value_or beta g.beta)
                  (total g.k (λ l. f.times (factor_a batch i l) (factor_b batch l j)))
                  (mem c.data_ (batch * g.batch_stride_c + x)))
            place
            (documented batch j i hb hj hi ∙ (λ t.
              gemm_finish f (value_or alpha g.alpha) (value_or beta g.beta)
                (total g.k (λ l. sums l t))
                (mem c.data_ (batch * g.batch_stride_c + (j + i * g.ldc)))))

      pub plain-IsEntry :
          (batch i j : ℕ)
          → r0 ≡ 1
          → 1 < r1
          → r1 < 2 ^ 63
          → IsStridedBatched blas (call_of false) mem
          → batch < g.batch_count
          → i < g.m
          → j < g.n
          → IsEntry (blas (call_of false) mem) batch i j
      unfolding blas_call get_op_a get_op_b
      plain-IsEntry batch i j unit more small documented hb hi hj =
          let place : i + j * g.ldc ≡ i * r0 + j * r1 =
            ap (λ n. i + j * n) (ldc ∙ ap (λ d. signed_max d r1) unit ∙ max_second r1 more small)
            ∙ rw unit (omega arith) in
          let at_a = λ (l : ℕ).
            ap (λ d. column_major (not (as_int (p1 == 1) == flag_a)) d i l) lda
            ∙ plain_place flag_a p0 p1 i l fa da in
          let at_b = λ (l : ℕ).
            ap (λ d. column_major (not (as_int (q1 == 1) == flag_b)) d l j) ldb
            ∙ plain_place flag_b q0 q1 l j fb db in
          subst
            (λ x.
              blas (call_of false) mem c.data_ (batch * g.batch_stride_c + x)
              ≡ gemm_finish f (value_or alpha g.alpha) (value_or beta g.beta)
                  (total g.k (λ l. f.times (factor_a batch i l) (factor_b batch l j)))
                  (mem c.data_ (batch * g.batch_stride_c + x)))
            place
            (documented batch i j hb hi hj ∙ (λ t.
              gemm_finish f (value_or alpha g.alpha) (value_or beta g.beta)
                (total g.k (λ l.
                  f.times (f.to_float (mem a.data_ (batch * g.batch_stride_a + at_a l t)))
                    (f.to_float (mem b.data_ (batch * g.batch_stride_b + at_b l t)))))
                (mem c.data_ (batch * g.batch_stride_c + (i + j * g.ldc)))))
