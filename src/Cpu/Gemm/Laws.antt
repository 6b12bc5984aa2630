-- ===== src/Cpu/Gemm/Laws.antt =====
-- The CPU's `Gemm`, from the constructor to the result.
use infini_ops.Prelude.{
  ℕ, ◌≡◌, refl, sym, subst, Bool, true, false, Option, some, [], ◌∷◌, Outcome, ok, ◌>>=◌,
}
use infini_ops.DataType.{DataType}
use infini_ops.Device.{Device}
use infini_ops.Tensor.{Tensor, strided, transpose, size, stride, get_effective_index}
use infini_ops.Base.Gemm.{gemm}
use infini_ops.Cpu.MatrixLoops.{Arithmetic}
use infini_ops.Cpu.Gemm.{gemm_layout, run_gemm}

-- A view of two dimensions.
pub record IsMatrix (t : Tensor) (rows cols row_stride col_stride : ℕ) : Type 0 where
  pub shape : t.shape ≡ rows ∷ cols ∷ []
  pub strides : t.strides ≡ row_stride ∷ col_stride ∷ []

pub matrix_eta :
    (t : Tensor) (rows cols d0 d1 : ℕ)
    → IsMatrix t rows cols d0 d1
    → strided t.data_ (rows ∷ cols ∷ []) t.dtype t.device (d0 ∷ d1 ∷ []) ≡ t
matrix_eta t rows cols d0 d1 h =
    λ i. strided t.data_ (sym h.shape i) t.dtype t.device (sym h.strides i)

pub subst3 :
    {a a' b b' c c' : Tensor} (P : Tensor → Tensor → Tensor → Type 0)
    → a ≡ a'
    → b ≡ b'
    → c ≡ c'
    → P a b c
    → P a' b' c'
subst3 {a} {a'} {b} {b'} {c} {c'} P p q r h =
    subst (λ x. P x b' c') p (subst (λ y. P a y c') q (subst (P a b) r h))

abbrev pub as_flag : Bool → Option ℕ
as_flag true = some 1
as_flag false = some 0

abbrev pub transpose_if : Bool → Tensor → Outcome Tensor
transpose_if true t = transpose t
transpose_if false t = ok t

module _ {T F : Type 0} (f : Arithmetic T F) (one : F) (a_data b_data : ℕ → T)
    (alpha beta : Option F) where
  -- An operator is made for a call, and called.
  abbrev pub gemm_call :
      (a b : Tensor) (trans_a trans_b : Option ℕ) (c : Tensor) (c_data : ℕ → T) → Outcome (ℕ → T)
  gemm_call a b trans_a trans_b c c_data = gemm one a b alpha beta trans_a trans_b c >>= λ op.
      run_gemm f op a_data b_data alpha beta trans_a trans_b c_data

  flags_on_pairs :
      (trans_a trans_b : Bool) (x y z a0 a1 b0 b1 c0 c1 p0 p1 q0 q1 r0 r1 : ℕ) (u v w : DataType)
      (d e g : Device) (c_data : ℕ → T)
      → gemm_call
          (strided x (a0 ∷ a1 ∷ []) u d (p0 ∷ p1 ∷ []))
          (strided y (b0 ∷ b1 ∷ []) v e (q0 ∷ q1 ∷ []))
          (as_flag trans_a)
          (as_flag trans_b)
          (strided z (c0 ∷ c1 ∷ []) w g (r0 ∷ r1 ∷ []))
          c_data
        ≡ (transpose_if trans_a (strided x (a0 ∷ a1 ∷ []) u d (p0 ∷ p1 ∷ [])) >>= λ a'.
            transpose_if trans_b (strided y (b0 ∷ b1 ∷ []) v e (q0 ∷ q1 ∷ [])) >>= λ b'.
            gemm_call a' b' (some 0) (some 0) (strided z (c0 ∷ c1 ∷ []) w g (r0 ∷ r1 ∷ [])) c_data)
  unfolding gemm run_gemm gemm_layout size stride get_effective_index transpose
  flags_on_pairs true true x y z a0 a1 b0 b1 c0 c1 p0 p1 q0 q1 r0 r1 u v w d e g c_data = refl
  flags_on_pairs true false x y z a0 a1 b0 b1 c0 c1 p0 p1 q0 q1 r0 r1 u v w d e g c_data = refl
  flags_on_pairs false true x y z a0 a1 b0 b1 c0 c1 p0 p1 q0 q1 r0 r1 u v w d e g c_data = refl
  flags_on_pairs false false x y z a0 a1 b0 b1 c0 c1 p0 p1 q0 q1 r0 r1 u v w d e g c_data = refl

  -- On matrices, a call with transpose flags gives what a call without them gives on the transposed
  -- tensors.
  pub gemm_call-transpose :
      (trans_a trans_b : Bool) (a b c : Tensor) (a0 a1 b0 b1 c0 c1 p0 p1 q0 q1 r0 r1 : ℕ)
      (c_data : ℕ → T)
      → IsMatrix a a0 a1 p0 p1
      → IsMatrix b b0 b1 q0 q1
      → IsMatrix c c0 c1 r0 r1
      → gemm_call a b (as_flag trans_a) (as_flag trans_b) c c_data ≡ (
          transpose_if trans_a a >>= λ a'.
          transpose_if trans_b b >>= λ b'. gemm_call a' b' (some 0) (some 0) c c_data)
  gemm_call-transpose trans_a trans_b a b c a0 a1 b0 b1 c0 c1 p0 p1 q0 q1 r0 r1 c_data ma mb mc =
      let pairs =
        flags_on_pairs trans_a trans_b a.data_ b.data_ c.data_ a0 a1 b0 b1 c0 c1 p0 p1 q0 q1 r0 r1
          a.dtype b.dtype c.dtype a.device b.device c.device c_data in
      subst3
        (λ a b c. gemm_call a b (as_flag trans_a) (as_flag trans_b) c c_data ≡ (
          transpose_if trans_a a >>= λ a'.
          transpose_if trans_b b >>= λ b'. gemm_call a' b' (some 0) (some 0) c c_data))
        (matrix_eta a a0 a1 p0 p1 ma) (matrix_eta b b0 b1 q0 q1 mb) (matrix_eta c c0 c1 r0 r1 mc)
        pairs
