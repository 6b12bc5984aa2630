-- ===== src/Ascend/AclTensor/Transpose.antt =====
-- The descriptor of a transposed view.
use infini_ops.Prelude.{ℕ, ◌≡◌, refl, true, false, List, [], ◌∷◌, length, ok, ok-inj, arith, subst}
use infini_ops.DataType.{DataType}
use infini_ops.Device.{Device}
use infini_ops.Tensor.{Tensor, strided, transpose}
use infini_ops.Ascend.AclTensor.{meta_of}

at_pairs :
    (address : ℕ) (shape strides : List ℕ) (dtype : DataType) (device : Device) (u : Tensor)
    → length shape ≡ 2
    → length strides ≡ 2
    → transpose (strided address shape dtype device strides) ≡ ok u
    → meta_of (strided address shape dtype device strides) true ≡ meta_of u false
unfolding meta_of transpose
at_pairs address (a ∷ b ∷ []) (c ∷ d ∷ []) dtype device u two two' made =
    subst
      (λ v. meta_of (strided address (a ∷ b ∷ []) dtype device (c ∷ d ∷ [])) true ≡ meta_of v false)
      (ok-inj made) refl
at_pairs address [] strides dtype device u two two' made = absurd (omega arith)
at_pairs address (a ∷ []) strides dtype device u two two' made = absurd (omega arith)
at_pairs address (a ∷ b ∷ e ∷ shape) strides dtype device u two two' made = absurd (omega arith)
at_pairs address (a ∷ b ∷ []) [] dtype device u two two' made = absurd (omega arith)
at_pairs address (a ∷ b ∷ []) (c ∷ []) dtype device u two two' made = absurd (omega arith)
at_pairs address (a ∷ b ∷ []) (c ∷ d ∷ e ∷ strides) dtype device u two two' made =
    absurd (omega arith)

-- For a matrix, the descriptor with the last two dimensions swapped is that of the transposed tensor.
pub meta_of-transpose :
    (t u : Tensor)
    → length t.shape ≡ 2
    → length t.strides ≡ 2
    → transpose t ≡ ok u
    → meta_of t true ≡ meta_of u false
meta_of-transpose t u two two' made =
    at_pairs t.data_ t.shape t.strides t.dtype t.device u two two' made
