-- ===== src/Examples/Views.antt =====
-- Views of src/tensor.h at concrete shapes.
use infini_ops.Prelude.{◌≡◌, refl, ◌↔◌, Bool, true, false, [], ◌∷◌, arith, get_elem?, some, ok}
use infini_ops.Prelude.Products.{suffixes}
use infini_ops.DataType.{float32}
use infini_ops.Device.{default_device}
use infini_ops.Tensor.{Tensor, strided, is_contiguous, has_broadcast_dim}
use infini_ops.Tensor.Contiguous.{IsView}
use infini_ops.Tensor.RowMajor.{is_contiguous_iff}
use infini_ops.Tensor.Broadcast.{has_broadcast_dim_answer, is_broadcast, NoUnit}

abbrev matrix : Tensor
matrix = strided 1000 (2 ∷ 3 ∷ []) float32 default_device (3 ∷ 1 ∷ [])

abbrev expanded : Tensor
expanded = strided 1000 (1 ∷ 3 ∷ []) float32 default_device (3 ∷ 0 ∷ [])

matrix-IsView : IsView matrix
matrix-IsView = record { same_length = refl; indexable = omega arith }

expanded-IsView : IsView expanded
expanded-IsView = record { same_length = refl; indexable = omega arith }

is_contiguous_iff_example :
    (b : Bool) × (is_contiguous matrix ≡ ok b)
    × ((b ≡ true) ↔ (matrix.strides ≡ suffixes matrix.shape))
is_contiguous_iff_example = is_contiguous_iff matrix matrix-IsView (omega arith) (omega arith)

has_broadcast_dim_answer_example :
    (b : Bool) × (has_broadcast_dim expanded ≡ ok b)
    × (b ≡ true → is_broadcast expanded.shape expanded.strides ≡ true)
    × (NoUnit expanded.shape → b ≡ is_broadcast expanded.shape expanded.strides)
    × (get_elem? expanded.shape 0 ≡ some 1 → b ≡ false)
has_broadcast_dim_answer_example = has_broadcast_dim_answer expanded expanded-IsView
