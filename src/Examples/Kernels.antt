-- ===== src/Examples/Kernels.antt =====
-- The CPU's matrix product, and constructors of its neighbours, at concrete inputs.
use infini_ops.Prelude.{
  ℕ, ◌+◌, ◌*◌, ◌<◌, ◌≤◌, ◌≡◌, refl, true, false, none, some, [], ◌∷◌, ◌++◌, arith, ok, ◌>>=◌, ◌==◌,
}
use infini_ops.DataType.{float32, int64, int32}
use infini_ops.Device.{default_device}
use infini_ops.Tensor.{
  Tensor, strided, size, ndim, numel, get_effective_index, product_from, transpose,
}
use infini_ops.Base.Checks.{divide}
use infini_ops.Base.Embedding.{Embedding, embedding, prefix_matches}
use infini_ops.Base.Embedding.Accepted.{embedding-shape}
use infini_ops.Base.RotaryEmbedding.{RotaryEmbedding, rotary_embedding, heads_of}
use infini_ops.Cpu.MatrixLoops.{Arithmetic}
use infini_ops.Cpu.Gemm.{gemm_finish}
use infini_ops.Cpu.Gemm.Laws.{IsMatrix, gemm_call, gemm_call-transpose}
use infini_ops.Cpu.Gemm.Product.{gemm_call-product, left_sum, term}

-- Elements and sums are numbers.
abbrev numbers : Arithmetic ℕ ℕ
numbers = record {
  to_float = λ x. x;
  of_float = λ x. x;
  nothing = 0;
  plus = λ x y. x + y;
  times = λ x y. x * y;
  is_nothing = λ x. x == 0;
}

abbrev matrix : ℕ → ℕ → Tensor
matrix rows cols = strided 1000 (rows ∷ cols ∷ []) float32 default_device (cols ∷ 1 ∷ [])

matrix-IsMatrix : (rows cols : ℕ) → IsMatrix (matrix rows cols) rows cols cols 1
matrix-IsMatrix rows cols = record { shape = refl; strides = refl }

abbrev counting : ℕ → ℕ
counting x = x + 1

gemm_call-product_example :
    (result : ℕ → ℕ) × (gemm_call numbers 1 counting counting none
        (some 0)
        (matrix 2 3)
        (matrix 3 2)
        (some 0)
        (some 0)
        (matrix 2 2)
        counting
      ≡ ok result)
    × ((i j : ℕ)
        → i < 2
        → j < 2
        → result (i * 2 + j)
          ≡ gemm_finish numbers 1 0
              (left_sum (λ x y. x + y) 0 (term numbers counting counting 3 1 2 1 i j) 3)
              (counting (i * 2 + j)))
    × ((x : ℕ) → 2 * 2 ≤ x → result x ≡ counting x)
gemm_call-product_example =
    gemm_call-product numbers counting counting 1 none (some 0) counting (matrix 2 3) (matrix 3 2)
      (matrix 2 2) 2 2 3 3 3 1 2 1 (matrix-IsMatrix 2 3) (matrix-IsMatrix 3 2) (matrix-IsMatrix 2 2)
      (omega arith)

gemm_call-transpose_example :
    gemm_call numbers 1 counting counting none none
      (matrix 2 3)
      (matrix 2 3)
      (some 0)
      (some 1)
      (matrix 2 2)
      counting
    ≡ (transpose (matrix 2 3) >>= λ b'.
        gemm_call numbers 1 counting counting none none
          (matrix 2 3)
          b'
          (some 0)
          (some 0)
          (matrix 2 2)
          counting)
gemm_call-transpose_example =
    gemm_call-transpose numbers 1 counting counting none none false true (matrix 2 3) (matrix 2 3)
      (matrix 2 2) 2 3 2 3 2 2 3 1 3 1 2 1 counting (matrix-IsMatrix 2 3) (matrix-IsMatrix 2 3)
      (matrix-IsMatrix 2 2)

abbrev ids : Tensor
ids = strided 64 (5 ∷ []) int32 default_device (1 ∷ [])

abbrev looked_up : Embedding
looked_up = record {
  num_tokens = 5;
  vocab_size = 10;
  hidden_size = 4;
  input_dtype = int32;
  weight_dtype = float32;
}

ids_accepted : embedding ids (matrix 10 4) (matrix 5 4) ≡ ok looked_up
unfolding embedding prefix_matches size ndim numel get_effective_index product_from
ids_accepted = refl

embedding-shape_example :
    ((matrix 10 4).shape ≡ 10 ∷ 4 ∷ []) × ((matrix 5 4).shape ≡ (5 ∷ []) ++ 4 ∷ [])
embedding-shape_example =
    embedding-shape ids (matrix 10 4) (matrix 5 4) looked_up (omega arith) ids_accepted

abbrev positions : Tensor
positions = strided 64 (2 ∷ []) int64 default_device (1 ∷ [])

abbrev split_key : Tensor
split_key = strided 64 (2 ∷ 1 ∷ 8 ∷ []) float32 default_device (8 ∷ 8 ∷ 1 ∷ [])

abbrev rotated : RotaryEmbedding
rotated = record {
  num_tokens = 2;
  num_heads = 4;
  num_kv_heads = 1;
  head_size = 8;
  rotary_dim = 8;
  is_neox_style = true;
  has_key = true;
  pre_gathered = false;
}

rotary_accepted :
    rotary_embedding positions (matrix 2 32) (some split_key) 8 (matrix 16 8) true 8 none none false
    ≡ ok rotated
unfolding rotary_embedding heads_of size ndim numel get_effective_index product_from divide
rotary_accepted = refl
