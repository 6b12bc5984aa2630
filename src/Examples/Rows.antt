-- ===== src/Examples/Rows.antt =====
-- The CPU's softmax, normalisation, sampler and linear layer at concrete inputs.
use infini_ops.Prelude.{
  Option, ◌>>=◌, ◌*◌, ◌≤◌, List, some, Bool, ℕ, ◌+◌, ◌-◌, ◌*◌, ◌/◌, ◌<◌, ◌≤◌, ◌≡◌, ◌≢◌, true, false,
  none, [], ◌∷◌, arith, ok, ◌==◌, ltb, leb,
}
use infini_ops.DataType.{float32}
use infini_ops.Device.{default_device}
use infini_ops.Tensor.{Tensor, strided}
use infini_ops.Base.Softmax.{CausalSoftmax}
use infini_ops.Base.Normalization.{rms_norm}
use infini_ops.Base.Sampling.{TopKTopPSampler}
use infini_ops.Cpu.MatrixLoops.{Arithmetic}
use infini_ops.Cpu.Linear.{run_linear}
use infini_ops.Cpu.Gemm.Product.{left_sum}
use infini_ops.Cpu.Linear.Product.{operand, biased, product_term, run_linear-entries, row_major}
use infini_ops.Cpu.CausalSoftmax.{
  SoftmaxArithmetic, RowStrides, out_place, exponential, softmax_batches,
}
use infini_ops.Cpu.CausalSoftmax.Laws.{softmax_batches-entries, InRange, total_of}
use infini_ops.Cpu.RmsNorm.{NormArithmetic, run_rms_norm}
use infini_ops.Cpu.RmsNorm.Laws.{dense_rows, norm_value, run_rms_norm-entries}
use infini_ops.Cpu.Sampler.{SamplerArithmetic, SamplerLibrary}
use infini_ops.Cpu.Sampler.Laws.{sorts_before}

abbrev counting : ℕ → ℕ
counting x = x + 1

abbrev softmax_numbers : SoftmaxArithmetic ℕ ℕ
softmax_numbers = record {
  to_float = λ x. x;
  of_float = λ x. x;
  nothing = 0;
  plus = λ x y. x + y;
  minus = λ x y. x - y;
  over = λ x y. x / y;
  exp = counting;
  greater = λ x y. ltb y x;
}

-- Two rows of three columns.
abbrev softmax : CausalSoftmax
softmax = record {
  dtype = float32;
  dims = 2;
  batch_size = 1;
  seq_len = 2;
  total_seq_len = 3;
  input_strides = 3 ∷ 1 ∷ [];
  out_strides = 3 ∷ 1 ∷ [];
}

abbrev softmax_strides : RowStrides
softmax_strides = record {
  out_stride_b = 0;
  out_stride_i = 3;
  out_stride_j = 1;
  input_stride_b = 0;
  input_stride_i = 3;
  input_stride_j = 1;
}

abbrev softmax_place : ℕ → ℕ → ℕ → ℕ
softmax_place = out_place softmax_numbers softmax softmax_strides counting

softmax_batches-entries_example :
    ((bi i j : ℕ)
      → InRange softmax_numbers softmax softmax_strides counting bi i j
      → (j < 3 - 2 + i + 1
          → softmax_batches softmax_numbers softmax softmax_strides counting counting
              (softmax_place bi i j)
            ≡ exponential softmax_numbers softmax softmax_strides counting bi i j
              / total_of softmax_numbers softmax softmax_strides counting bi i)
        × (3 - 2 + i + 1 ≤ j
            → softmax_batches softmax_numbers softmax softmax_strides counting counting
                (softmax_place bi i j)
              ≡ 0))
    × ((x : ℕ)
        → ((bi i j : ℕ)
            → InRange softmax_numbers softmax softmax_strides counting bi i j
            → x ≢ softmax_place bi i j)
        → softmax_batches softmax_numbers softmax softmax_strides counting counting x ≡ counting x)
softmax_batches-entries_example =
    softmax_batches-entries softmax_numbers softmax softmax_strides counting counting
      (λ bi i j bi' i' j' r r' e. omega arith) (omega arith) (omega arith)

abbrev norm_numbers : NormArithmetic ℕ ℕ
norm_numbers = record {
  to_float = λ x. x;
  of_float = λ x. x;
  nothing = 0;
  plus = λ x y. x + y;
  times = λ x y. x * y;
  inverse_root = λ ss dim eps. ss / dim + eps;
}

-- Two rows of three heads of four elements, eight places apart.
abbrev three_heads : Option (ℕ × ℕ)
three_heads = some (3, 8)

abbrev unit_weight : Tensor
unit_weight = strided 64 (4 ∷ []) float32 default_device (1 ∷ [])

run_rms_norm-entries_example :
    (result : ℕ → ℕ) × ((rms_norm
          (dense_rows three_heads 64 2 24 4 float32 default_device)
          unit_weight
          1
          (strided 64 (2 ∷ 3 ∷ 4 ∷ []) float32 default_device (12 ∷ 4 ∷ 1 ∷ []))
        >>= λ op. run_rms_norm norm_numbers op op.eps counting counting counting)
      ≡ ok result)
    × ((bi hi k : ℕ)
        → bi < 2
        → hi < 3
        → k < 4
        → result (bi * 12 + (hi * 4 + k))
          ≡ norm_value norm_numbers counting counting 24 8 4 1 bi hi k)
    × ((x : ℕ) → 24 ≤ x → result x ≡ counting x)
run_rms_norm-entries_example =
    run_rms_norm-entries norm_numbers counting counting three_heads 64 64 2 24 4 float32
      default_device unit_weight 1 counting (omega arith)

abbrev sampler_numbers : SamplerArithmetic ℕ ℕ ℕ
sampler_numbers = record {
  to_float = λ x. x;
  lowest = 0;
  greater = λ x y. ltb y x;
  exp_of_difference = λ x y. x + 100 - y;
  nothing = 0;
  one = 100;
  plus = λ x y. x + y;
  over = λ x y. x * 100 / y;
  at_least = λ x y. leb y x;
  is_proper = λ p. ltb p 100;
}

-- A list that is sorted as it is, and a draw of the first.
abbrev library : SamplerLibrary ℕ ℕ
library = record { sort = λ less xs. xs; draw = λ w ws. (0, w + 1) }

abbrev sampler : TopKTopPSampler
sampler = record { batch_size = 1; vocab_size = 50; dtype = float32 }

-- Logits that fall.
abbrev falling : ℕ → ℕ
falling x = 100 - x

abbrev falling_before : ℕ → ℕ → Bool
falling_before = sorts_before sampler_numbers library sampler falling 1

-- At least one weight, and none of them 0.
abbrev ArePositive : List ℕ → Type 0
ArePositive [] = Unit {0}
ArePositive (w ∷ ws) = (0 < w) × ArePositive ws

abbrev numbers : Arithmetic ℕ ℕ
numbers = record {
  to_float = λ x. x;
  of_float = λ x. x;
  nothing = 0;
  plus = λ x y. x + y;
  times = λ x y. x * y;
  is_nothing = λ x. x == 0;
}

run_linear-entries_example :
    (result : ℕ → ℕ) × (run_linear numbers
        (operand (some (2, 12)) false 64 3 4 4 1 float32 default_device)
        (operand none true 64 4 5 1 4 float32 default_device)
        (some (strided 0 (5 ∷ []) float32 default_device (1 ∷ []), counting))
        false
        true
        (row_major 64 2 3 5 float32 default_device)
        counting
        counting
        counting
      ≡ ok result)
    × ((q i j : ℕ)
        → q < 2
        → i < 3
        → j < 5
        → result (q * 15 + (i * 5 + j))
          ≡ biased numbers counting counting
              (some (1, counting))
              j
              (left_sum ◌+◌ 0 (product_term numbers counting counting q i j 12 4 1 0 1 4) 4))
    × ((x : ℕ) → 30 ≤ x → result x ≡ counting x)
run_linear-entries_example =
    run_linear-entries numbers counting counting (some (2, 12)) none false true (some (1, counting))
      64 64 64 2 3 5 4 4 1 1 4 float32 default_device counting (omega arith) (omega arith)
