-- ===== src/Examples/Grids.antt =====
-- The CUDA back end at concrete inputs.
use native.Mathlib.Nat.{mul_comm}
use infini_ops.Prelude.{
  zero, suc, ℕ, ◌+◌, ◌*◌, ◌/◌, ◌%◌, ◌<◌, ◌≡◌, ◌≢◌, refl, sym, dec_lt, subst, arith, true, false,
  none, some, List, [], ◌∷◌, ◌++◌, ◌^◌, ok, inl, inr, ◌==◌, if◌then◌else◌,
}
use infini_ops.Prelude.Schedule.{Occurs}
use infini_ops.Common.Traits.{contains, filter}
use infini_ops.Common.Dispatcher.{dispatch_multi, dispatch_func}
use infini_ops.Common.GenericUtils.{ceil_div}
use infini_ops.DataType.{all_types, float32}
use infini_ops.Device.{default_device}
use infini_ops.Tensor.{Tensor, strided, size, stride, get_effective_index}
use infini_ops.Base.Elementwise.{Elementwise}
use infini_ops.Base.Checks.{signed_max}
use infini_ops.Base.Gemm.{gemm, leading, batch_stride}
use infini_ops.Cpu.MatrixLoops.{Arithmetic}
use infini_ops.Cpu.Gemm.{gemm_finish}
use infini_ops.Cpu.Gemm.Product.{left_sum}
use infini_ops.Cuda.Launch.{Grid, grid_of, thread_index, compute_optimal_block_size}
use infini_ops.Cuda.Elementwise.{thread_offset, run_thread, run_threads, launch, cuda_add}
use infini_ops.Cuda.Elementwise.Threads.{IsPlaced}
use infini_ops.Cuda.Elementwise.Laws.{cuda_add-elements, cuda_add-beyond}
use infini_ops.Cuda.Gemm.{BlasGemm, BlasCall, blas_gemm, blas_call, get_op_a, get_op_b}
use infini_ops.Cuda.Gemm.Laws.{Memory, IsStridedBatched, column_major, strided_place}
use infini_ops.Cuda.Gemm.Product.{HasStrides, blas_call-product}

-- Three elements, one block.
abbrev three_sums : Elementwise
three_sums = record {
  dims = 1;
  output_size = 3;
  input_type = float32;
  other_type = float32;
  out_type = float32;
  input_shape = 3 ∷ [];
  other_shape = 3 ∷ [];
  out_shape = 3 ∷ [];
  input_strides = 1 ∷ [];
  other_strides = 1 ∷ [];
  out_strides = 1 ∷ [];
  is_input_contiguous = true;
  is_other_contiguous = true;
  is_out_contiguous = true;
}

three_sums-IsPlaced : IsPlaced three_sums (λ i. i) (λ i. i) (λ i. i)
unfolding thread_offset
three_sums-IsPlaced = record {
  input_placed = λ i lt. refl;
  other_placed = λ i lt. refl;
  out_placed = λ i lt. refl;
  apart = λ i j hi hj e. e;
}

-- The threads of a block from the last, and the blocks from the last.
abbrev threads_down : ℕ → ℕ → List (ℕ × ℕ)
threads_down b zero = []
threads_down b (suc t) = (b, t) ∷ threads_down b t

abbrev blocks_down : ℕ → ℕ → List (ℕ × ℕ)
blocks_down zero d = []
blocks_down (suc b) d = threads_down b d ++ blocks_down b d

last_of : (n t : ℕ) → t < suc n → (t < n → ⊥) → n ≡ t
last_of n t lt last = omega arith

threads_down-Occurs : (b n t : ℕ) → t < n → Occurs (b, t) (threads_down b n)
threads_down-Occurs b zero t lt = absurd (omega arith)
threads_down-Occurs b (suc n) t lt = elim (dec_lt t n) [
  | yes below ↦ inr (threads_down-Occurs b n t below)
  | no last ↦ inl (λ i. (b, last_of n t lt last i))
]

Occurs-left : (j : ℕ × ℕ) (xs ys : List (ℕ × ℕ)) → Occurs j xs → Occurs j (xs ++ ys)
Occurs-left j [] ys h = elim h [ ]
Occurs-left j (x ∷ xs) ys (inl e) = inl e
Occurs-left j (x ∷ xs) ys (inr h) = inr (Occurs-left j xs ys h)

Occurs-right : (j : ℕ × ℕ) (xs ys : List (ℕ × ℕ)) → Occurs j ys → Occurs j (xs ++ ys)
Occurs-right j [] ys h = h
Occurs-right j (x ∷ xs) ys h = inr (Occurs-right j xs ys h)

blocks_down-Occurs : (n d b t : ℕ) → b < n → t < d → Occurs (b, t) (blocks_down n d)
blocks_down-Occurs zero d b t hb ht = absurd (omega arith)
blocks_down-Occurs (suc n) d b t hb ht = elim (dec_lt b n) [
  | yes below ↦
      Occurs-right (b, t) (threads_down n d) (blocks_down n d) (blocks_down-Occurs n d b t below ht)
  | no last ↦
      Occurs-left (b, t) (threads_down n d) (blocks_down n d)
        (subst (λ k. Occurs (b, t) (threads_down k d)) (sym (last_of n b hb last))
          (threads_down-Occurs b d t ht))
]

abbrev downwards : Grid → List (ℕ × ℕ)
downwards grid = blocks_down grid.grid_dim grid.block_dim

cuda_add-elements_example :
    (result : ℕ → ℕ) × (cuda_add ◌+◌ three_sums
        (λ j. j)
        (λ j. 10)
        (compute_optimal_block_size 1024)
        downwards
        (λ j. 0)
      ≡ ok result)
    × ((i : ℕ) → i < 3 → result i ≡ i + 10)
    × ((x : ℕ) → ((i : ℕ) → i < 3 → x ≢ i) → result x ≡ 0)
cuda_add-elements_example =
    cuda_add-elements ◌+◌ three_sums (λ j. j) (λ j. 10) 1024 downwards (λ i. i) (λ i. i) (λ i. i)
      (λ j. 0) three_sums-IsPlaced
      (λ grid b t hb ht. blocks_down-Occurs grid.grid_dim grid.block_dim b t hb ht) (omega arith)
      (omega arith)

abbrev no_sums : Elementwise
no_sums = record three_sums { output_size = 0; out_shape = 0 ∷ [] }

-- One element more than a grid has indices, of which the first has been written.
abbrev many_sums : Elementwise
many_sums = record three_sums { output_size = 2 ^ 32 + 1; out_shape = (2 ^ 32 + 1) ∷ [] }

many_sums-IsPlaced : IsPlaced many_sums (λ i. i) (λ i. i) (λ i. i)
unfolding thread_offset
many_sums-IsPlaced = record {
  input_placed = λ i lt. refl;
  other_placed = λ i lt. refl;
  out_placed = λ i lt. refl;
  apart = λ i j hi hj e. e;
}

abbrev first_written : ℕ → ℕ
first_written x = if x == 0 then 10 else 0

first_thread :
    cuda_add ◌+◌ many_sums
      (λ j. j)
      (λ j. 10)
      (compute_optimal_block_size 1024)
      (λ grid. (0, 0) ∷ [])
      (λ j. 0)
    ≡ ok first_written
unfolding cuda_add launch dispatch_multi dispatch_func filter contains compute_optimal_block_size
    grid_of ceil_div run_threads run_thread thread_offset thread_index all_types
first_thread = refl

cuda_add-beyond_example : first_written (2 ^ 32) ≡ 0
cuda_add-beyond_example =
    cuda_add-beyond ◌+◌ many_sums (λ j. j) (λ j. 10) 1024 (λ grid. (0, 0) ∷ []) (λ i. i) (λ i. i)
      (λ i. i) (λ j. 0) first_written (2 ^ 32) many_sums-IsPlaced first_thread (omega arith)
      (omega arith)

abbrev numbers : Arithmetic ℕ ℕ
numbers = record {
  to_float = λ x. x;
  of_float = λ x. x;
  nothing = 0;
  plus = ◌+◌;
  times = ◌*◌;
  is_nothing = λ x. x == 0;
}

abbrev row_major : ℕ → List ℕ → List ℕ → Tensor
row_major data_ shape strides = strided data_ shape float32 default_device strides

abbrev row : Tensor
row = row_major 100 (1 ∷ 2 ∷ []) (2 ∷ 1 ∷ [])

abbrev square : Tensor
square = row_major 200 (2 ∷ 2 ∷ []) (2 ∷ 1 ∷ [])

abbrev outcome : Tensor
outcome = row_major 300 (1 ∷ 2 ∷ []) (2 ∷ 1 ∷ [])

abbrev strides_two :
    (data_ rows : ℕ) → HasStrides (row_major data_ (rows ∷ 2 ∷ []) (2 ∷ 1 ∷ [])) 2 1
strides_two data_ rows = record {
  rows = unfold stride get_effective_index in refl;
  cols = unfold stride get_effective_index in refl;
}

-- The library, for one matrix.
abbrev column_blas : BlasCall ℕ → Memory ℕ → Memory ℕ
column_blas call mem address x =
    if address == call.c.data_
    then gemm_finish numbers call.alpha call.beta
        (left_sum ◌+◌ 0
          (λ l.
            mem call.a.data_ (column_major call.op_a call.a.ld (x % call.c.ld) l)
            * mem call.b.data_ (column_major call.op_b call.b.ld l (x / call.c.ld)))
          call.k)
        (mem address x)
    else mem address x

abbrev product_op : BlasGemm ℕ
product_op = record {
  gemm = record {
    alpha = 1;
    beta = 1;
    trans_a = false;
    trans_b = false;
    m = 1;
    n = 2;
    k = 2;
    a_type = float32;
    b_type = float32;
    c_type = float32;
    a_strides = 2 ∷ 1 ∷ [];
    b_strides = 2 ∷ 1 ∷ [];
    c_strides = 2 ∷ 1 ∷ [];
    lda = 2;
    ldb = 2;
    ldc = 2;
    batch_count = 1;
    batch_stride_a = 0;
    batch_stride_b = 0;
    batch_stride_c = 0;
  };
  a_is_col_major = true;
  b_is_col_major = true;
  swap_a_and_b = true;
}

product_op_made : blas_gemm 1 row square none none none none outcome ≡ ok product_op
unfolding blas_gemm gemm leading batch_stride size stride get_effective_index signed_max
product_op_made = refl

-- The second matrix transposed, on memory with the address and the offset in each place.
abbrev product_call : BlasCall ℕ
product_call = blas_call product_op row square none none none (some 1) outcome

abbrev sums : Memory ℕ
sums address x = address + x

product_documented :
    IsStridedBatched numbers (λ k term. left_sum ◌+◌ 0 term k) column_blas product_call sums
unfolding blas_call get_op_a get_op_b gemm_finish
product_documented zero zero zero hb hi hj = refl
product_documented zero (suc zero) zero hb hi hj = refl
product_documented zero (suc (suc i)) zero hb hi hj = absurd (omega arith)
product_documented zero i (suc j) hb hi hj = absurd (omega arith)
product_documented (suc batch) i j hb hi hj = absurd (omega arith)

blas_call-product_example :
    column_blas product_call sums 300 (0 * 0 + (0 * 2 + 1 * 1))
    ≡ gemm_finish numbers 1 1
        (left_sum ◌+◌ 0
          (λ l.
            (100 + (0 * 0 + strided_place 0 2 1 0 l)) * (200 + (0 * 0 + strided_place 1 2 1 l 1)))
          2)
        (300 + (0 * 0 + (0 * 2 + 1 * 1)))
blas_call-product_example =
    blas_call-product numbers (λ k term. left_sum ◌+◌ 0 term k) 1 row square none none none none
      outcome 2 1 2 1 2 1 product_op none none none (some 1) column_blas sums 0 0 1
      (strides_two 100 1) (strides_two 200 2) (strides_two 300 1)
      (inl (refl, omega arith, omega arith)) (inl (refl, omega arith, omega arith))
      (inl (refl, omega arith, omega arith)) (λ x y. mul_comm x y) product_op_made (omega arith)
      (omega arith) product_documented (omega arith) (omega arith) (omega arith)
