-- ===== src/Cpu/RmsNorm/Laws.antt =====
-- What the normalisation leaves.
use infini_ops.Prelude.{
  ℕ, zero, suc, ◌+◌, ◌*◌, ◌%◌, ◌^◌, ◌<◌, ◌≤◌, ◌≡◌, ◌≢◌, refl, ap, sym, ◌∙◌, arith, [], ◌∷◌, Option,
  none, some, length, add64, mul64, ok, ◌>>=◌,
}
use infini_ops.DataType.{DataType, data_type_eq}
use infini_ops.Device.{Device}
use infini_ops.Tensor.{Tensor, strided, size, ndim, get_effective_index}
use infini_ops.Base.Normalization.{RmsNorm, rms_norm, batch_and_heads}
use infini_ops.Cpu.Gemm.Product.{left_sum}
use infini_ops.Cpu.MatrixLoops.RowMajor.{next_row, parts_unique, place_below}
use infini_ops.Cpu.MatrixLoops.Nest.{In, IsApart, nest-entry, nest-other}
use infini_ops.Cpu.RmsNorm.{
  NormArithmetic, HeadStrides, head_strides, norm_out_place, normalized, normalize_rows, element,
  squares_from, rms_of, run_rms_norm,
}

module _ {T F : Type 0} (f : NormArithmetic T F) (op : RmsNorm F) (s : HeadStrides) (eps : F)
    (input weight : ℕ → T) where
  -- The elements of the output have places of their own.
  abbrev pub IsSpread : Type 0
  IsSpread =
      IsApart (norm_out_place f op s eps input weight)
        (λ bi hi k old. normalized f op s eps input weight bi hi k) op.nhead op.dim op.batch_size

  abbrev pub IsElement : (bi hi k : ℕ) → Type 0
  IsElement =
      In (norm_out_place f op s eps input weight)
        (λ bi hi k old. normalized f op s eps input weight bi hi k) op.nhead op.dim op.batch_size

  -- A run at the places and with the values of the code's own functions.
  spread_entries :
      (out : ℕ → T)
      → head_strides op ≡ ok s
      → IsSpread
      → (result : ℕ → T) × (run_rms_norm f op eps input weight out ≡ ok result)
        × ((bi hi k : ℕ)
            → IsElement bi hi k
            → result (norm_out_place f op s eps input weight bi hi k)
              ≡ normalized f op s eps input weight bi hi k)
        × ((x : ℕ)
            → ((bi hi k : ℕ)
                → IsElement bi hi k
                → x ≢ norm_out_place f op s eps input weight bi hi k)
            → result x ≡ out x)
  unfolding run_rms_norm normalize_rows
  spread_entries out known sep =
      let place = norm_out_place f op s eps input weight in
      let value = λ (bi hi k : ℕ) (old : T). normalized f op s eps input weight bi hi k in
      (
        normalize_rows f op s eps input weight out,
        rw known refl,
        λ bi hi k inside.
            nest-entry place value op.nhead op.dim op.batch_size sep bi hi k inside out,
        λ x apart. nest-other place value op.nhead op.dim op.batch_size x out apart,
      )

-- The heads of a tensor of three dimensions with their stride, and one head for one of two.
abbrev pub head_count : Option (ℕ × ℕ) → ℕ
head_count none = 1
head_count (some (count, stride)) = count

abbrev pub head_stride : Option (ℕ × ℕ) → ℕ
head_stride none = 1
head_stride (some (count, stride)) = stride

-- A tensor whose rows are dense.
abbrev pub dense_rows : Option (ℕ × ℕ) → (data_ batch stride dim : ℕ) → DataType → Device → Tensor
dense_rows none data_ batch stride dim dtype device =
    strided data_ (batch ∷ dim ∷ []) dtype device (stride ∷ 1 ∷ [])
dense_rows (some (count, by)) data_ batch stride dim dtype device =
    strided data_ (batch ∷ count ∷ dim ∷ []) dtype device (stride ∷ by ∷ 1 ∷ [])

-- The heads of a tensor in row-major order.
abbrev pub in_row_major : Option (ℕ × ℕ) → ℕ → Option (ℕ × ℕ)
in_row_major none dim = none
in_row_major (some (count, by)) dim = some (count, dim)

module _ {F : Type 0} (data_ data_out batch stride dim : ℕ) (dtype : DataType) (device : Device)
    (weight : Tensor) (eps : F) where
  abbrev pub output_of : Option (ℕ × ℕ) → Tensor
  output_of heads =
      dense_rows (in_row_major heads dim) data_out batch (head_count heads * dim) dim dtype device

  -- The operator that the constructor makes.
  abbrev made_of : Option (ℕ × ℕ) → RmsNorm F
  made_of heads = record {
    input_shape = (dense_rows heads data_ batch stride dim dtype device).shape;
    out_shape = (output_of heads).shape;
    input_strides = (dense_rows heads data_ batch stride dim dtype device).strides;
    out_strides = (output_of heads).strides;
    eps = eps;
    dim = dim;
    dims = length (output_of heads).shape;
    batch_size = batch;
    nhead = head_count heads;
  }

  abbrev strides_of : Option (ℕ × ℕ) → HeadStrides
  strides_of heads = record {
    stride_input_batch = stride;
    stride_input_nhead = head_stride heads;
    stride_out_batch = head_count heads * dim;
    stride_out_nhead = head_stride (in_row_major heads dim);
  }

  rms_norm-made :
      (heads : Option (ℕ × ℕ))
      → rms_norm (dense_rows heads data_ batch stride dim dtype device) weight eps (output_of heads)
        ≡ ok (made_of heads)
  unfolding rms_norm batch_and_heads size ndim get_effective_index
  rms_norm-made none = rw ((data_type_eq.beq_iff dtype dtype).1 refl) refl
  rms_norm-made (some (count, by)) = rw ((data_type_eq.beq_iff dtype dtype).1 refl) refl

  head_strides-made :
      (heads : Option (ℕ × ℕ)) → head_strides (made_of heads) ≡ ok (strides_of heads)
  unfolding head_strides
  head_strides-made none = refl
  head_strides-made (some (count, by)) = refl

three_words : (x y z : ℕ) → add64 (add64 (x % 2 ^ 64) (y % 2 ^ 64)) z ≡ (x + y + z) % 2 ^ 64
three_words x y z = omega arith

-- The place of an element in row-major order.
row_major_out :
    (heads : Option (ℕ × ℕ)) (batch dim bi hi k : ℕ)
    → bi < batch
    → hi < head_count heads
    → k < dim
    → batch * (head_count heads * dim) < 2 ^ 64
    → add64
        (add64
          (mul64 bi (head_count heads * dim))
          (mul64 hi (head_stride (in_row_major heads dim))))
        k
      ≡ bi * (head_count heads * dim) + (hi * dim + k)
row_major_out none batch dim bi hi k hb hh hk small =
    let below = place_below 1 dim batch bi hi k hb hh hk in
    let only : hi ≡ 0 = omega arith in
    let none_before : hi * dim ≡ 0 = ap (λ (h : ℕ). h * dim) only ∙ omega arith in
    let p : ℕ = bi * (1 * dim) in let r : ℕ = hi * dim in omega arith
row_major_out (some (count, by)) batch dim bi hi k hb hh hk small =
    let below = place_below count dim batch bi hi k hb hh hk in
    let p : ℕ = bi * (count * dim) in let r : ℕ = hi * dim in omega arith

row_major_unique :
    (m n b i j b' i' j' : ℕ)
    → i < m
    → j < n
    → i' < m
    → j' < n
    → b * (m * n) + (i * n + j) ≡ b' * (m * n) + (i' * n + j')
    → (b ≡ b') × (i ≡ i') × (j ≡ j')
row_major_unique m n b i j b' i' j' hi hj hi' hj' e =
    let row = next_row i m n hi in
    let row' = next_row i' m n hi' in
    let (same_b, rest) =
      parts_unique (m * n) b (i * n + j) b' (i' * n + j') (omega arith) (omega arith) e in
    let (same_i, same_j) = parts_unique n i j i' j' hj hj' rest in (same_b, same_i, same_j)

module _ {T F : Type 0} (f : NormArithmetic T F) (input weight_data : ℕ → T) where
  -- An element of the input, by its place.
  abbrev pub input_number : (stride by bi hi k : ℕ) → F
  input_number stride by bi hi k = f.to_float (input ((bi * stride + hi * by + k) % 2 ^ 64))

  -- The element times the weight, times the inverse root of the sum of the squares of its row.
  abbrev pub norm_value : (stride by dim : ℕ) → F → (bi hi k : ℕ) → T
  norm_value stride by dim eps bi hi k = f.of_float (
      f.times (f.times (input_number stride by bi hi k) (f.to_float (weight_data k))) (
        f.inverse_root
          (left_sum f.plus f.nothing
            (λ j. f.times (input_number stride by bi hi j) (input_number stride by bi hi j)) dim)
          dim eps))

  module _ (op : RmsNorm F) (s : HeadStrides) (eps : F) (bi hi : ℕ) where
    abbrev square : ℕ → F
    square k =
        f.times (element f op s eps input weight_data bi hi k)
          (element f op s eps input weight_data bi hi k)

    squares_from-left_sum :
        (rounds k : ℕ)
        → squares_from f op s eps input weight_data bi hi rounds k
            (left_sum f.plus f.nothing square k)
          ≡ left_sum f.plus f.nothing square (k + rounds)
    unfolding squares_from
    squares_from-left_sum zero k = ap (left_sum f.plus f.nothing square) (omega arith)
    squares_from-left_sum (suc rounds) k =
        let next : k + 1 ≡ suc k = omega arith in
        let reach : suc k + rounds ≡ k + suc rounds = omega arith in
        ap
          (λ q.
            squares_from f op s eps input weight_data bi hi rounds q
              (left_sum f.plus f.nothing square (suc k)))
          next
        ∙ squares_from-left_sum rounds (suc k)
        ∙ ap (left_sum f.plus f.nothing square) reach

    normalized-norm_value :
        (k : ℕ)
        → normalized f op s eps input weight_data bi hi k
          ≡ norm_value s.stride_input_batch s.stride_input_nhead op.dim eps bi hi k
    unfolding rms_of
    normalized-norm_value k =
        let sums =
          squares_from-left_sum op.dim 0 ∙ ap (left_sum f.plus f.nothing square) (omega arith) in
        let at : (j : ℕ)
            → element f op s eps input weight_data bi hi j
              ≡ input_number s.stride_input_batch s.stride_input_nhead bi hi j =
          λ j t.
            f.to_float
              (input (three_words (bi * s.stride_input_batch) (hi * s.stride_input_nhead) j t)) in
        ap
          (λ ss. f.of_float (
            f.times
              (f.times (element f op s eps input weight_data bi hi k) (f.to_float (weight_data k)))
              (f.inverse_root ss op.dim eps)))
          sums
        ∙ (λ t. f.of_float (
            f.times (f.times (at k t) (f.to_float (weight_data k))) (
              f.inverse_root (left_sum f.plus f.nothing (λ j. f.times (at j t) (at j t)) op.dim)
                op.dim eps)))

  -- For an input of two or three dimensions whose rows are dense, and an output in row-major order of
  -- its shape with fewer than 2 ^ 64 elements, the operator that the constructor makes returns. It
  -- leaves in each element of the output the input's element times the weight's, times the inverse root
  -- for the sum of the squares of its row, and it writes nowhere else.
  pub run_rms_norm-entries :
      (heads : Option (ℕ × ℕ)) (data_ data_out batch stride dim : ℕ) (dtype : DataType)
      (device : Device) (weight : Tensor) (eps : F) (out : ℕ → T)
      → batch * (head_count heads * dim) < 2 ^ 64
      → (result : ℕ → T) × ((rms_norm
              (dense_rows heads data_ batch stride dim dtype device)
              weight
              eps
              (output_of data_ data_out batch stride dim dtype device weight eps heads)
            >>= λ op. run_rms_norm f op op.eps input weight_data out)
          ≡ ok result)
        × ((bi hi k : ℕ)
            → bi < batch
            → hi < head_count heads
            → k < dim
            → result (bi * (head_count heads * dim) + (hi * dim + k))
              ≡ norm_value stride (head_stride heads) dim eps bi hi k)
        × ((x : ℕ) → batch * (head_count heads * dim) ≤ x → result x ≡ out x)
  run_rms_norm-entries heads data_ data_out batch stride dim dtype device weight eps out small =
      let n = head_count heads in
      let op = made_of data_ data_out batch stride dim dtype device weight eps heads in
      let s = strides_of data_ data_out batch stride dim dtype device weight eps heads in
      let place = norm_out_place f op s eps input weight_data in
      let at : (bi hi k : ℕ)
          → bi < batch
          → hi < n
          → k < dim
          → place bi hi k ≡ bi * (n * dim) + (hi * dim + k) =
        λ bi hi k hb hh hk. row_major_out heads batch dim bi hi k hb hh hk small in
      let (result, runs, entries, others) =
        spread_entries f op s eps input weight_data out
          (head_strides-made data_ data_out batch stride dim dtype device weight eps heads)
          (λ bi hi k bi' hi' k' r r' e.
            row_major_unique n dim bi hi k bi' hi' k' r.1 r.2 r'.1 r'.2
              (sym (at bi hi k r.0 r.1 r.2) ∙ e ∙ at bi' hi' k' r'.0 r'.1 r'.2)) in
      (
        result,
        ap (λ m. m >>= λ (op : RmsNorm F). run_rms_norm f op op.eps input weight_data out)
              (rms_norm-made data_ data_out batch stride dim dtype device weight eps heads)
            ∙ runs,
        λ bi hi k hb hh hk.
            ap result (sym (at bi hi k hb hh hk))
            ∙ entries bi hi k (hb, hh, hk)
            ∙ normalized-norm_value op s eps bi hi k,
        λ x above. others x (λ bi hi k r e.
            let below = place_below n dim batch bi hi k r.0 r.1 r.2 in
            omega (arith, e ∙ at bi hi k r.0 r.1 r.2)),
      )
