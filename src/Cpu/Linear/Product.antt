-- ===== src/Cpu/Linear/Product.antt =====
-- The CPU's `Linear` on a row-major batch.
use infini_ops.Prelude.{
  ℕ, zero, suc, add64, ◌%◌, none, some, true, false, ◌+◌, ◌*◌, ◌<◌, ◌≤◌, ◌^◌, ◌≡◌, refl, ap, sym,
  ◌∙◌, subst, Bool, Option, [], ◌∷◌, ok, ok-inj, arith, mul64, bind_ok, if◌then◌else◌,
}
use infini_ops.DataType.{DataType}
use infini_ops.Device.{Device}
use infini_ops.Tensor.{Tensor, strided}
use infini_ops.Cpu.Cat.{multiply}
use infini_ops.Cpu.MatrixLoops.{
  Arithmetic, MatrixLayout, multiply_matrices, sum_of, sum_from, offset_c, offset,
}
use infini_ops.Cpu.Gemm.Product.{left_sum}
use infini_ops.Cpu.MatrixLoops.Laws.{multiply_matrices-entry, multiply_matrices-other, IsSeparate}
use infini_ops.Cpu.MatrixLoops.RowMajor.{row_major-IsSeparate, offset-row_major, place_below}
use infini_ops.Cpu.Linear.{
  linear_layout, bias_of, linear_finish, run_linear, inner_size, inner_stride, outer_stride,
}

-- A batch of matrices in row-major order.
abbrev pub row_major : (data_ batch m n : ℕ) → DataType → Device → Tensor
row_major data_ batch m n dtype device =
    strided data_ (batch ∷ m ∷ n ∷ []) dtype device (m * n ∷ n ∷ 1 ∷ [])

-- What the layout takes from such an output.
pub record OfOutput (s : MatrixLayout) (batch m n : ℕ) : Type 0 where
  pub same_rows : s.m ≡ m
  pub same_columns : s.n ≡ n
  pub same_batches : s.batch_count ≡ batch
  pub column_stride : s.stride_c_n ≡ 1
  pub row_stride : s.stride_c_m ≡ n
  pub matrix_stride : s.batch_stride_c ≡ m * n

layout-OfOutput :
    (a b : Tensor) (data_ batch m n : ℕ) (dtype : DataType) (device : Device)
    (trans_a trans_b : Bool) (s : MatrixLayout)
    → batch < 2 ^ 64
    → linear_layout a b (row_major data_ batch m n dtype device) trans_a trans_b ≡ ok s
    → OfOutput s batch m n
unfolding linear_layout multiply
layout-OfOutput a b data_ batch m n dtype device trans_a trans_b s word h =
    let (k, e1, h1) = bind_ok (inner_size a (if trans_a then 2 else 1)) _ h in
    let (p, e2, h2) = bind_ok (inner_stride a (if trans_a then 1 else 2)) _ h1 in
    let (q, e3, h3) = bind_ok (inner_stride a (if trans_a then 2 else 1)) _ h2 in
    let (r, e4, h4) = bind_ok (inner_stride b (if trans_b then 1 else 2)) _ h3 in
    let (t, e5, h5) = bind_ok (inner_stride b (if trans_b then 2 else 1)) _ h4 in
    let (u, e6, h6) = bind_ok (outer_stride a) _ h5 in
    let (v, e7, h7) = bind_ok (outer_stride b) _ h6 in
    let made = ok-inj h7 in
    let count : mul64 1 batch ≡ batch = omega arith in
    record {
      same_rows = sym (ap (λ (l : MatrixLayout). l.m) made);
      same_columns = sym (ap (λ (l : MatrixLayout). l.n) made);
      same_batches = sym (ap (λ (l : MatrixLayout). l.batch_count) made) ∙ count;
      column_stride = sym (ap (λ (l : MatrixLayout). l.stride_c_n) made);
      row_stride = sym (ap (λ (l : MatrixLayout). l.stride_c_m) made);
      matrix_stride = sym (ap (λ (l : MatrixLayout). l.batch_stride_c) made);
    }

module _ {T F : Type 0} (f : Arithmetic T F) (a_data b_data : ℕ → T) where
  -- The same by the sizes and strides that the code reads.
  layout_entries :
      (a b : Tensor) (bias : Option (Tensor × (ℕ → T))) (given : Option (ℕ × (ℕ → T)))
      (trans_a trans_b : Bool) (data_ batch m n : ℕ) (dtype : DataType) (device : Device)
      (s : MatrixLayout) (c : ℕ → T)
      → batch < 2 ^ 64
      → batch * (m * n) < 2 ^ 64
      → linear_layout a b (row_major data_ batch m n dtype device) trans_a trans_b ≡ ok s
      → bias_of bias ≡ ok given
      → (result : ℕ → T) × (run_linear f a b bias trans_a trans_b
            (row_major data_ batch m n dtype device)
            a_data
            b_data
            c
          ≡ ok result)
        × ((k i j : ℕ)
            → k < batch
            → i < m
            → j < n
            → result (k * (m * n) + (i * n + j))
              ≡ linear_finish f given j
                  (sum_of f s a_data b_data k i j)
                  (c (k * (m * n) + (i * n + j))))
        × ((x : ℕ) → batch * (m * n) ≤ x → result x ≡ c x)
  unfolding run_linear
  layout_entries a b bias given trans_a trans_b data_ batch m n dtype device s c word small known
        with_bias =
      let o = layout-OfOutput a b data_ batch m n dtype device trans_a trans_b s word known in
      let finish = linear_finish f given in
      let sizes : s.batch_count * (s.m * s.n) ≡ batch * (m * n) =
        λ t. o.same_batches t * (o.same_rows t * o.same_columns t) in
      let sep : IsSeparate f s a_data b_data finish =
        row_major-IsSeparate f s a_data b_data finish o.column_stride
          (o.row_stride ∙ sym o.same_columns)
          (o.matrix_stride ∙ (λ t. sym o.same_rows t * sym o.same_columns t)) (omega arith) in
      let result = multiply_matrices f s a_data b_data finish c in
      let place : (k i j : ℕ)
          → k < batch
          → i < m
          → j < n
          → offset_c f s a_data b_data k i j ≡ k * (m * n) + (i * n + j) =
        λ k i j hk hi hj.
          (λ t. offset k (o.matrix_stride t) i (o.row_stride t) j (o.column_stride t))
          ∙ offset-row_major m n batch k i j hk hi hj small in
      (
        result,
        rw (known, with_bias) refl,
        λ k i j hk hi hj.
            subst (λ x. result x ≡ finish j (sum_of f s a_data b_data k i j) (c x))
              (place k i j hk hi hj)
              (multiply_matrices-entry f s a_data b_data finish sep k i j
                (
                  omega (arith, o.same_batches),
                  omega (arith, o.same_rows),
                  omega (arith, o.same_columns),
                )
                c),
        λ x above. multiply_matrices-other f s a_data b_data finish x c (λ k i j r e.
            let hk : k < batch = omega (arith, o.same_batches, r.0) in
            let hi : i < m = omega (arith, o.same_rows, r.1) in
            let hj : j < n = omega (arith, o.same_columns, r.2) in
            let at : x ≡ k * (m * n) + (i * n + j) = e ∙ place k i j hk hi hj in
            let below = place_below m n batch k i j hk hi hj in omega (arith, at)),
      )

-- A matrix or, with a number of matrices and a stride, a batch of them. `trans` swaps the last two
-- dimensions; the row stride stays that of the rows of the product.
abbrev pub operand :
    Option (ℕ × ℕ)
    → (trans : Bool) (data_ rows columns row_stride column_stride : ℕ) → DataType
    → Device
    → Tensor
operand none false data_ m n sm sn dtype device =
    strided data_ (m ∷ n ∷ []) dtype device (sm ∷ sn ∷ [])
operand none true data_ m n sm sn dtype device =
    strided data_ (n ∷ m ∷ []) dtype device (sn ∷ sm ∷ [])
operand (some (count, stride)) false data_ m n sm sn dtype device =
    strided data_ (count ∷ m ∷ n ∷ []) dtype device (stride ∷ sm ∷ sn ∷ [])
operand (some (count, stride)) true data_ m n sm sn dtype device =
    strided data_ (count ∷ n ∷ m ∷ []) dtype device (stride ∷ sn ∷ sm ∷ [])

-- The stride from one matrix to the next, 0 for one matrix.
abbrev pub next_matrix : Option (ℕ × ℕ) → ℕ
next_matrix none = 0
next_matrix (some (count, stride)) = stride

operand-row :
    (outer : Option (ℕ × ℕ)) (trans : Bool) (data_ m n sm sn : ℕ) (dtype : DataType)
    (device : Device)
    → inner_stride (operand outer trans data_ m n sm sn dtype device) (if trans then 1 else 2)
      ≡ ok sm
operand-row none false data_ m n sm sn dtype device = refl
operand-row none true data_ m n sm sn dtype device = refl
operand-row (some (c, d)) false data_ m n sm sn dtype device = refl
operand-row (some (c, d)) true data_ m n sm sn dtype device = refl

operand-column :
    (outer : Option (ℕ × ℕ)) (trans : Bool) (data_ m n sm sn : ℕ) (dtype : DataType)
    (device : Device)
    → inner_stride (operand outer trans data_ m n sm sn dtype device) (if trans then 2 else 1)
      ≡ ok sn
operand-column none false data_ m n sm sn dtype device = refl
operand-column none true data_ m n sm sn dtype device = refl
operand-column (some (c, d)) false data_ m n sm sn dtype device = refl
operand-column (some (c, d)) true data_ m n sm sn dtype device = refl

operand-size :
    (outer : Option (ℕ × ℕ)) (trans : Bool) (data_ m n sm sn : ℕ) (dtype : DataType)
    (device : Device)
    → inner_size (operand outer trans data_ m n sm sn dtype device) (if trans then 2 else 1) ≡ ok n
operand-size none false data_ m n sm sn dtype device = refl
operand-size none true data_ m n sm sn dtype device = refl
operand-size (some (c, d)) false data_ m n sm sn dtype device = refl
operand-size (some (c, d)) true data_ m n sm sn dtype device = refl

operand-next :
    (outer : Option (ℕ × ℕ)) (trans : Bool) (data_ m n sm sn : ℕ) (dtype : DataType)
    (device : Device)
    → outer_stride (operand outer trans data_ m n sm sn dtype device) ≡ ok (next_matrix outer)
operand-next none false data_ m n sm sn dtype device = refl
operand-next none true data_ m n sm sn dtype device = refl
operand-next (some (c, d)) false data_ m n sm sn dtype device = refl
operand-next (some (c, d)) true data_ m n sm sn dtype device = refl

words : (x y z : ℕ) → add64 (x % 2 ^ 64) (add64 (y % 2 ^ 64) (z % 2 ^ 64)) ≡ (x + (y + z)) % 2 ^ 64
words x y z = omega arith

-- An offset, by its parts.
offset-parts :
    (batch stride i si j sj : ℕ)
    → offset batch stride i si j sj ≡ (batch * stride + (i * si + j * sj)) % 2 ^ 64
offset-parts batch stride i si j sj = words (batch * stride) (i * si) (j * sj)

module _ {T F : Type 0} (f : Arithmetic T F) (a_data b_data : ℕ → T) where
  abbrev layout_term : MatrixLayout → (batch i j l : ℕ) → F
  layout_term s batch i j l =
      f.times (f.to_float (a_data (offset batch s.batch_stride_a i s.stride_a_m l s.stride_a_k)))
        (f.to_float (b_data (offset batch s.batch_stride_b l s.stride_b_k j s.stride_b_n)))

  sum_from-terms :
      (s : MatrixLayout) (batch i j rounds l : ℕ)
      → (let terms = layout_term s batch i j in
          sum_from f s a_data b_data batch i j rounds l (left_sum f.plus f.nothing terms l)
          ≡ left_sum f.plus f.nothing terms (l + rounds))
  unfolding sum_from
  sum_from-terms s batch i j zero l =
      ap (left_sum f.plus f.nothing (layout_term s batch i j)) (omega arith)
  sum_from-terms s batch i j (suc rounds) l =
      let terms = layout_term s batch i j in
      let next : l + 1 ≡ suc l = omega arith in
      let reach : suc l + rounds ≡ l + suc rounds = omega arith in
      ap
        (λ q.
          sum_from f s a_data b_data batch i j rounds q (left_sum f.plus f.nothing terms (suc l)))
        next
      ∙ sum_from-terms s batch i j rounds (suc l)
      ∙ ap (left_sum f.plus f.nothing terms) reach

  sum_of-terms :
      (s : MatrixLayout) (batch i j : ℕ)
      → sum_of f s a_data b_data batch i j ≡ left_sum f.plus f.nothing (layout_term s batch i j) s.k
  unfolding sum_of
  sum_of-terms s batch i j =
      sum_from-terms s batch i j s.k 0
      ∙ ap (left_sum f.plus f.nothing (layout_term s batch i j)) (omega arith)

  -- The bias of a column is added, if one is given: its stride and its elements.
  abbrev pub biased : Option (ℕ × (ℕ → T)) → ℕ → F → T
  biased none j sum = f.of_float sum
  biased (some (stride, bias)) j sum =
      f.of_float (f.plus sum (f.to_float (bias ((j * stride) % 2 ^ 64))))

  abbrev pub bias_tensor : Option (ℕ × (ℕ → T)) → ℕ → DataType → Device → Option (Tensor × (ℕ → T))
  bias_tensor none n dtype device = none
  bias_tensor (some (stride, bias)) n dtype device =
      some (strided 0 (n ∷ []) dtype device (stride ∷ []), bias)

  bias_of-tensor :
      (bias : Option (ℕ × (ℕ → T))) (n : ℕ) (dtype : DataType) (device : Device)
      → bias_of (bias_tensor bias n dtype device) ≡ ok bias
  unfolding bias_of
  bias_of-tensor none n dtype device = refl
  bias_of-tensor (some (stride, bias)) n dtype device = refl

  finish-biased :
      (bias : Option (ℕ × (ℕ → T))) (j : ℕ) (sum : F) (old : T)
      → linear_finish f bias j sum old ≡ biased bias j sum
  unfolding linear_finish
  finish-biased none j sum old = refl
  finish-biased (some (stride, bias)) j sum old = refl

  -- The product of an element of the first operand and one of the second.
  abbrev pub product_term : (batch i j sa sm sk sb tk tn l : ℕ) → F
  product_term batch i j sa sm sk sb tk tn l =
      f.times (f.to_float (a_data ((batch * sa + (i * sm + l * sk)) % 2 ^ 64)))
        (f.to_float (b_data ((batch * sb + (l * tk + j * tn)) % 2 ^ 64)))

  -- For operands of any strides, each a matrix or a batch, as they are or transposed by their flags, and
  -- an output that is a row-major batch of matrices with fewer than 2 ^ 64 elements, a call returns. It
  -- leaves in each element of the output the sum, over the inner dimension, of the products of the
  -- elements of the row and of the column, with the column's element of the bias if one is given, and
  -- it writes nowhere else.
  pub run_linear-entries :
      (outer_a outer_b : Option (ℕ × ℕ)) (trans_a trans_b : Bool) (bias : Option (ℕ × (ℕ → T)))
      (pa pb po batch m n k sm sk tk tn : ℕ) (dtype : DataType) (device : Device) (c : ℕ → T)
      → batch < 2 ^ 64
      → batch * (m * n) < 2 ^ 64
      → (result : ℕ → T) × (run_linear f
            (operand outer_a trans_a pa m k sm sk dtype device)
            (operand outer_b trans_b pb k n tk tn dtype device)
            (bias_tensor bias n dtype device)
            trans_a
            trans_b
            (row_major po batch m n dtype device)
            a_data
            b_data
            c
          ≡ ok result)
        × ((q i j : ℕ)
            → q < batch
            → i < m
            → j < n
            → result (q * (m * n) + (i * n + j))
              ≡ biased bias j (
                  left_sum f.plus f.nothing
                    (product_term q i j (next_matrix outer_a) sm sk (next_matrix outer_b) tk tn)
                    k))
        × ((x : ℕ) → batch * (m * n) ≤ x → result x ≡ c x)
  unfolding linear_layout multiply
  run_linear-entries outer_a outer_b trans_a trans_b bias pa pb po batch m n k sm sk tk tn dtype
        device c word small =
      let a = operand outer_a trans_a pa m k sm sk dtype device in
      let b = operand outer_b trans_b pb k n tk tn dtype device in
      let out = row_major po batch m n dtype device in
      let s : MatrixLayout = record {
        m = m;
        n = n;
        k = k;
        batch_count = mul64 1 batch;
        stride_a_m = sm;
        stride_a_k = sk;
        stride_b_k = tk;
        stride_b_n = tn;
        stride_c_m = n;
        stride_c_n = 1;
        batch_stride_a = next_matrix outer_a;
        batch_stride_b = next_matrix outer_b;
        batch_stride_c = m * n;
      } in
      let known : linear_layout a b out trans_a trans_b ≡ ok s =
        rw
          (
            operand-size outer_a trans_a pa m k sm sk dtype device,
            operand-row outer_a trans_a pa m k sm sk dtype device,
            operand-column outer_a trans_a pa m k sm sk dtype device,
            operand-row outer_b trans_b pb k n tk tn dtype device,
            operand-column outer_b trans_b pb k n tk tn dtype device,
            operand-next outer_a trans_a pa m k sm sk dtype device,
            operand-next outer_b trans_b pb k n tk tn dtype device,
          )
          refl in
      let (result, runs, entries, others) =
        layout_entries f a_data b_data a b (bias_tensor bias n dtype device) bias trans_a trans_b po
          batch m n dtype device s c word small known (bias_of-tensor bias n dtype device) in
      (
        result,
        runs,
        λ q i j hq hi hj.
            entries q i j hq hi hj
            ∙ finish-biased bias j (sum_of f s a_data b_data q i j) (c (q * (m * n) + (i * n + j)))
            ∙ ap (biased bias j) (
                sum_of-terms s q i j
                ∙ ap (λ (terms : ℕ → F). left_sum f.plus f.nothing terms k)
                    (λ t l.
                      f.times
                        (f.to_float (a_data (offset-parts q (next_matrix outer_a) i sm l sk t)))
                        (f.to_float (b_data (offset-parts q (next_matrix outer_b) l tk j tn t))))),
        others,
      )
