-- ===== src/Cpu/Sampler.antt =====
-- src/native/cpu/ops/top_k_top_p_sampler/top_k_top_p_sampler.h. Elements are of a type `T`, and `F` and
-- `D` are `float` and `double`. `std::sort`, the random distribution, whose generator's state is `W`,
-- and the memory of the tensors are parameters.
pub mod Laws
use infini_ops.Prelude.{
  ℕ, zero, suc, ◌+◌, ◌-◌, ◌*◌, ◌%◌, ◌^◌, ◌==◌, ltb, leb, if◌then◌else◌, Bool, true, false, ◌&&◌,
  ◌||◌, Option, none, some, List, [], ◌∷◌, map, length, get_elem?, take, Outcome, Fault, ok, fail,
  ◌>>=◌, access, add64, mul64, negative,
}
use infini_ops.Prelude.Equality.{same}
use infini_ops.DataType.{DataType, data_type_eq, int32, float16, bfloat16, float32, float64}
use infini_ops.Tensor.{Tensor, size, stride}
use infini_ops.Base.Sampling.{TopKTopPSampler}
use infini_ops.Cpu.MatrixLoops.{write_at}

-- The functions on `float` and `double`.
pub record SamplerArithmetic (T F D : Type 0) : Type 0 where
  pub to_float : T → F
  pub lowest : F
  pub greater : F → F → Bool
  pub exp_of_difference : F → F → D
  pub nothing : D
  pub one : D
  pub plus : D → D → D
  pub over : D → D → D
  pub at_least : D → D → Bool
  pub is_proper : D → Bool

-- `std::sort` by a comparison, and a draw from the distribution with the given weights.
pub record SamplerLibrary (W D : Type 0) : Type 0 where
  pub sort : (ℕ → ℕ → Bool) → List ℕ → List ℕ
  pub draw : W → List D → ℕ × W

-- `std::iota` from `i` on.
abbrev pub iota : ℕ → ℕ → List ℕ
iota zero i = []
iota (suc n) i = i ∷ iota n (suc i)

-- An `int32_t` as an `int64_t`.
abbrev pub sign_extend : ℕ → ℕ
sign_extend w = if leb (2 ^ 31) w then w + (2 ^ 64 - 2 ^ 32) else w

-- `NormalizeTopK`, of a signed number.
unfoldable pub normalize_top_k : TopKTopPSampler → ℕ → ℕ
normalize_top_k op top_k =
    if (negative top_k || (top_k == 0)) || ltb op.vocab_size top_k then op.vocab_size else top_k

-- The offset of a row's parameter, for one of a single element or of one for each row.
unfoldable pub parameter_offset : Tensor → ℕ → Outcome ℕ
parameter_offset t row = do n ← size t 0; d ← stride t 0; ok (mul64 (if n == 1 then 0 else row) d)

-- `GetK`, where `data32` and `data64` read the memory as either type.
unfoldable pub get_k : TopKTopPSampler → Option Tensor → (data32 data64 : ℕ → ℕ) → ℕ → Outcome ℕ
unfolding parameter_offset
get_k op none data32 data64 row = ok op.vocab_size
get_k op (some k) data32 data64 row = do
  at ← parameter_offset k row
  ok (if same k.dtype int32 then sign_extend (data32 at) else data64 at)

module _ {T F D W : Type 0} (f : SamplerArithmetic T F D) (std : SamplerLibrary W D)
    (op : TopKTopPSampler) where
  -- `GetP`, where `element` reads the memory as one of the types.
  unfoldable pub get_p : Option Tensor → (DataType → ℕ → D) → ℕ → Outcome D
  unfolding parameter_offset
  get_p none element row = ok f.one
  get_p (some p) element row = do
    at ← parameter_offset p row
    (elim p.dtype [
      | float16 ↦ ok (element float16 at)
      | bfloat16 ↦ ok (element bfloat16 at)
      | float32 ↦ ok (element float32 at)
      | float64 ↦ ok (element float64 at)
      | _ ↦ fail Fault.aborted
    ])

  module _ (row : ℕ → T) (stride : ℕ) where
    abbrev pub logit : ℕ → F
    logit index = f.to_float (row (mul64 index stride))

    -- The sorted indices.
    unfoldable pub sorted : List ℕ
    sorted = std.sort (λ a b. f.greater (logit a) (logit b)) (iota op.vocab_size 0)

    -- The loop for the maximum.
    unfoldable pub max_logit : F → List ℕ → F
    max_logit max_val [] = max_val
    max_logit max_val (index ∷ indices) =
        let v = logit index in max_logit (if f.greater v max_val then v else max_val) indices

    -- The loop for the weights of the first indices.
    unfoldable pub weights : List ℕ → List D
    unfolding max_logit
    weights indices =
        map (λ index. f.exp_of_difference (logit index) (max_logit f.lowest indices)) indices

    unfoldable pub sum_weights : D → List D → D
    sum_weights sum [] = sum
    sum_weights sum (w ∷ ws) = sum_weights (f.plus sum w) ws

    -- The loop that adds up probabilities, after `i` of them.
    unfoldable pub count_until : (top_p sum cumulative : D) → ℕ → List D → ℕ
    count_until top_p sum cumulative i [] = i
    count_until top_p sum cumulative i (w ∷ ws) =
        let cumulative' = f.plus cumulative (f.over w sum) in
        let rest = count_until top_p sum cumulative' (suc i) ws in
        if f.at_least cumulative' top_p then suc i else rest

    -- `ApplyTopP`.
    unfoldable pub apply_top_p : D → List ℕ → ℕ → ℕ
    unfolding weights sum_weights count_until
    apply_top_p top_p indices keep_count =
        let probs = weights (take keep_count indices) in
        count_until top_p (sum_weights f.nothing probs) f.nothing 0 probs

    -- How many of the sorted indices are kept.
    unfoldable pub keep_count : ℕ → D → ℕ
    unfolding apply_top_p normalize_top_k sorted
    keep_count top_k top_p =
        let keep = normalize_top_k op top_k in
        if f.is_proper top_p then apply_top_p top_p sorted keep else keep

    -- `SampleRow`, with the state of the generator. The result is the pattern of an `int32_t`.
    unfoldable pub sample_row : W → ℕ → D → Outcome (ℕ × W)
    sample_row generator top_k top_p =
        let keep = keep_count top_k top_p in
        if keep == 1
        then (access (get_elem? sorted 0) >>= λ index. ok (index % 2 ^ 32, generator))
        else (let (n, generator') = std.draw generator (weights (take keep sorted)) in
            access (get_elem? sorted n) >>= λ index. ok (index % 2 ^ 32, generator'))

  -- The memory that a call reads: the logits, and the parameters as their types.
  pub record SamplerMemory : Type 0 where
    pub logits_data : ℕ → T
    pub k_data32 : ℕ → ℕ
    pub k_data64 : ℕ → ℕ
    pub p_data : DataType → ℕ → D

  module _ (memory : SamplerMemory) (logits : Tensor) (k p : Option Tensor) (out : Tensor) where
    -- The body of the loop: the place that is written, the value, and the generator.
    unfoldable pub sample_at : W → ℕ → Outcome (ℕ × ℕ × W)
    unfolding get_k get_p sample_row
    sample_at generator row = do
      top_k ← get_k op k memory.k_data32 memory.k_data64 row
      top_p ← get_p p memory.p_data row
      out_stride ← stride out 0
      row_stride ← stride logits 0
      column_stride ← stride logits 1
      drawn ←
          sample_row (λ x. memory.logits_data (add64 (mul64 row row_stride) x)) column_stride
            generator top_k top_p
      ok (mul64 row out_stride, drawn.0, drawn.1)

    -- The loop over the rows, from `row` on, with `rounds` to go.
    unfoldable pub sample_from : ℕ → ℕ → (ℕ → ℕ) → W → Outcome ((ℕ → ℕ) × W)
    unfolding sample_at
    sample_from zero row out_data generator = ok (out_data, generator)
    sample_from (suc rounds) row out_data generator = do
      written ← sample_at generator row
      sample_from rounds (row + 1) (write_at out_data written.0 written.1) written.2

    -- `Compute`.
    unfoldable pub run_sampler : (ℕ → ℕ) → W → Outcome ((ℕ → ℕ) × W)
    unfolding sample_from
    run_sampler out_data generator = sample_from op.batch_size 0 out_data generator
