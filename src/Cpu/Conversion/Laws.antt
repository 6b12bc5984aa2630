-- ===== src/Cpu/Conversion/Laws.antt =====
-- Where the conversion reads and writes, for tensors of any strides.
use infini_ops.Prelude.{
  ◌^◌, Bool, length, assert, bind_ok, ok-inj, ℕ, zero, suc, ◌+◌, ◌<◌, ◌≤◌, ◌≡◌, ◌≢◌, refl, ap, sym,
  subst, ◌∙◌, arith, ◌==◌, ==_iff, Bool-cases, inl, inr, ok, dec_lt,
}
use infini_ops.Prelude.Products.{product}
use infini_ops.Common.GenericUtils.Places.{place_of, index_to_offset-place_of}
use infini_ops.Tensor.{Tensor, ndim, numel, is_contiguous}
use infini_ops.Tensor.Numel.{numel-product}
use infini_ops.Tensor.Contiguous.{IsView}
use infini_ops.Base.Checks.Laws.{then_ok}
use infini_ops.Base.Conversion.{Cast, cast}
use infini_ops.Cpu.Elementwise.Laws.{get_idx-index_to_offset}
use infini_ops.Cpu.Elementwise.{get_idx, store}
use infini_ops.Cpu.Conversion.{cast_from, run_cast}

store_at : {V : Type 0} (out : ℕ → V) (k : ℕ) (v : V) → store out k v k ≡ v
store_at out k v = rw ((==_iff k k).1 refl) refl

store_apart : {V : Type 0} (out : ℕ → V) (k j : ℕ) (v : V) → k ≢ j → store out k v j ≡ out j
store_apart out k j v apart = elim (Bool-cases (j == k)) [
  | inl same ↦ absurd (apart (sym ((==_iff j k).0 same)))
  | inr other ↦ rw other refl
]

-- Element `i` of the input stands at `from i`, and that of the output at `to i`, no two at one place.
record IsPlaced (op : Cast) (from to : ℕ → ℕ) : Type 0 where
  input_placed :
      (i : ℕ)
      → i < op.output_size
      → get_idx op.dims i op.is_input_contiguous op.input_shape op.input_strides ≡ ok (from i)
  out_placed :
      (i : ℕ)
      → i < op.output_size
      → get_idx op.dims i op.is_out_contiguous op.out_shape op.out_strides ≡ ok (to i)
  apart : (i j : ℕ) → i < op.output_size → j < op.output_size → to i ≡ to j → i ≡ j

module _ {A B : Type 0} (convert : A → B) (op : Cast) (input : ℕ → A) (from to : ℕ → ℕ)
    (placed : IsPlaced op from to) where
  cast_step :
      (rounds i : ℕ) (out : ℕ → B)
      → i < op.output_size
      → cast_from convert op input (suc rounds) i out
        ≡ cast_from convert op input rounds (i + 1) (store out (to i) (convert (input (from i))))
  unfolding cast_from
  cast_step rounds i out lt = rw (placed.input_placed i lt, placed.out_placed i lt) refl

  cast_from-elements :
      (rounds i : ℕ) (out : ℕ → B)
      → i + rounds ≤ op.output_size
      → (result : ℕ → B) × (cast_from convert op input rounds i out ≡ ok result)
        × ((j : ℕ) → i ≤ j → j < i + rounds → result (to j) ≡ convert (input (from j)))
        × ((k : ℕ) → ((j : ℕ) → i ≤ j → j < i + rounds → to j ≢ k) → result k ≡ out k)
  cast_from-elements zero i out fits =
      (out, unfold cast_from in refl, λ j a b. absurd (omega arith), λ k free. refl)
  cast_from-elements (suc rounds) i out fits =
      let out' : ℕ → B = store out (to i) (convert (input (from i))) in
      let (result, runs, inside, outside) = cast_from-elements rounds (i + 1) out' (omega arith) in
      (
        result,
        cast_step rounds i out (omega arith) ∙ runs,
        λ j a b. elim (dec_lt i j) [
          | yes later ↦ inside j (omega arith) (omega arith)
          | no first ↦
              let here : i ≡ j = omega arith in
              outside (to j) (λ k c d e.
                let same : k ≡ j = placed.apart k j (omega arith) (omega arith) e in omega arith)
              ∙ subst (λ m. out' (to m) ≡ convert (input (from m))) here
                  (store_at out (to i) (convert (input (from i))))
        ],
        λ k free.
            outside k (λ j a b. free j (omega arith) (omega arith))
            ∙ store_apart out (to i) k (convert (input (from i)))
                (free i (omega arith) (omega arith)),
      )

  run_placed :
      (out : ℕ → B)
      → (result : ℕ → B) × (run_cast convert op input out ≡ ok result)
        × ((j : ℕ) → j < op.output_size → result (to j) ≡ convert (input (from j)))
        × ((k : ℕ) → ((j : ℕ) → j < op.output_size → to j ≢ k) → result k ≡ out k)
  unfolding run_cast
  run_placed out =
      let (result, runs, inside, outside) = cast_from-elements op.output_size 0 out (omega arith) in
      (
        result,
        runs,
        λ j lt. inside j (omega arith) (omega arith),
        λ k free. outside k (λ j a b. free j (omega arith)),
      )

numel-all : (t : Tensor) → product t.shape < 2 ^ 64 → numel t ≡ product t.shape
numel-all t fits = numel-product t ∙ omega arith

-- The places are those of the tensors' shapes and strides, whether or not they are contiguous.
get_idx-place_of :
    (t : Tensor) (flag : Bool) (i : ℕ)
    → IsView t
    → product t.shape < 2 ^ 64
    → is_contiguous t ≡ ok flag
    → i < product t.shape
    → get_idx (length t.shape) i flag t.shape t.strides ≡ ok (place_of t.shape t.strides i)
get_idx-place_of t flag i view fits known lt =
    get_idx-index_to_offset t flag i view fits known lt
    ∙ index_to_offset-place_of t.shape t.strides view.same_length i lt

-- For an input and an output of one shape with fewer than 2 ^ 64 elements, each with any stride for each of
-- fewer than 2 ^ 63 dimensions, where no two elements of the output share a place, the operator that the
-- constructor makes runs to its end. It
-- writes each element of the input, converted, to the element of the output with the same coordinates,
-- at the sums of the coordinates times the strides, and it writes nothing else.
pub run_cast-elements :
    {A B : Type 0} (convert : A → B) (input out : Tensor) (op : Cast) (in_data : ℕ → A)
    (out_data : ℕ → B)
    → IsView input
    → IsView out
    → input.shape ≡ out.shape
    → product out.shape < 2 ^ 64
    → cast input out ≡ ok op
    → ((i j : ℕ)
        → i < product out.shape
        → j < product out.shape
        → place_of out.shape out.strides i ≡ place_of out.shape out.strides j
        → i ≡ j)
    → (result : ℕ → B) × (run_cast convert op in_data out_data ≡ ok result)
      × ((i : ℕ)
          → i < product out.shape
          → result (place_of out.shape out.strides i)
            ≡ convert (in_data (place_of out.shape input.strides i)))
      × ((k : ℕ)
          → ((i : ℕ) → i < product out.shape → place_of out.shape out.strides i ≢ k)
          → result k ≡ out_data k)
unfolding cast ndim
run_cast-elements convert input out op in_data out_data view view' same fits made apart =
    let (flag, known, h1) = bind_ok (is_contiguous input) _ made in
    let (flag', known', h2) = bind_ok (is_contiguous out) _ h1 in
    let (equal, h3) = then_ok (assert (numel input == numel out)) h2 in
    let count = numel-all out fits in
    let from = place_of out.shape input.strides in
    let to = place_of out.shape out.strides in
    let op' : Cast = record {
      dims = length out.shape;
      output_size = numel out;
      input_dtype = input.dtype;
      out_dtype = out.dtype;
      input_shape = input.shape;
      out_shape = out.shape;
      input_strides = input.strides;
      out_strides = out.strides;
      is_input_contiguous = flag;
      is_out_contiguous = flag';
    } in
    let placed : IsPlaced op' from to = record {
      input_placed = λ i lt.
          let below : i < product input.shape = rw same (omega (arith, count)) in
          (λ t. get_idx (length (sym same t)) i flag input.shape input.strides)
          ∙ get_idx-place_of input flag i view (rw same fits) known below
          ∙ (λ t. ok (place_of (same t) input.strides i));
      out_placed = λ i lt. get_idx-place_of out flag' i view' fits known' (omega (arith, count));
      apart = λ i j hi hj e. apart i j (omega (arith, count)) (omega (arith, count)) e;
    } in
    let (result, runs, inside, outside) = run_placed convert op' in_data from to placed out_data in
    (
      result,
      ap (λ o. run_cast convert o in_data out_data) (sym (ok-inj h3)) ∙ runs,
      λ i lt. inside i (omega (arith, count)),
      λ k free. outside k (λ i lt. free i (omega (arith, count))),
    )
