-- ===== src/Cpu/Elementwise/Laws.antt =====
-- Where the CPU's elementwise loop reads and writes.
use infini_ops.Prelude.{
  ℕ, zero, suc, ◌+◌, ◌^◌, ◌<◌, ◌≤◌, ◌≡◌, refl, ap, sym, ◌∙◌, subst, Bool, true, false, ◌==◌, length,
  ok, ok-inj, arith, ==_iff, Bool-cases, inl, inr,
}
use infini_ops.Prelude.Products.{product}
use infini_ops.Common.GenericUtils.{index_to_offset}
use infini_ops.Common.GenericUtils.Offsets.{index_to_offset-suffixes}
use infini_ops.Tensor.{Tensor, is_contiguous}
use infini_ops.Tensor.Contiguous.{IsView}
use infini_ops.Tensor.RowMajor.{is_contiguous_iff}
use infini_ops.Base.Elementwise.{Elementwise}
use infini_ops.Cpu.Elementwise.{get_idx, store, compute_from, compute}

store_self : {V : Type 0} (out : ℕ → V) (k : ℕ) (v : V) → store out k v k ≡ v
store_self out k v = rw ((==_iff k k).1 refl) refl

store_other :
    {V : Type 0} (out : ℕ → V) (k j : ℕ) (v : V) → (j == k) ≡ false → store out k v j ≡ out j
store_other out k j v h = rw h refl

-- For a view of fewer than 2 ^ 64 elements the shortcut for contiguous tensors changes nothing: with
-- the flag that `IsContiguous` gives, every element has the index that `IndexToOffset` computes.
pub get_idx-index_to_offset :
    (t : Tensor) (flag : Bool) (i : ℕ)
    → IsView t
    → product t.shape < 2 ^ 64
    → is_contiguous t ≡ ok flag
    → i < product t.shape
    → get_idx (length t.shape) i flag t.shape t.strides
      ≡ index_to_offset i (length t.shape) t.shape t.strides
unfolding get_idx
get_idx-index_to_offset t false i v fits known lt = refl
get_idx-index_to_offset t true i v fits known lt =
    let (b, answer, iff) = is_contiguous_iff t v (omega arith) fits in
    let same : b ≡ true = ok-inj (sym answer ∙ known) in
    sym (
      ap (index_to_offset i (length t.shape) t.shape) (iff.0 same)
      ∙ index_to_offset-suffixes t.shape i lt (omega arith))

module _ {V : Type 0} (combine : V → V → V) (op : Elementwise) (input other : ℕ → V) where
  -- All three tensors are contiguous.
  abbrev pub IsFlat : Type 0
  IsFlat =
      (op.is_input_contiguous ≡ true)
      × (op.is_other_contiguous ≡ true)
      × (op.is_out_contiguous ≡ true)

  flat_step :
      (rounds i : ℕ) (out : ℕ → V)
      → IsFlat
      → compute_from combine op input other (suc rounds) i out
        ≡ compute_from combine op input other rounds
            (i + 1)
            (store out i (combine (input i) (other i)))
  unfolding compute_from get_idx
  flat_step rounds i out (a, b, c) = simp (a, b, c)

  flat_from :
      (rounds i : ℕ) (out : ℕ → V)
      → IsFlat
      → (result : ℕ → V) × (compute_from combine op input other rounds i out ≡ ok result)
        × ((j : ℕ) → i ≤ j → j < i + rounds → result j ≡ combine (input j) (other j))
        × ((j : ℕ) → j < i → result j ≡ out j)
        × ((j : ℕ) → i + rounds ≤ j → result j ≡ out j)
  flat_from zero i out flat =
      (out, unfold compute_from in refl, λ j a b. absurd (omega arith), λ j a. refl, λ j a. refl)
  flat_from (suc rounds) i out flat =
      let out' : ℕ → V = store out i (combine (input i) (other i)) in
      let (result, runs, inside, below, above) = flat_from rounds (i + 1) out' flat in
      (
        result,
        flat_step rounds i out flat ∙ runs,
        λ j a b. elim (Bool-cases (j == i)) [
          | inr later ↦ inside j (ground arith) (omega arith)
          | inl here ↦
              let at : j ≡ i = (==_iff j i).0 here in
              below j (omega arith)
              ∙ subst (λ k. out' k ≡ combine (input k) (other k)) (sym at)
                  (store_self out i (combine (input i) (other i)))
        ],
        λ j a.
            below j (omega arith)
            ∙ store_other out i j (combine (input i) (other i)) (ground arith),
        λ j a.
            above j (omega arith)
            ∙ store_other out i j (combine (input i) (other i)) (ground arith),
      )

  -- On contiguous tensors the loop runs to its end, writes to each of the output's elements the
  -- combination of the inputs' elements of the same index, and writes nothing else.
  pub compute_flat :
      (out : ℕ → V)
      → IsFlat
      → (result : ℕ → V) × (compute combine op input other out ≡ ok result)
        × ((j : ℕ) → j < op.output_size → result j ≡ combine (input j) (other j))
        × ((j : ℕ) → op.output_size ≤ j → result j ≡ out j)
  unfolding compute
  compute_flat out flat =
      let (result, runs, inside, below, above) = flat_from op.output_size 0 out flat in
      (result, runs, λ j a. inside j (omega arith) (omega arith), λ j a. above j (omega arith))
