-- ===== src/Ascend/Fia/Laws.antt =====
-- How the two forms of sequence lengths agree.
use infini_ops.Prelude.{
  ℕ, ◌^◌, ◌<◌, ◌≡◌, refl, ap, sym, ◌∙◌, Bool, true, false, List, [], ◌∷◌, ltb, length, ok, assert,
  bind_ok, ok-inj, fail-ok, suc, add64, sub64, arith, negative,
}
use infini_ops.Tensor.{Tensor}
use infini_ops.Base.Checks.Laws.{then_ok}
use infini_ops.Ascend.Fia.{
  Memory, read_int_tensor, without_first, differences, create_cum_seq_lengths,
  create_diff_seq_lengths, resolve_sparse_mode,
}

-- Every number is a 64-bit pattern.
abbrev pub AllWords : List ℕ → Type 0
AllWords [] = Unit {0}
AllWords (x ∷ xs) = (x < 2 ^ 64) × AllWords xs

-- Running sums from `start`.
abbrev pub sums : ℕ → List ℕ → List ℕ
sums start [] = []
sums start (x ∷ xs) = add64 start x ∷ sums (add64 start x) xs

module _ (memory : Memory) where
  sums-differences :
      (x : ℕ) (xs : List ℕ) → AllWords (x ∷ xs) → sums x (differences memory (x ∷ xs)) ≡ xs
  sums-differences x [] h = refl
  sums-differences x (y ∷ ys) h =
      let first : add64 x (sub64 y x) ≡ y = omega (arith, h.0, h.1.0) in
      rw first (ap (◌∷◌ y) (sums-differences y ys h.1))

  length-differences : (x : ℕ) (xs : List ℕ) → length (differences memory (x ∷ xs)) ≡ length xs
  length-differences x [] = refl
  length-differences x (y ∷ ys) = ap suc (length-differences y ys)

  from_values :
      (t : Tensor) (values cum : List ℕ)
      → read_int_tensor memory t ≡ ok values
      → AllWords values
      → assert (ltb 1 (length values)) ≡ ok tt
      → ok (without_first memory values) ≡ ok cum
      → (first : ℕ) × (lengths : List ℕ) × (read_int_tensor memory t ≡ ok (first ∷ cum))
        × (create_diff_seq_lengths memory t ≡ ok lengths)
        × (cum ≡ sums first lengths)
        × (length lengths ≡ length cum)
  unfolding create_diff_seq_lengths
  from_values t [] cum reads words enough final = absurd (fail-ok enough)
  from_values t (x ∷ xs) cum reads words enough final =
      let is_cum : xs ≡ cum = ok-inj final in
      (
        x,
        differences memory (x ∷ xs),
        reads ∙ ap (λ (q : List ℕ). ok (x ∷ q)) is_cum,
        rw (reads, enough) refl,
        sym is_cum ∙ sym (sums-differences x xs words),
        length-differences x xs ∙ ap length is_cum,
      )

  -- Where a tensor's numbers are 64-bit patterns and the cumulative array can be made from them, the
  -- array of lengths can be made too; it has as many numbers, and the cumulative array holds its
  -- running sums from the tensor's first number on.
  pub create_cum-create_diff :
      (cu_seqlens : Tensor) (cum : List ℕ)
      → ((values : List ℕ) → read_int_tensor memory cu_seqlens ≡ ok values → AllWords values)
      → create_cum_seq_lengths memory cu_seqlens ≡ ok cum
      → (first : ℕ) × (lengths : List ℕ) × (read_int_tensor memory cu_seqlens ≡ ok (first ∷ cum))
        × (create_diff_seq_lengths memory cu_seqlens ≡ ok lengths)
        × (cum ≡ sums first lengths)
        × (length lengths ≡ length cum)
  unfolding create_cum_seq_lengths
  create_cum-create_diff t cum words h =
      let (values, reads, h1) = bind_ok (read_int_tensor memory t) _ h in
      let (enough, final) = then_ok (assert (ltb 1 (length values))) h1 in
      from_values t values cum reads (words values reads) enough final

-- For every window the two token counts are numbers that are not negative as signed integers: a
-- negative bound, which stands for none, never reaches the kernel. A causal window never looks ahead,
-- and a bound of a window that is not negative is passed on, on the left in each mode and on the right
-- in the mode that is not causal.
pub resolve_sparse_mode_bounds :
    (is_causal : Bool) (window_left window_right : ℕ)
    → let mode = resolve_sparse_mode is_causal window_left window_right in
      (negative mode.pre_tokens ≡ false)
      × (negative mode.next_tokens ≡ false)
      × (is_causal ≡ true → mode.next_tokens ≡ 0)
      × (negative window_left ≡ false → mode.pre_tokens ≡ window_left)
      × (is_causal ≡ false → negative window_right ≡ false → mode.next_tokens ≡ window_right)
unfolding resolve_sparse_mode
resolve_sparse_mode_bounds is_causal window_left window_right = ground arith
