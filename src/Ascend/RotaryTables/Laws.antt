-- ===== src/Ascend/RotaryTables/Laws.antt =====
-- What the tables hold.
use native.Mathlib.Nat.{mul_assoc, mul_comm}
use infini_ops.Prelude.{ℕ, ◌+◌, ◌*◌, ◌/◌, ◌<◌, ◌^◌, ◌≡◌, ◌≢◌, sym, ◌∙◌, ap, arith, add64, mul64}
use infini_ops.Cpu.MatrixLoops.{write_at}
use infini_ops.Cpu.MatrixLoops.Laws.{write_self, write_other, for_from_one, for_from_other}
use infini_ops.Cpu.MatrixLoops.RowMajor.{next_row, parts_unique}
use infini_ops.Ascend.RotaryTables.{
  low_place, high_place, cos_source, sin_source, expand_row, expand_rows, upload_cos_sin,
}

-- Without wrap-around the place of column `k` of row `p`.
row_place :
    (rows head_dim p k : ℕ)
    → p < rows
    → k < head_dim
    → rows * head_dim < 2 ^ 64
    → add64 (mul64 p head_dim) k ≡ p * head_dim + k
row_place rows head_dim p k hp hk small =
    let next = next_row p rows head_dim hp in let a : ℕ = p * head_dim in omega arith

high_row_place :
    (rows head_dim p j : ℕ)
    → p < rows
    → j < head_dim / 2
    → rows * head_dim < 2 ^ 64
    → add64 (add64 (mul64 p head_dim) (head_dim / 2)) j ≡ p * head_dim + (head_dim / 2 + j)
high_row_place rows head_dim p j hp hj small =
    let next = next_row p rows head_dim hp in let a : ℕ = p * head_dim in omega arith

module _ {V : Type 0} (head_dim : ℕ) (cache_host : ℕ → V) (source : ℕ → ℕ → V) (rows : ℕ)
    (small : rows * head_dim < 2 ^ 64) where
  abbrev low : (p j : ℕ) → ℕ
  low = low_place head_dim cache_host

  abbrev high : (p j : ℕ) → ℕ
  high = high_place head_dim cache_host

  -- Where row `p` is column `k`, other rounds of the loops do not write.
  abbrev Elsewhere : (x p j : ℕ) → Type 0
  Elsewhere x p j = (x ≢ low p j) × (x ≢ high p j)

  elsewhere :
      (p k p' j : ℕ)
      → p < rows
      → k < head_dim
      → p' < rows
      → j < head_dim / 2
      → (p ≡ p' → (k ≢ j) × (k ≢ head_dim / 2 + j))
      → Elsewhere (p * head_dim + k) p' j
  elsewhere p k p' j hp hk hp' hj apart = (
    λ e.
        let (same, columns) =
          parts_unique head_dim p k p' j hk (omega arith)
            (e ∙ row_place rows head_dim p' j hp' (omega arith) small) in
        (apart same).0 columns,
    λ e.
        let (same, columns) =
          parts_unique head_dim p k p' (head_dim / 2 + j) hk (omega arith)
            (e ∙ high_row_place rows head_dim p' j hp' hj small) in
        (apart same).1 columns,
  )

  abbrev body : (p j : ℕ) → (ℕ → V) → ℕ → V
  body p j t = write_at (write_at t (low p j) (source p j)) (high p j) (source p j)

  body_other : (x p j : ℕ) (t : ℕ → V) → Elsewhere x p j → body p j t x ≡ t x
  body_other x p j t away =
      write_other (write_at t (low p j) (source p j)) (high p j) (source p j) x away.1
      ∙ write_other t (low p j) (source p j) x away.0

  row_other :
      (x p : ℕ) (t : ℕ → V)
      → ((j : ℕ) → j < head_dim / 2 → Elsewhere x p j)
      → expand_row head_dim cache_host source p t x ≡ t x
  unfolding expand_row
  row_other x p t away =
      for_from_other x (body p) (head_dim / 2) 0 t
        (λ j a b c. body_other x p j c (away j (omega arith)))

  module _ (p j : ℕ) (hp : p < rows) (hj : j < head_dim / 2) where
    -- Either half of the row gets the element of the column.
    row_low :
        (t : ℕ → V) → expand_row head_dim cache_host source p t (p * head_dim + j) ≡ source p j
    unfolding expand_row
    row_low t =
        let at = row_place rows head_dim p j hp (omega arith) small in
        for_from_one (p * head_dim + j) (body p) (λ old. source p j) (head_dim / 2) 0 j t
          (omega arith) (omega arith)
          (λ c.
            write_other (write_at c (low p j) (source p j)) (high p j) (source p j)
              (p * head_dim + j)
              (λ e. absurd (omega (arith, high_row_place rows head_dim p j hp hj small, e)))
            ∙ ap (λ (x : ℕ). write_at c (low p j) (source p j) x) (sym at)
            ∙ write_self c (low p j) (source p j))
          (λ k a b n c.
            let away =
              elsewhere p j p k hp (omega arith) hp (omega arith)
                (λ e. (λ q. n (sym q), λ q. absurd (omega arith))) in
            body_other _ p k c away)

    row_high :
        (t : ℕ → V)
        → expand_row head_dim cache_host source p t (p * head_dim + (head_dim / 2 + j)) ≡ source p j
    unfolding expand_row
    row_high t =
        let at = high_row_place rows head_dim p j hp hj small in
        for_from_one (p * head_dim + (head_dim / 2 + j)) (body p) (λ old. source p j) (head_dim / 2)
          0 j t (omega arith) (omega arith)
          (λ c.
            ap (λ (x : ℕ). write_at (write_at c (low p j) (source p j)) (high p j) (source p j) x)
              (sym at)
            ∙ write_self (write_at c (low p j) (source p j)) (high p j) (source p j))
          (λ k a b n c.
            let away =
              elsewhere p (head_dim / 2 + j) p k hp (omega arith) hp (omega arith)
                (λ e. (λ q. absurd (omega arith), λ q. n (omega arith))) in
            body_other _ p k c away)

    rows_entry :
        (k : ℕ) (t : ℕ → V)
        → k < head_dim
        → ((t : ℕ → V) → expand_row head_dim cache_host source p t (p * head_dim + k) ≡ source p j)
        → expand_rows head_dim cache_host source rows t (p * head_dim + k) ≡ source p j
    unfolding expand_rows
    rows_entry k t hk row =
        for_from_one (p * head_dim + k) (expand_row head_dim cache_host source) (λ old. source p j)
          rows 0 p t (omega arith) (omega arith) row
          (λ q a b n c.
            row_other (p * head_dim + k) q c
              (λ l hl. elsewhere p k q l hp hk (omega arith) hl (λ e. absurd (n (sym e)))))

    pub expand_rows-both :
        (t : ℕ → V)
        → (expand_rows head_dim cache_host source rows t (p * head_dim + j) ≡ source p j)
          × (expand_rows head_dim cache_host source rows t (p * head_dim + (head_dim / 2 + j))
              ≡ source p j)
    expand_rows-both t = (
      rows_entry j t (omega arith) row_low,
      rows_entry (head_dim / 2 + j) t (omega arith) row_high,
    )

twice_wide : (q d : ℕ) → q * 2 * d ≡ q * (d * 2)
twice_wide q d = mul_assoc q 2 d ∙ ap (λ m. q * m) (mul_comm 2 d)

-- If the rows of the cache have `head_dim` elements, fewer than 2 ^ 64 in all, then each row of the
-- cosine table holds the first half of the cache's row twice, and each row of the sine table the second
-- half twice. If its rows have twice as many, the first `head_dim` of them cosines, row `q * 2` of the
-- sine table begins with the second half of the cosines of row `q`.
pub upload_cos_sin-halves :
    {V : Type 0} (head_dim : ℕ) (cache_host : ℕ → V) (nothing : V) (max_seq_len p j : ℕ)
    → max_seq_len * head_dim < 2 ^ 64
    → p < max_seq_len
    → j < head_dim / 2
    → ((upload_cos_sin head_dim cache_host nothing max_seq_len).0 (p * head_dim + j)
        ≡ cache_host (p * head_dim + j))
      × ((upload_cos_sin head_dim cache_host nothing max_seq_len).0
            (p * head_dim + (head_dim / 2 + j))
          ≡ cache_host (p * head_dim + j))
      × ((upload_cos_sin head_dim cache_host nothing max_seq_len).1 (p * head_dim + j)
          ≡ cache_host (p * head_dim + (head_dim / 2 + j)))
      × ((upload_cos_sin head_dim cache_host nothing max_seq_len).1
            (p * head_dim + (head_dim / 2 + j))
          ≡ cache_host (p * head_dim + (head_dim / 2 + j)))
      × ((q : ℕ)
          → q * 2 < max_seq_len
          → (upload_cos_sin head_dim cache_host nothing max_seq_len).1 (q * 2 * head_dim + j)
            ≡ cache_host (q * (head_dim * 2) + (head_dim / 2 + j)))
unfolding upload_cos_sin
upload_cos_sin-halves head_dim cache_host nothing max_seq_len p j small hp hj =
    let cos =
      expand_rows-both head_dim cache_host (cos_source head_dim cache_host) max_seq_len small p j hp
        hj (λ x. nothing) in
    let sin' = λ (r : ℕ) (hr : r < max_seq_len).
      expand_rows-both head_dim cache_host (sin_source head_dim cache_host) max_seq_len small r j hr
        hj (λ x. nothing) in
    let sin = sin' p hp in
    let low = ap cache_host (row_place max_seq_len head_dim p j hp (omega arith) small) in
    let high = ap cache_host (high_row_place max_seq_len head_dim p j hp hj small) in
    (
      cos.0 ∙ low,
      cos.1 ∙ low,
      sin.0 ∙ high,
      sin.1 ∙ high,
      λ q hq.
          (sin' (q * 2) hq).0
          ∙ ap cache_host (high_row_place max_seq_len head_dim (q * 2) j hq hj small)
          ∙ ap (λ k. cache_host (k + (head_dim / 2 + j))) (twice_wide q head_dim),
    )
