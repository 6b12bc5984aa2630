-- ===== src/Cpu/MatrixLoops/Laws.antt =====
-- What the loops leave in the output.
use infini_ops.Prelude.{
  ℕ, zero, suc, ◌+◌, ◌<◌, ◌≤◌, ◌≡◌, ◌≢◌, refl, ap, sym, ◌∙◌, ◌==◌, ==_iff, ℕ_discrete, arith, false,
}
use infini_ops.Cpu.MatrixLoops.{
  Arithmetic, MatrixLayout, write_at, sum_of, offset_c, store_entry, for_from, columns, rows,
  multiply_matrices,
}

pub write_self : {T : Type 0} → (c : ℕ → T) (at : ℕ) (v : T) → write_at c at v at ≡ v
write_self c at v = rw ((==_iff at at).1 refl) refl

pub write_other :
    {T : Type 0} → (c : ℕ → T) (at : ℕ) (v : T) (x : ℕ) → x ≢ at → write_at c at v x ≡ c x
write_other c at v x n = let off : (x == at) ≡ false = ground arith in rw off refl

module _ {T : Type 0} (x : ℕ) (body : ℕ → (ℕ → T) → ℕ → T) where
  -- Rounds that leave a place alone.
  pub for_from_other :
      (rounds i : ℕ) (c : ℕ → T)
      → ((k : ℕ) → i ≤ k → k < i + rounds → (c : ℕ → T) → body k c x ≡ c x)
      → for_from rounds i body c x ≡ c x
  unfolding for_from
  for_from_other zero i c leaves = refl
  for_from_other (suc rounds) i c leaves =
      for_from_other rounds (i + 1) (body i c) (λ k a b. leaves k (omega arith) (omega arith))
      ∙ leaves i (omega arith) (omega arith) c

  -- One round that makes the place's element `w` of what it was, and others that leave it alone.
  pub for_from_one :
      (w : T → T) (rounds i at : ℕ) (c : ℕ → T)
      → i ≤ at
      → at < i + rounds
      → ((c : ℕ → T) → body at c x ≡ w (c x))
      → ((k : ℕ) → i ≤ k → k < i + rounds → k ≢ at → (c : ℕ → T) → body k c x ≡ c x)
      → for_from rounds i body c x ≡ w (c x)
  unfolding for_from
  for_from_one w zero i at c a b writes leaves = absurd (omega arith)
  for_from_one w (suc rounds) i at c a b writes leaves = elim (ℕ_discrete i at) [
    | yes e ↦
        for_from_other rounds (i + 1) (body i c)
          (λ k p q. leaves k (omega arith) (omega arith) (λ z. omega arith))
        ∙ ap (λ (k : ℕ). body k c x) e
        ∙ writes c
    | no n ↦
        for_from_one w rounds (i + 1) at (body i c) (omega arith) (omega arith) writes
          (λ k p q. leaves k (omega arith) (omega arith))
        ∙ ap w (leaves i (omega arith) (omega arith) n c)
  ]

module _ {T F : Type 0} (f : Arithmetic T F) (s : MatrixLayout) (a b : ℕ → T)
    (finish : ℕ → F → T → T) where
  abbrev at_c : (batch i j : ℕ) → ℕ
  at_c = offset_c f s a b

  -- The index of an element of the output.
  abbrev pub InRange : (batch i j : ℕ) → Type 0
  InRange batch i j = (batch < s.batch_count) × (i < s.m) × (j < s.n)

  -- No two elements of the output share a place.
  abbrev pub IsSeparate : Type 0
  IsSeparate =
      (batch i j batch' i' j' : ℕ)
      → InRange batch i j
      → InRange batch' i' j'
      → offset_c f s a b batch i j ≡ offset_c f s a b batch' i' j'
      → (batch ≡ batch') × (i ≡ i') × (j ≡ j')

  -- What the loops leave where the output has the element (batch, i, j).
  abbrev pub entry : (batch i j : ℕ) → T → T
  entry batch i j old = finish j (sum_of f s a b batch i j) old

  columns_other :
      (x batch i : ℕ) (c : ℕ → T)
      → ((j : ℕ) → j < s.n → x ≢ offset_c f s a b batch i j)
      → columns f s a b finish batch i c x ≡ c x
  unfolding columns
  columns_other x batch i c apart =
      for_from_other x (store_entry f s a b finish batch i) s.n 0 c
        (λ j p q c. write_other c _ _ x (apart j (omega arith)))

  rows_other :
      (x batch : ℕ) (c : ℕ → T)
      → ((i j : ℕ) → i < s.m → j < s.n → x ≢ offset_c f s a b batch i j)
      → rows f s a b finish batch c x ≡ c x
  unfolding rows
  rows_other x batch c apart =
      for_from_other x (columns f s a b finish batch) s.m 0 c
        (λ i p q c. columns_other x batch i c (λ j r. apart i j (omega arith) r))

  module _ (sep : IsSeparate) (batch i j : ℕ) (inside : InRange batch i j) where
    columns-entry :
        (c : ℕ → T)
        → columns f s a b finish batch i c (offset_c f s a b batch i j)
          ≡ entry batch i j (c (offset_c f s a b batch i j))
    unfolding columns
    columns-entry c =
        for_from_one (offset_c f s a b batch i j) (store_entry f s a b finish batch i)
          (entry batch i j) s.n 0 j c (omega arith) (omega (arith, inside.2))
          (λ c. write_self c _ _)
          (λ k p q n c.
            write_other c _ _ _
              (λ e. n (sym (sep batch i j batch i k inside (inside.0, inside.1, omega arith) e).2)))

    rows-entry :
        (c : ℕ → T)
        → rows f s a b finish batch c (offset_c f s a b batch i j)
          ≡ entry batch i j (c (offset_c f s a b batch i j))
    unfolding rows
    rows-entry c =
        for_from_one (offset_c f s a b batch i j) (columns f s a b finish batch) (entry batch i j)
          s.m 0 i c (omega arith) (omega (arith, inside.1)) columns-entry
          (λ k p q n c.
            columns_other _ batch k c
              (λ l r e. n (sym (sep batch i j batch k l inside (inside.0, omega arith, r) e).1)))

    pub multiply_matrices-entry :
        (c : ℕ → T)
        → multiply_matrices f s a b finish c (offset_c f s a b batch i j)
          ≡ entry batch i j (c (offset_c f s a b batch i j))
    unfolding multiply_matrices
    multiply_matrices-entry c =
        for_from_one (offset_c f s a b batch i j) (rows f s a b finish) (entry batch i j)
          s.batch_count 0 batch c (omega arith) (omega (arith, inside.0)) rows-entry
          (λ k p q n c.
            rows_other _ k c
              (λ l r lt lt' e. n (sym (sep batch i j k l r inside (omega arith, lt, lt') e).0)))

  pub multiply_matrices-other :
      (x : ℕ) (c : ℕ → T)
      → ((batch i j : ℕ) → InRange batch i j → x ≢ offset_c f s a b batch i j)
      → multiply_matrices f s a b finish c x ≡ c x
  unfolding multiply_matrices
  multiply_matrices-other x c apart =
      for_from_other x (rows f s a b finish) s.batch_count 0 c
        (λ k p q c. rows_other x k c (λ i j r t. apart k i j (omega arith, r, t)))
