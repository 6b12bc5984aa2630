-- ===== src/Cpu/CausalSoftmax/Laws.antt =====
-- What the rows of the softmax hold.
use infini_ops.Prelude.{
  ℕ, zero, suc, ◌+◌, ◌-◌, ◌<◌, ◌≤◌, ◌^◌, ◌≡◌, ◌≢◌, refl, ap, sym, ◌∙◌, ltb, if◌then◌else◌, arith,
  true, false, Bool-cases, inl, inr,
}
use infini_ops.Base.Softmax.{CausalSoftmax}
use infini_ops.Cpu.MatrixLoops.{for_from, write_at}
use infini_ops.Cpu.MatrixLoops.Laws.{write_self, write_other, for_from_one, for_from_other}
use infini_ops.Cpu.CausalSoftmax.{
  SoftmaxArithmetic, RowStrides, valid_len, out_place, exponential, exponentials_from, mask_row,
  divide_row, softmax_row, softmax_rows, softmax_batches,
}

module _ {T F : Type 0} (f : SoftmaxArithmetic T F) (op : CausalSoftmax) (s : RowStrides)
    (input : ℕ → T) where
  abbrev pub InRange : (bi i j : ℕ) → Type 0
  InRange bi i j = (bi < op.batch_size) × (i < op.seq_len) × (j < op.total_seq_len)

  -- No two elements of the output share a place.
  abbrev pub IsSeparate : Type 0
  IsSeparate =
      (bi i j bi' i' j' : ℕ)
      → InRange bi i j
      → InRange bi' i' j'
      → out_place f op s input bi i j ≡ out_place f op s input bi' i' j'
      → (bi ≡ bi') × (i ≡ i') × (j ≡ j')

  abbrev place : (bi i j : ℕ) → ℕ
  place = out_place f op s input

  -- The exponentials from `j` on, added to `sum`.
  abbrev pub sum_from_exponentials : (bi i rounds j : ℕ) → F → F
  sum_from_exponentials bi i zero j sum = sum
  sum_from_exponentials bi i (suc rounds) j sum =
      sum_from_exponentials bi i rounds (j + 1) (f.plus sum (exponential f op s input bi i j))

  -- The sum of a row's exponentials.
  abbrev pub total_of : (bi i : ℕ) → F
  total_of bi i = sum_from_exponentials bi i (valid_len f op s input i) 0 f.nothing

  -- One loop does what two would.
  exponentials_from-parts :
      (bi i rounds j : ℕ) (out : ℕ → T) (sum : F)
      → exponentials_from f op s input bi i rounds j out sum ≡ (
        for_from rounds j
            (λ j out. write_at out (place bi i j) (f.of_float (exponential f op s input bi i j)))
            out,
        sum_from_exponentials bi i rounds j sum,
      )
  unfolding exponentials_from for_from
  exponentials_from-parts bi i zero j out sum = refl
  exponentials_from-parts bi i (suc rounds) j out sum =
      exponentials_from-parts bi i rounds (j + 1)
        (write_at out (place bi i j) (f.of_float (exponential f op s input bi i j)))
        (f.plus sum (exponential f op s input bi i j))

  -- What the element of column `j` holds in the end.
  abbrev pub softmax_entry : (bi i j : ℕ) → T
  softmax_entry bi i j =
      if ltb j (valid_len f op s input i)
      then f.of_float
          (f.over (f.to_float (f.of_float (exponential f op s input bi i j))) (total_of bi i))
      else f.of_float f.nothing

  abbrev exponentials_row : (bi i : ℕ) → (ℕ → T) → ℕ → T
  exponentials_row bi i out =
      for_from (valid_len f op s input i) 0
        (λ j out. write_at out (place bi i j) (f.of_float (exponential f op s input bi i j))) out

  softmax_row-loops :
      (bi i : ℕ) (out : ℕ → T)
      → softmax_row f op s input bi i out
        ≡ divide_row f op s input bi i
            (total_of bi i)
            (exponentials_row bi i (mask_row f op s input bi i out))
  unfolding softmax_row
  softmax_row-loops bi i out =
      ap (λ (r : (ℕ → T) × F). divide_row f op s input bi i r.1 r.0)
        (exponentials_from-parts bi i (valid_len f op s input i) 0 (mask_row f op s input bi i out)
          f.nothing)

  module _ (x bi i : ℕ) (valid : valid_len f op s input i ≤ op.total_seq_len) where
    -- A place outside of the row.
    softmax_row-other :
        (out : ℕ → T)
        → ((j : ℕ) → j < op.total_seq_len → x ≢ place bi i j)
        → softmax_row f op s input bi i out x ≡ out x
    softmax_row-other out apart =
        ap (λ (g : ℕ → T). g x) (softmax_row-loops bi i out)
        ∙ unfold divide_row in
          for_from_other x _ (valid_len f op s input i) 0 _
            (λ k p q c. write_other c _ _ x (apart k (omega arith)))
          ∙ for_from_other x _ (valid_len f op s input i) 0 _
              (λ k p q c. write_other c _ _ x (apart k (omega arith)))
          ∙ unfold mask_row in
            for_from_other x _ (op.total_seq_len - valid_len f op s input i)
              (valid_len f op s input i) out
              (λ k p q c. write_other c _ _ x (apart k (omega arith)))

  module _ (sep : IsSeparate) (bi i j : ℕ) (inside : InRange bi i j)
      (valid : valid_len f op s input i ≤ op.total_seq_len) where
    -- The places of the row's other columns.
    other_column : (k : ℕ) → k < op.total_seq_len → k ≢ j → place bi i j ≢ place bi i k
    other_column k lt n e = n (sym (sep bi i j bi i k inside (inside.0, inside.1, lt) e).2)

    entry_valid :
        (out : ℕ → T)
        → j < valid_len f op s input i
        → softmax_row f op s input bi i out (place bi i j)
          ≡ f.of_float
              (f.over (f.to_float (f.of_float (exponential f op s input bi i j))) (total_of bi i))
    entry_valid out below =
        let x = place bi i j in
        let masked = mask_row f op s input bi i out in
        let stored : exponentials_row bi i masked x ≡ f.of_float (exponential f op s input bi i j) =
          for_from_one x _ (λ old. f.of_float (exponential f op s input bi i j))
            (valid_len f op s input i) 0 j masked (omega arith) (omega arith)
            (λ c. write_self c _ _)
            (λ k p q n c. write_other c _ _ x (other_column k (omega arith) n)) in
        ap (λ (g : ℕ → T). g x) (softmax_row-loops bi i out)
        ∙ unfold divide_row in
          for_from_one x _ (λ old. f.of_float (f.over (f.to_float old) (total_of bi i)))
            (valid_len f op s input i) 0 j (exponentials_row bi i masked) (omega arith)
            (omega arith) (λ c. write_self c _ _)
            (λ k p q n c. write_other c _ _ x (other_column k (omega arith) n))
          ∙ ap (λ (t : T). f.of_float (f.over (f.to_float t) (total_of bi i))) stored

    entry_masked :
        (out : ℕ → T)
        → valid_len f op s input i ≤ j
        → softmax_row f op s input bi i out (place bi i j) ≡ f.of_float f.nothing
    entry_masked out above =
        let x = place bi i j in
        let column = inside.2 in
        let masked = mask_row f op s input bi i out in
        ap (λ (g : ℕ → T). g x) (softmax_row-loops bi i out)
        ∙ unfold divide_row in
          for_from_other x _ (valid_len f op s input i) 0 _
            (λ k p q c. write_other c _ _ x (other_column k (omega arith) (λ e. omega arith)))
          ∙ for_from_other x _ (valid_len f op s input i) 0 masked
              (λ k p q c. write_other c _ _ x (other_column k (omega arith) (λ e. omega arith)))
          ∙ unfold mask_row in
            for_from_one x _ (λ old. f.of_float f.nothing)
              (op.total_seq_len - valid_len f op s input i) (valid_len f op s input i) j out above
              (omega arith) (λ c. write_self c _ _)
              (λ k p q n c. write_other c _ _ x (other_column k (omega arith) n))

    softmax_row-entry :
        (out : ℕ → T) → softmax_row f op s input bi i out (place bi i j) ≡ softmax_entry bi i j
    softmax_row-entry out = elim (Bool-cases (ltb j (valid_len f op s input i))) [
      | inl below ↦ rw below (entry_valid out (ground arith))
      | inr above ↦ rw above (entry_masked out (ground arith))
    ]

  valid_len-le :
      (i : ℕ)
      → op.seq_len ≤ op.total_seq_len
      → op.total_seq_len < 2 ^ 64
      → i < op.seq_len
      → (valid_len f op s input i ≡ op.total_seq_len - op.seq_len + i + 1)
        × (valid_len f op s input i ≤ op.total_seq_len)
  unfolding valid_len
  valid_len-le i fits word lt = (omega arith, omega arith)

  softmax_rows-other :
      (x bi : ℕ) (out : ℕ → T)
      → op.seq_len ≤ op.total_seq_len
      → op.total_seq_len < 2 ^ 64
      → ((i j : ℕ) → i < op.seq_len → j < op.total_seq_len → x ≢ place bi i j)
      → softmax_rows f op s input bi out x ≡ out x
  unfolding softmax_rows
  softmax_rows-other x bi out fits word apart =
      for_from_other x (softmax_row f op s input bi) op.seq_len 0 out (λ k p q c.
        softmax_row-other x bi k (valid_len-le k fits word (omega arith)).1 c
          (λ j lt. apart k j (omega arith) lt))

  softmax_rows-entry :
      (sep : IsSeparate) (bi i j : ℕ)
      → InRange bi i j
      → op.seq_len ≤ op.total_seq_len
      → op.total_seq_len < 2 ^ 64
      → (out : ℕ → T) → softmax_rows f op s input bi out (place bi i j) ≡ softmax_entry bi i j
  unfolding softmax_rows
  softmax_rows-entry sep bi i j inside fits word out =
      for_from_one (place bi i j) (softmax_row f op s input bi) (λ old. softmax_entry bi i j)
        op.seq_len 0 i out (omega arith) (omega (arith, inside.1))
        (softmax_row-entry sep bi i j inside (valid_len-le i fits word inside.1).1)
        (λ k p q n c.
          softmax_row-other (place bi i j) bi k (valid_len-le k fits word (omega arith)).1 c
            (λ l lt e. n (sym (sep bi i j bi k l inside (inside.0, omega arith, lt) e).1)))

  -- For an operator whose rows are no longer than its columns, and whose output's elements have
  -- places of their own, the loops leave in row i and column j of each batch: for the columns up to
  -- the diagonal that ends in the last column, the exponential of the input less the row's maximum,
  -- over the sum of those exponentials, and zero for the columns after it. They write nowhere else.
  pub softmax_batches-entries :
      (out : ℕ → T)
      → IsSeparate
      → op.seq_len ≤ op.total_seq_len
      → op.total_seq_len < 2 ^ 64
      → ((bi i j : ℕ)
          → InRange bi i j
          → (j < op.total_seq_len - op.seq_len + i + 1
              → softmax_batches f op s input out (place bi i j)
                ≡ f.of_float (
                    f.over
                      (f.to_float (f.of_float (exponential f op s input bi i j)))
                      (total_of bi i)))
            × (op.total_seq_len - op.seq_len + i + 1 ≤ j
                → softmax_batches f op s input out (place bi i j) ≡ f.of_float f.nothing))
        × ((x : ℕ)
            → ((bi i j : ℕ) → InRange bi i j → x ≢ place bi i j)
            → softmax_batches f op s input out x ≡ out x)
  unfolding softmax_batches
  softmax_batches-entries out sep fits word = (
    λ bi i j inside.
        let entry =
          for_from_one (place bi i j) (softmax_rows f op s input) (λ old. softmax_entry bi i j)
            op.batch_size 0 bi out (omega arith) (omega (arith, inside.0))
            (softmax_rows-entry sep bi i j inside fits word)
            (λ k p q n c.
              softmax_rows-other (place bi i j) k c fits word
                (λ i' j' r t e. n (sym (sep bi i j k i' j' inside (omega arith, r, t) e).0))) in
        let len = (valid_len-le i fits word inside.1).0 in
        (
          λ below.
              let test : ltb j (valid_len f op s input i) ≡ true = ground arith in
              entry ∙ rw test refl,
          λ above.
              let test : ltb j (valid_len f op s input i) ≡ false = ground arith in
              entry ∙ rw test refl,
        ),
    λ x apart. for_from_other x (softmax_rows f op s input) op.batch_size 0 out (λ k p q c.
        softmax_rows-other x k c fits word (λ i j r t. apart k i j (omega arith, r, t))),
  )
