-- ===== src/Cpu/MatrixLoops/Nest.antt =====
-- Three nested loops whose body writes one element, from what is there.
use infini_ops.Prelude.{ℕ, ◌<◌, ◌≡◌, ◌≢◌, sym, arith}
use infini_ops.Cpu.MatrixLoops.{for_from, write_at}
use infini_ops.Cpu.MatrixLoops.Laws.{write_self, write_other, for_from_one, for_from_other}

module _ {T : Type 0} (place : ℕ → ℕ → ℕ → ℕ) (value : ℕ → ℕ → ℕ → T → T) (rows columns : ℕ) where
  abbrev pub inner : ℕ → ℕ → (ℕ → T) → ℕ → T
  inner b i =
      for_from columns 0 (λ j out. write_at out (place b i j) (value b i j (out (place b i j))))

  abbrev pub middle : ℕ → (ℕ → T) → ℕ → T
  middle b = for_from rows 0 (inner b)

  abbrev pub nest : ℕ → (ℕ → T) → ℕ → T
  nest batches = for_from batches 0 middle

  abbrev pub In : ℕ → ℕ → ℕ → ℕ → Type 0
  In batches b i j = (b < batches) × (i < rows) × (j < columns)

  -- No two rounds write at one place.
  abbrev pub IsApart : ℕ → Type 0
  IsApart batches =
      (b i j b' i' j' : ℕ)
      → In batches b i j
      → In batches b' i' j'
      → place b i j ≡ place b' i' j'
      → (b ≡ b') × (i ≡ i') × (j ≡ j')

  inner_other :
      (x b i : ℕ) (out : ℕ → T)
      → ((j : ℕ) → j < columns → x ≢ place b i j)
      → inner b i out x ≡ out x
  inner_other x b i out apart =
      for_from_other x _ columns 0 out (λ j p q c. write_other c _ _ x (apart j (omega arith)))

  middle_other :
      (x b : ℕ) (out : ℕ → T)
      → ((i j : ℕ) → i < rows → j < columns → x ≢ place b i j)
      → middle b out x ≡ out x
  middle_other x b out apart =
      for_from_other x (inner b) rows 0 out
        (λ i p q c. inner_other x b i c (λ j lt. apart i j (omega arith) lt))

  pub nest-other :
      (batches x : ℕ) (out : ℕ → T)
      → ((b i j : ℕ) → In batches b i j → x ≢ place b i j)
      → nest batches out x ≡ out x
  nest-other batches x out apart =
      for_from_other x middle batches 0 out
        (λ b p q c. middle_other x b c (λ i j r t. apart b i j (omega arith, r, t)))

  module _ (batches : ℕ) (sep : IsApart batches) (b i j : ℕ) (inside : In batches b i j) where
    inner-entry : (out : ℕ → T) → inner b i out (place b i j) ≡ value b i j (out (place b i j))
    inner-entry out =
        for_from_one (place b i j) _ (value b i j) columns 0 j out (omega arith)
          (omega (arith, inside.2)) (λ c. write_self c _ _)
          (λ k p q n c.
            write_other c _ _ _
              (λ e. n (sym (sep b i j b i k inside (inside.0, inside.1, omega arith) e).2)))

    middle-entry : (out : ℕ → T) → middle b out (place b i j) ≡ value b i j (out (place b i j))
    middle-entry out =
        for_from_one (place b i j) (inner b) (value b i j) rows 0 i out (omega arith)
          (omega (arith, inside.1)) inner-entry
          (λ k p q n c.
            inner_other _ b k c
              (λ l r e. n (sym (sep b i j b k l inside (inside.0, omega arith, r) e).1)))

    pub nest-entry :
        (out : ℕ → T) → nest batches out (place b i j) ≡ value b i j (out (place b i j))
    nest-entry out =
        for_from_one (place b i j) middle (value b i j) batches 0 b out (omega arith)
          (omega (arith, inside.0)) middle-entry
          (λ k p q n c.
            middle_other _ k c
              (λ l r lt lt' e. n (sym (sep b i j k l r inside (omega arith, lt, lt') e).0)))
