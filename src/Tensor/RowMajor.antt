-- ===== src/Tensor/RowMajor.antt =====
-- What `IsContiguous` decides.
use infini_ops.Prelude.{
  ℕ, zero, suc, ◌-◌, ◌*◌, ◌^◌, ◌<◌, ◌≡◌, ◌↔◌, refl, ap, ap₂, sym, ◌∙◌, List, [], ◌∷◌, Bool, true,
  ◌&&◌, arith, length, get_elem?, some, ok, ◌==◌, Bool-cases, inl, inr,
}
use infini_ops.Prelude.Products.{product, suffixes, get_elem?_below}
use infini_ops.Tensor.{Tensor, merges, is_mergeable, is_contiguous}
use infini_ops.Tensor.Contiguous.{IsView, chain, merges-chain, stride-ok}

last_one : List ℕ → Bool
last_one [] = true
last_one (d ∷ []) = d == 1
last_one (d ∷ d' ∷ ds) = last_one (d' ∷ ds)

last_one-get :
    (ds : List ℕ) (n d : ℕ) → length ds ≡ suc n → get_elem? ds n ≡ some d → last_one ds ≡ (d == 1)
unfolding last_one
last_one-get [] n d h e = absurd (omega arith)
last_one-get (x ∷ []) zero d h e = ground arith
last_one-get (x ∷ []) (suc n) d h e = absurd (omega arith)
last_one-get (x ∷ y ∷ ds) zero d h e = absurd (omega arith)
last_one-get (x ∷ y ∷ ds) (suc n) d h e = last_one-get (y ∷ ds) n d (omega arith) e

-- The whole test on lists.
layout_test : List ℕ → List ℕ → Bool
unfolding chain last_one
layout_test ss ds = chain ss ds && last_one ds

positive_parts : (s p : ℕ) → 0 < s * p → s * p < 2 ^ 64 → (0 < s) × (0 < p) × (p < 2 ^ 64)
positive_parts zero p h k = absurd (omega arith)
positive_parts (suc s) zero h k = absurd (omega arith)
positive_parts (suc s) (suc p) h k = (omega arith, omega arith, grind arith)

heads : {a b : ℕ} {xs ys : List ℕ} → a ∷ xs ≡ b ∷ ys → a ≡ b
heads h = cc

tails : {a b : ℕ} {xs ys : List ℕ} → a ∷ xs ≡ b ∷ ys → xs ≡ ys
tails h = cc

layout_test_iff :
    (ss ds : List ℕ)
    → length ds ≡ length ss
    → 0 < product ss
    → product ss < 2 ^ 64
    → (layout_test ss ds ≡ true) ↔ (ds ≡ suffixes ss)
unfolding layout_test
layout_test_iff [] [] h pos fits = (λ _. refl, λ _. refl)
layout_test_iff [] (d ∷ ds) h pos fits = absurd (omega arith)
layout_test_iff (s ∷ []) [] h pos fits = absurd (omega arith)
layout_test_iff (s ∷ s' ∷ ss) [] h pos fits = absurd (omega arith)
layout_test_iff (s ∷ s' ∷ ss) (d ∷ []) h pos fits = absurd (omega arith)
layout_test_iff (s ∷ []) (d ∷ d' ∷ ds) h pos fits = absurd (omega arith)
layout_test_iff (s ∷ []) (d ∷ []) h pos fits =
    (λ e. ground arith, λ e. ground (arith, heads {a = d} {b = 1} e))
layout_test_iff (s ∷ s' ∷ ss) (d ∷ d' ∷ ds) h pos fits =
    let (_, pos', fits') = positive_parts s (product (s' ∷ ss)) pos fits in
    let ds' : List ℕ = d' ∷ ds in
    let ih = layout_test_iff (s' ∷ ss) (d' ∷ ds) (omega arith) pos' fits' in
    (
      λ e.
          let inner : ds' ≡ suffixes (s' ∷ ss) = ih.0 (ground arith) in
          let d'_eq : d' ≡ product ss = heads inner in ap₂ ◌∷◌ (ground arith) inner,
      λ e.
          let inner : ds' ≡ suffixes (s' ∷ ss) = tails e in
          let d_eq : d ≡ product (s' ∷ ss) = heads e in
          let d'_eq : d' ≡ product ss = heads inner in let rest = ih.1 inner in ground arith,
    )

empty_of : (xs : List ℕ) → length xs ≡ 0 → xs ≡ []
empty_of [] h = refl
empty_of (x ∷ xs) h = absurd (omega arith)

module _ (t : Tensor) (v : IsView t) where
  is_mergeable-chain :
      0 < length t.shape → is_mergeable t 0 (length t.shape - 1) ≡ ok (chain t.shape t.strides)
  unfolding is_mergeable
  is_mergeable-chain pos =
      let loop = merges-chain t v (length t.shape - 1) 0 (omega arith) in
      elim (Bool-cases (0 == length t.shape - 1)) [
        | inl one ↦
            let none_left : length t.shape - 1 ≡ 0 = ground arith in
            let done = ap (λ k. merges t k 0) (sym none_left) ∙ loop in
            rw one (unfold merges in done)
        | inr more ↦
            rw more (ap (λ k. merges t k 0) {x = length t.shape - 1 - 0} (omega arith) ∙ loop)
      ]

  is_contiguous-layout_test : is_contiguous t ≡ ok (layout_test t.shape t.strides)
  unfolding is_contiguous layout_test
  is_contiguous-layout_test = elim (Bool-cases (length t.shape == 0)) [
    | inl empty ↦
        let none_left : length t.shape ≡ 0 = ground arith in
        let shapes = empty_of t.shape none_left in
        let steps = empty_of t.strides (v.same_length ∙ none_left) in
        rw empty (ap ok (sym (ap₂ layout_test shapes steps)))
    | inr some_left ↦
        let same = v.same_length in
        let pos : 0 < length t.shape = ground arith in
        let (d, hd) = get_elem?_below t.strides (length t.shape - 1) (omega arith) in
        let last = stride-ok t v (length t.shape - 1) hd (omega arith) in
        let one = last_one-get t.strides (length t.shape - 1) d (omega arith) hd in
        elim (Bool-cases (chain t.shape t.strides)) [
          | inl merged ↦ rw (some_left, is_mergeable-chain pos, merged, last, one)
          | inr gap ↦ rw (some_left, is_mergeable-chain pos, gap)
        ]
  ]

  -- `IsContiguous` ends with an answer, and for a view of at least one and fewer than 2 ^ 64 elements
  -- it says yes exactly when the layout is row-major.
  pub is_contiguous_iff :
      0 < product t.shape
      → product t.shape < 2 ^ 64
      → (b : Bool) × (is_contiguous t ≡ ok b) × ((b ≡ true) ↔ (t.strides ≡ suffixes t.shape))
  is_contiguous_iff pos fits = (
    layout_test t.shape t.strides,
    is_contiguous-layout_test,
    layout_test_iff t.shape t.strides v.same_length pos fits,
  )
