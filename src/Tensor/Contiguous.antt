-- ===== src/Tensor/Contiguous.antt =====
-- `IsContiguous` against the row-major layout.
use infini_ops.Prelude.{
  ℕ, zero, suc, ◌+◌, ◌^◌, ◌<◌, ◌≤◌, ◌≡◌, refl, ap, sym, ◌∙◌, List, [], ◌∷◌, Bool, true, false, ◌&&◌,
  not, arith, length, get_elem?, drop, some, ok, mul64, access, ◌==◌, if◌then◌else◌,
}
use infini_ops.Prelude.Products.{get_elem?_below}
use infini_ops.Tensor.{Tensor, size, stride, merges, get_effective_index}
use infini_ops.Tensor.Strides.{drop-get}

-- The lists describe one view: as many strides as sizes, and few enough for a signed index.
pub record IsView (t : Tensor) : Type 0 where
  pub same_length : length t.strides ≡ length t.shape
  pub indexable : length t.shape < 2 ^ 63

pub size-eq : (t : Tensor) (i : ℕ) → i < 2 ^ 63 → size t i ≡ access (get_elem? t.shape i)
unfolding size get_effective_index
size-eq t i h = ground arith

pub stride-eq : (t : Tensor) (i : ℕ) → i < 2 ^ 63 → stride t i ≡ access (get_elem? t.strides i)
unfolding stride get_effective_index
stride-eq t i h = ground arith

module _ (t : Tensor) (v : IsView t) (i : ℕ) where
  pub size-ok : {s : ℕ} → get_elem? t.shape i ≡ some s → i < length t.shape → size t i ≡ ok s
  size-ok h lt = size-eq t i (omega (arith, v.indexable)) ∙ ap access h

  pub stride-ok : {d : ℕ} → get_elem? t.strides i ≡ some d → i < length t.shape → stride t i ≡ ok d
  stride-ok h lt = stride-eq t i (omega (arith, v.indexable)) ∙ ap access h

merges-suc :
    (t : Tensor) (rounds i : ℕ) {s d s' d' : ℕ}
    → size t i ≡ ok s
    → stride t i ≡ ok d
    → size t (i + 1) ≡ ok s'
    → stride t (i + 1) ≡ ok d'
    → merges t (suc rounds) i ≡ (
        if s == 1 && d == 0
        then ok false
        else if d == mul64 s' d'
        then merges t rounds (i + 1)
        else ok false)
unfolding merges
merges-suc t rounds i a b c e = rw (a, b, c, e)

-- The loop's test on lists.
unfoldable pub chain : List ℕ → List ℕ → Bool
chain (s ∷ s' ∷ ss) (d ∷ d' ∷ ds) =
    not (s == 1 && d == 0) && (d == mul64 s' d') && chain (s' ∷ ss) (d' ∷ ds)
chain _ _ = true

chain_one : (s : ℕ) (xs ds : List ℕ) → xs ≡ [] → chain (s ∷ xs) ds ≡ true
unfolding chain
chain_one s [] [] e = refl
chain_one s [] (d ∷ ds) e = refl
chain_one s (x ∷ xs) ds e = cc

pub drop_past : (xs : List ℕ) (i : ℕ) → length xs ≤ i → drop i xs ≡ []
drop_past [] zero h = refl
drop_past [] (suc i) h = refl
drop_past (x ∷ xs) zero h = absurd (omega arith)
drop_past (x ∷ xs) (suc i) h = drop_past xs i (omega arith)

drop_two :
    (xs : List ℕ) (i a b : ℕ)
    → get_elem? xs i ≡ some a
    → get_elem? xs (i + 1) ≡ some b
    → (drop i xs ≡ a ∷ b ∷ drop (i + 2) xs) × (drop (i + 1) xs ≡ b ∷ drop (i + 2) xs)
drop_two xs i a b ha hb =
    let next : i + 1 ≡ suc i = omega arith in
    let second : drop (i + 1) xs ≡ b ∷ drop (i + 2) xs =
      drop-get xs (i + 1) b hb ∙ ap (λ k. b ∷ drop k xs) {x = suc (i + 1)} (omega arith) in
    (drop-get xs i a ha ∙ ap (λ k. a ∷ drop k xs) (sym next) ∙ ap (◌∷◌ a) second, second)

module _ (t : Tensor) (v : IsView t) where
  merges-chain_step :
      (rounds i s d s' d' : ℕ)
      → i + 1 < length t.shape
      → get_elem? t.shape i ≡ some s
      → get_elem? t.strides i ≡ some d
      → get_elem? t.shape (i + 1) ≡ some s'
      → get_elem? t.strides (i + 1) ≡ some d'
      → merges t rounds (i + 1) ≡ ok (chain (drop (i + 1) t.shape) (drop (i + 1) t.strides))
      → merges t (suc rounds) i ≡ ok (chain (drop i t.shape) (drop i t.strides))
  merges-chain_step rounds i s d s' d' lt hs hd hs' hd' rest =
      let (shapes, shapes') = drop_two t.shape i s s' hs hs' in
      let (steps, steps') = drop_two t.strides i d d' hd hd' in
      let rest' : merges t rounds (i + 1)
          ≡ ok (chain (s' ∷ drop (i + 2) t.shape) (d' ∷ drop (i + 2) t.strides)) =
        rest ∙ ap ok (λ j. chain (shapes' j) (steps' j)) in
      merges-suc t rounds i (size-ok t v i hs (omega arith)) (stride-ok t v i hd (omega arith))
        (size-ok t v (i + 1) hs' lt) (stride-ok t v (i + 1) hd' lt)
      ∙ rw (rest', shapes, steps) (unfold chain in ground arith)

  pub merges-chain :
      (rounds i : ℕ)
      → suc (i + rounds) ≡ length t.shape
      → merges t rounds i ≡ ok (chain (drop i t.shape) (drop i t.strides))
  merges-chain zero i h =
      let (s, hs) = get_elem?_below t.shape i (omega arith) in
      unfold merges in
      ap ok (
        sym (chain_one s _ (drop i t.strides) (drop_past t.shape (suc i) (omega arith)))
        ∙ ap (λ xs. chain xs (drop i t.strides)) (sym (drop-get t.shape i s hs)))
  merges-chain (suc rounds) i h =
      let same = v.same_length in
      let (s, hs) = get_elem?_below t.shape i (omega arith) in
      let (d, hd) = get_elem?_below t.strides i (omega arith) in
      let (s', hs') = get_elem?_below t.shape (i + 1) (omega arith) in
      let (d', hd') = get_elem?_below t.strides (i + 1) (omega arith) in
      merges-chain_step rounds i s d s' d' (omega arith) hs hd hs' hd'
        (merges-chain rounds (i + 1) (omega arith))
