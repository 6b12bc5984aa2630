-- ===== src/Cpu/Sampler/Laws.antt =====
-- What a row's sample can be.
use infini_ops.Prelude.{
  ℕ, zero, suc, ◌<◌, ◌≤◌, ◌^◌, ◌≡◌, refl, arith, true, false, mul64, Bool, List, [], ◌∷◌, length,
  get_elem?, take, some,
}
use infini_ops.Base.Sampling.{TopKTopPSampler}
use infini_ops.Cpu.Sampler.{SamplerArithmetic, SamplerLibrary, iota, logit, sorted, keep_count}

-- A comparison that is a strict weak order of the numbers below a bound.
pub record IsOrder (less : ℕ → ℕ → Bool) (bound : ℕ) : Type 0 where
  pub irreflexive : (x : ℕ) → x < bound → less x x ≡ false
  pub transitive :
      (x y z : ℕ)
      → x < bound
      → y < bound
      → z < bound
      → less x y ≡ true
      → less y z ≡ true
      → less x z ≡ true
  pub comparable :
      (x y z : ℕ)
      → x < bound
      → y < bound
      → z < bound
      → less x y ≡ false
      → less y z ≡ false
      → less x z ≡ false

-- What the library documents, of the sort of the numbers below `n` by a comparison `less`: if it is such
-- an order, the result has as many entries, each of the numbers and nothing else, and none stands before
-- one that is less. A draw by weights that a distribution can have, which `IsWeights` says, gives the
-- index of one of them.
pub record IsDocumented {W D : Type 0} (IsWeights : List D → Type 0) (std : SamplerLibrary W D)
    (less : ℕ → ℕ → Bool) (n : ℕ) : Type 0 where
  pub sort_length : IsOrder less n → length (std.sort less (iota n 0)) ≡ n
  pub sort_below :
      (i x : ℕ) → IsOrder less n → get_elem? (std.sort less (iota n 0)) i ≡ some x → x < n
  pub sort_keeps :
      (x : ℕ) → IsOrder less n → x < n → (i : ℕ) × (get_elem? (std.sort less (iota n 0)) i ≡ some x)
  pub sort_orders :
      (i j x y : ℕ)
      → IsOrder less n
      → i < j
      → get_elem? (std.sort less (iota n 0)) i ≡ some x
      → get_elem? (std.sort less (iota n 0)) j ≡ some y
      → less y x ≡ false
  pub draws : (w : W) (ws : List D) → IsWeights ws → 0 < length ws → (std.draw w ws).0 < length ws

-- A logit is less than another in the order of the sort if it is greater as a number.
abbrev pub sorts_before :
    {T F D W : Type 0} (f : SamplerArithmetic T F D) (std : SamplerLibrary W D)
    (op : TopKTopPSampler) (row : ℕ → T) (stride : ℕ)
    → ℕ
    → ℕ
    → Bool
sorts_before f std op row stride a b =
    f.greater (logit f std op row stride a) (logit f std op row stride b)

get_elem?-take :
    {A : Type 0} (n i : ℕ) (xs : List A) → i < n → get_elem? (take n xs) i ≡ get_elem? xs i
get_elem?-take zero i xs h = absurd (omega arith)
get_elem?-take (suc n) i [] h = refl
get_elem?-take (suc n) zero (x ∷ xs) h = refl
get_elem?-take (suc n) (suc i) (x ∷ xs) h = get_elem?-take n i xs (omega arith)

module _ {T F D W : Type 0} (f : SamplerArithmetic T F D) (std : SamplerLibrary W D)
    (IsWeights : List D → Type 0) (op : TopKTopPSampler) (row : ℕ → T) (stride : ℕ)
    (doc : IsDocumented IsWeights std (sorts_before f std op row stride) op.vocab_size) where
  abbrev before : ℕ → ℕ → Bool
  before = sorts_before f std op row stride

  -- A sampled token, and its place among the sorted ones.
  pub record Sampled (top_k : ℕ) (top_p : D) (index n : ℕ) : Type 0 where
    pub kept : n < keep_count f std op row stride top_k top_p
    pub stands_at : get_elem? (sorted f std op row stride) n ≡ some index
    pub in_vocabulary : index < op.vocab_size
    pub greater_first :
        (y : ℕ)
        → y < op.vocab_size
        → f.greater (f.to_float (row (mul64 y stride))) (f.to_float (row (mul64 index stride)))
          ≡ true
        → (i : ℕ) × (i < n) × (get_elem? (sorted f std op row stride) i ≡ some y)
    pub at_most_k : 0 < top_k → top_k < 2 ^ 63 → keep_count f std op row stride top_k top_p ≤ top_k
