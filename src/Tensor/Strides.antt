-- ===== src/Tensor/Strides.antt =====
-- The strides that a tensor gets by default.
use native.Mathlib.Nat.{div-add-mod'}
use infini_ops.Prelude.{
  ℕ, zero, suc, ◌*◌, ◌%◌, ◌^◌, ◌<◌, ◌≡◌, refl, ap, sym, ◌∙◌, List, [], ◌∷◌, map, arith, length,
  get_elem?, set, drop, some, ok, mul64, length-set, length-map,
}
use infini_ops.Prelude.Products.{
  product, suffixes, get_elem?-suffixes, product-drop, get_elem?_below,
}
use infini_ops.Tensor.{fill_strides, default_strides}

drop-set : (xs : List ℕ) (i v : ℕ) → i < length xs → drop i (set xs i v) ≡ v ∷ drop (suc i) xs
drop-set [] i v h = absurd (omega arith)
drop-set (x ∷ xs) zero v h = refl
drop-set (x ∷ xs) (suc i) v h = drop-set xs i v (omega arith)

pub drop-get : (xs : List ℕ) (i x : ℕ) → get_elem? xs i ≡ some x → drop i xs ≡ x ∷ drop (suc i) xs
drop-get [] i x h = cc
drop-get (y ∷ xs) zero x h = ground arith
drop-get (y ∷ xs) (suc i) x h = drop-get xs i x h

get_elem?-drop : (xs : List ℕ) (i : ℕ) → get_elem? (drop i xs) 0 ≡ get_elem? xs i
get_elem?-drop xs zero = refl
get_elem?-drop [] (suc i) = refl
get_elem?-drop (x ∷ xs) (suc i) = get_elem?-drop xs i

abbrev pub wrap : List ℕ → List ℕ
wrap = map (λ p. p % 2 ^ 64)

get_elem?-wrap :
    (xs : List ℕ) (i x : ℕ) → get_elem? xs i ≡ some x → get_elem? (wrap xs) i ≡ some (x % 2 ^ 64)
get_elem?-wrap [] i x h = cc
get_elem?-wrap (y ∷ xs) zero x h = ground arith
get_elem?-wrap (y ∷ xs) (suc i) x h = get_elem?-wrap xs i x h

pub length-suffixes : (shape : List ℕ) → length (suffixes shape) ≡ length shape
length-suffixes [] = refl
length-suffixes (s ∷ shape) = ap suc (length-suffixes shape)

pub mul64-wrap : (p s : ℕ) → mul64 (p % 2 ^ 64) s ≡ (s * p) % 2 ^ 64
mul64-wrap p s = omega (arith, ap (λ (t : ℕ). t * s) (div-add-mod' p (2 ^ 64)))

fill_strides-suc :
    (shape strides : List ℕ) (i inner s : ℕ)
    → get_elem? strides (suc i) ≡ some inner
    → get_elem? shape (suc i) ≡ some s
    → fill_strides shape (suc i) strides ≡ fill_strides shape i (set strides i (mul64 inner s))
unfolding fill_strides
fill_strides-suc shape strides i inner s h k = rw (h, k)

drop_last :
    (s v : ℕ) (xs ys : List ℕ)
    → length xs ≡ length ys
    → drop (length xs) (set (s ∷ ys) (length xs) v) ≡ v ∷ []
drop_last s v [] [] h = refl
drop_last s v [] (y ∷ ys) h = absurd (omega arith)
drop_last s v (x ∷ xs) [] h = absurd (omega arith)
drop_last s v (x ∷ xs) (y ∷ ys) h = drop_last y v xs ys (omega arith)

suffixes_last :
    (s : ℕ) (shape : List ℕ) → drop (length shape) (wrap (suffixes (s ∷ shape))) ≡ 1 ∷ []
suffixes_last s [] = refl
suffixes_last s (t ∷ shape) = suffixes_last t shape

-- The loop fills in every entry below `i` if the others are there.
fill_strides-wrap :
    (shape : List ℕ) (i : ℕ) (strides : List ℕ)
    → i < length shape
    → length strides ≡ length shape
    → drop i strides ≡ drop i (wrap (suffixes shape))
    → fill_strides shape i strides ≡ ok (wrap (suffixes shape))
fill_strides-wrap shape zero strides h len rest = unfold fill_strides in ap ok rest
fill_strides-wrap shape (suc i) strides h len rest =
    let (s, hs) = get_elem?_below shape (suc i) h in
    let p = product (drop (suc (suc i)) shape) in
    let target = wrap (suffixes shape) in
    let inner : get_elem? strides (suc i) ≡ some (p % 2 ^ 64) =
      sym (get_elem?-drop strides (suc i))
      ∙ ap (λ xs. get_elem? xs 0) rest
      ∙ get_elem?-drop target (suc i)
      ∙ get_elem?-wrap (suffixes shape) (suc i) p (get_elem?-suffixes shape (suc i) h) in
    let value : mul64 (p % 2 ^ 64) s ≡ product (drop (suc i) shape) % 2 ^ 64 =
      mul64-wrap p s ∙ ap (λ x. x % 2 ^ 64) (sym (product-drop shape (suc i) s hs)) in
    let entry : drop i target ≡ mul64 (p % 2 ^ 64) s ∷ drop (suc i) target = rw value (
      drop-get target i _
        (get_elem?-wrap (suffixes shape) i _ (get_elem?-suffixes shape i (omega arith)))) in
    fill_strides-suc shape strides i (p % 2 ^ 64) s inner hs
    ∙ fill_strides-wrap shape i (set strides i (mul64 (p % 2 ^ 64) s)) (omega arith)
        (length-set strides i _ ∙ len)
        (drop-set strides i _ (omega arith) ∙ ap (◌∷◌ (mul64 (p % 2 ^ 64) s)) rest ∙ sym entry)

-- Without strides a tensor is row-major: each dimension's stride is the product of the sizes after
-- it, in the arithmetic of words.
pub default_strides-suffixes : (shape : List ℕ) → default_strides shape ≡ ok (wrap (suffixes shape))
unfolding default_strides
default_strides-suffixes [] = refl
default_strides-suffixes (s ∷ shape) =
    let zeros : List ℕ = map (λ _. 0) shape in
    fill_strides-wrap (s ∷ shape) (length shape) (set (0 ∷ zeros) (length shape) 1) (omega arith)
      (length-set (0 ∷ zeros) (length shape) 1 ∙ ap suc (length-map (λ _. 0) shape))
      (drop_last 0 1 shape zeros (sym (length-map (λ _. 0) shape)) ∙ sym (suffixes_last s shape))
