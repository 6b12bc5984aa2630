-- ===== src/Base/Linear/Laws.antt =====
-- The two constructors of `Linear` accept the same arguments.
use infini_ops.Prelude.{
  ℕ, zero, suc, ◌^◌, ◌<◌, ◌≡◌, refl, ap, sym, ◌∙◌, true, false, Option, ◌==◌, ==_iff, leb, length,
  get_elem?, Outcome, ok, ◌>>=◌, ◌>>◌, assert, access, bind_ok, arith, inl, inr, fail-ok, List, [],
  ◌∷◌,
}
use infini_ops.DataType.{data_type_eq}
use infini_ops.Tensor.{Tensor, ndim, size, get_effective_index}
use infini_ops.Base.Checks.{from_end, has_dtype, has_size}
use infini_ops.Base.Checks.Laws.{then_ok, assert-true, has_size-size, check_cases}
use infini_ops.Base.Linear.{linear_flags, linear}

-- A tensor whose next to last dimension can be read has two dimensions at least, if it has fewer
-- than 2 ^ 63.
get_elem?-below : (xs : List ℕ) (i s : ℕ) → access (get_elem? xs i) ≡ ok s → i < length xs
get_elem?-below [] i s h = absurd (fail-ok h)
get_elem?-below (x ∷ xs) zero s h = omega arith
get_elem?-below (x ∷ xs) (suc i) s h = omega (arith, get_elem?-below xs i s h)

two_dims :
    (t : Tensor) (s : ℕ)
    → length t.shape < 2 ^ 63
    → size t (from_end 2) ≡ ok s
    → leb 2 (ndim t) ≡ true
unfolding size ndim get_effective_index
two_dims t s few h = let below = get_elem?-below t.shape _ s h in ground arith

-- The further checks of the constructor without flags.
abbrev further : Tensor → Tensor → Tensor → Outcome (Unit {0})
further input weight out = do
  assert (leb 2 (ndim weight))
  features ← size input (from_end 1)
  has_size weight (from_end 1) features
  out_features ← size out (from_end 1)
  has_size weight (from_end 2) out_features
  rows ← size input (from_end 2)
  has_size out (from_end 2) rows

further_ok :
    (input weight out : Tensor) (rows cols bcols : ℕ)
    → leb 2 (ndim weight) ≡ true
    → size input (from_end 1) ≡ ok cols
    → size input (from_end 2) ≡ ok rows
    → size weight (from_end 1) ≡ ok cols
    → size weight (from_end 2) ≡ ok bcols
    → size out (from_end 1) ≡ ok bcols
    → size out (from_end 2) ≡ ok rows
    → further input weight out ≡ ok tt
further_ok input weight out rows cols bcols two i1 i2 w1 w2 o1 o2 =
    let cols_same : (cols == cols) ≡ true = ground arith in
    let bcols_same : (bcols == bcols) ≡ true = ground arith in
    let rows_same : (rows == rows) ≡ true = ground arith in
    rw (two, i1, w1, cols_same, o1, w2, bcols_same, i2, o2, rows_same) refl

linear_flags-further :
    (input weight : Tensor) (bias : Option Tensor) (out : Tensor)
    → length weight.shape < 2 ^ 63
    → linear_flags input weight bias false true out ≡ ok tt
    → further input weight out ≡ ok tt
unfolding linear_flags
linear_flags-further input weight bias out few h =
    let (d1, h1) = then_ok (has_dtype weight input.dtype) h in
    let (d2, h2) = then_ok (has_dtype out input.dtype) h1 in
    let (rows, i2, h3) = bind_ok (size input (from_end 2)) _ h2 in
    let (cols, i1, h4) = bind_ok (size input (from_end 1)) _ h3 in
    let (w_rows, w1, h5) = bind_ok (size weight (from_end 1)) _ h4 in
    let (w_cols, w2, h6) = bind_ok (size weight (from_end 2)) _ h5 in
    let (inner, h7) = then_ok (assert (cols == w_rows)) h6 in
    let (o2, h8) = then_ok (has_size out (from_end 2) rows) h7 in
    let (o1, biased) = then_ok (has_size out (from_end 1) w_cols) h8 in
    let same : w_rows ≡ cols = sym ((==_iff cols w_rows).0 (assert-true (cols == w_rows) inner)) in
    further_ok input weight out rows cols w_cols (two_dims weight w_cols few w2) i1 i2
      (w1 ∙ ap ok same) w2 (has_size-size out (from_end 1) w_cols o1)
      (has_size-size out (from_end 2) rows o2)

-- On a weight with fewer than 2 ^ 63 dimensions the constructor without flags accepts, or fails, just
-- as the one it delegates to: its further checks never fail where those have passed.
pub linear-linear_flags :
    (input weight : Tensor) (bias : Option Tensor) (out : Tensor)
    → length weight.shape < 2 ^ 63
    → linear input weight bias out ≡ linear_flags input weight bias false true out
unfolding linear
linear-linear_flags input weight bias out few =
    elim (check_cases (linear_flags input weight bias false true out)) [
      | inl accepts ↦ rw accepts (linear_flags-further input weight bias out few accepts)
      | inr (e, fails) ↦ rw fails refl
    ]
