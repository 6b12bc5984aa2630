-- ===== src/Common/ConstexprMap/Laws.antt =====
-- Two constant maps that are each other's inverse.
use infini_ops.Prelude.{◌≡◌, ap, sym, true, List, [], ◌∷◌, arith, ok, Bool-cases, inl, inr}
use infini_ops.Prelude.Equality.{Eq, same}
use infini_ops.Common.ConstexprMap.{at}
use infini_ops.Common.Traits.{contains}
use infini_ops.Common.Dispatcher.Laws.{IsDistinct}

module _ {ℓ κ} {K : Type ℓ} {V : Type κ} where
  abbrev pub values : List (K × V) → List V
  values [] = []
  values ((k, v) ∷ m) = v ∷ values m

  abbrev pub inverse : List (K × V) → List (V × K)
  inverse [] = []
  inverse ((k, v) ∷ m) = (v, k) ∷ inverse m

ok-injective {ℓ} : {A : Type ℓ} {a b : A} → ok a ≡ ok b → a ≡ b
ok-injective h = cc

module _ {ℓ κ} {K : Type ℓ} {V : Type κ} ⦃ek : Eq K⦄ ⦃ev : Eq V⦄ where
  contains-at : (m : List (K × V)) (k : K) (v : V) → at m k ≡ ok v → contains (values m) v ≡ true
  unfolding at contains
  contains-at [] k v h = cc
  contains-at ((f, s) ∷ m) k v h = elim (Bool-cases (same f k)) [
    | inl hit ↦ rw ((ev.beq_iff v s).1 (sym (ok-injective (rw hit at h))))
    | inr miss ↦ ground (arith, contains-at m k v)
  ]

  -- A lookup in a map with distinct values is undone by a lookup in its inverse.
  pub at-inverse :
      (m : List (K × V)) (k : K) (v : V)
      → IsDistinct (values m)
      → at m k ≡ ok v
      → at (inverse m) v ≡ ok k
  unfolding at
  at-inverse [] k v d h = cc
  at-inverse ((f, s) ∷ m) k v d h = elim (Bool-cases (same f k)) [
    | inl hit ↦ ground (
      arith,
      (ek.beq_iff f k).0 hit,
      (ev.beq_iff s v).1,
      ok-injective {a = s} {b = v} (rw hit at h),
    )
    | inr miss ↦
        let later : at m k ≡ ok v = rw miss at h in
        ground (
          arith,
          at-inverse m k v d.1 later,
          contains-at m k v later,
          (ev.beq_iff s v).0,
          ap (contains (values m)) {x = s} {y = v},
        )
  ]
