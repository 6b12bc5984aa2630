-- ===== src/Common/Dispatcher/Laws.antt =====
-- What the filter keeps, and which call a dispatch makes.
use infini_ops.Prelude.{
  ℕ, ◌+◌, ◌≡◌, refl, Bool, true, false, ◌&&◌, ◌||◌, not, List, [], ◌∷◌, ◌++◌, none, some, get_elem?,
  arith, if◌then◌else◌, Outcome, fail, Fault, Bool-cases, inl, inr, ◌∙◌, ap, sym, map, length,
  length-append,
}
use infini_ops.Prelude.Equality.{Eq, same}
use mathlib.Core.List.{append-nil, append_assoc}
use infini_ops.Common.Traits.{contains, filter, filter_list}
use infini_ops.Common.Dispatcher.{
  first_match, dispatch_func_impl, unwrap_call, dispatch_func, dispatch_multi,
}

get_elem?-length :
    (pre : List ℕ) (v : ℕ) (rest : List ℕ) → get_elem? (pre ++ v ∷ rest) (length pre) ≡ some v
get_elem?-length [] v rest = refl
get_elem?-length (x ∷ pre) v rest = get_elem?-length pre v rest

module _ {ℓ} {A : Type ℓ} ⦃e : Eq A⦄ where
  contains-append :
      (xs ys : List A) (v : A) → contains (xs ++ ys) v ≡ (contains xs v || contains ys v)
  unfolding contains
  contains-append [] ys v = refl
  contains-append (x ∷ xs) ys v = ground (arith, contains-append xs ys v)

  same_self : (v : A) → same v v ≡ true
  same_self v = (e.beq_iff v v).1 refl

  same-transport : (p : A → Bool) (v x : A) → same v x ≡ true → p v ≡ p x
  same-transport p v x h = ap p ((e.beq_iff v x).0 h)

  -- What is kept is what was kept before, and what the functor takes of the rest.
  contains-filter_from :
      (p : A → Bool) (kept xs : List A) (v : A)
      → contains (filter p kept xs) v ≡ (contains kept v || (p v && contains xs v))
  unfolding filter contains
  contains-filter_from p kept [] v = ground arith
  contains-filter_from p kept (x ∷ xs) v = ground (
    arith,
    contains-filter_from p kept xs v,
    contains-filter_from p (kept ++ x ∷ []) xs v,
    contains-append kept (x ∷ []) v,
    same-transport p v x,
    same-transport (contains kept) v x,
  )

  -- No value twice.
  abbrev pub IsDistinct : List A → Type 0
  IsDistinct [] = Unit {0}
  IsDistinct (x ∷ xs) = (contains xs x ≡ false) × IsDistinct xs

  first_match-contains {κ} :
      {R : Type κ} (value : A) (func : A → Outcome R) (items : List A)
      → first_match value func items ≡ (if contains items value then some (func value) else none)
  unfolding first_match contains
  first_match-contains value func [] = refl
  first_match-contains value func (x ∷ xs) = elim (Bool-cases (same value x)) [
    | inl hit ↦ rw hit (ap (λ w. some (func w)) (sym ((e.beq_iff value x).0 hit)))
    | inr miss ↦ rw miss (first_match-contains value func xs)
  ]

  unwrap_call-contains {κ} :
      {R : Type κ} (value : A) (func : A → Outcome R) (items : List A)
      → unwrap_call value func items
        ≡ (if contains items value then func value else fail Fault.aborted)
  unfolding unwrap_call dispatch_func_impl contains
  unwrap_call-contains value func [] = refl
  unwrap_call-contains value func (x ∷ xs) =
      ground
        (arith, first_match-contains value func (xs ++ x ∷ []), contains-append xs (x ∷ []) value)

  -- A dispatch calls the functor once, at the value itself, if the value is allowed and the functor
  -- takes it, however often and in which order the list has it; in every other case it aborts.
  pub dispatch_func_calls {κ} :
      {R : Type κ} (invocable : A → Bool) (all_values : List A) (value : A) (func : A → Outcome R)
      → dispatch_func invocable all_values value func
        ≡ (if invocable value && contains all_values value then func value else fail Fault.aborted)
  unfolding dispatch_func contains
  dispatch_func_calls invocable all_values value func =
      unwrap_call-contains value func (filter invocable [] all_values)
      ∙ ap (λ b. if b then func value else fail Fault.aborted)
          (contains-filter_from invocable [] all_values value)

  -- Each value is in its list, and there are as many values as lists.
  abbrev pub all_allowed : List (List A) → List A → Bool
  all_allowed [] [] = true
  all_allowed [] (v ∷ vs) = false
  all_allowed (l ∷ ls) [] = false
  all_allowed (l ∷ ls) (v ∷ vs) = contains l v && all_allowed ls vs

  dispatch_multi-cons {κ} :
      {R : Type κ} (cast : ℕ → A) (l : List A) (ls : List (List A)) (values : List ℕ) (index v : ℕ)
      (func : List A → Outcome R) (items : List A)
      → get_elem? values index ≡ some v
      → dispatch_multi cast (l ∷ ls) values index func items ≡ (
          if contains l (cast v)
          then dispatch_multi cast ls values (index + 1) func (items ++ cast v ∷ [])
          else fail Fault.aborted)
  unfolding dispatch_multi
  dispatch_multi-cons cast l ls values index v func items h =
      rw (h, dispatch_multi)
        (dispatch_func_calls (λ _. true) l (cast v)
          (λ val. dispatch_multi cast ls values (index + 1) func (items ++ val ∷ [])))

  dispatch_multi_from {κ} :
      {R : Type κ} (cast : ℕ → A) (lists : List (List A)) (pre raw : List ℕ)
      (func : List A → Outcome R) (items : List A)
      → length raw ≡ length lists
      → dispatch_multi cast lists (pre ++ raw) (length pre) func items ≡ (
          if all_allowed lists (map cast raw)
          then func (items ++ map cast raw)
          else fail Fault.aborted)
  unfolding dispatch_multi
  dispatch_multi_from cast [] pre [] func items h = ap func (sym (append-nil items))
  dispatch_multi_from cast [] pre (v ∷ raw) func items h = absurd (omega arith)
  dispatch_multi_from cast (l ∷ ls) pre [] func items h = absurd (omega arith)
  dispatch_multi_from cast (l ∷ ls) pre (v ∷ raw) func items h =
      let next : length (pre ++ v ∷ []) ≡ length pre + 1 = length-append pre (v ∷ []) in
      let rest =
        dispatch_multi_from cast ls (pre ++ v ∷ []) raw func (items ++ cast v ∷ []) (omega arith) in
      dispatch_multi-cons cast l ls (pre ++ v ∷ raw) (length pre) v func items
        (get_elem?-length pre v raw)
      ∙ elim (Bool-cases (contains l (cast v))) [
        | inl hit ↦ rw hit (simp (append_assoc, next) at rest)
        | inr miss ↦ rw miss
      ]

  -- A multi-dispatch over as many values as lists calls the functor once, at the values in order,
  -- if each value is in its own list, and aborts if one is not.
  pub dispatch_multi_calls {κ} :
      {R : Type κ} (cast : ℕ → A) (lists : List (List A)) (raw : List ℕ) (func : List A → Outcome R)
      → length raw ≡ length lists
      → dispatch_multi cast lists raw 0 func []
        ≡ (if all_allowed lists (map cast raw) then func (map cast raw) else fail Fault.aborted)
  dispatch_multi_calls cast lists raw func h = dispatch_multi_from cast lists [] raw func [] h

  IsDistinct-snoc :
      (kept : List A) (x : A)
      → IsDistinct kept
      → contains kept x ≡ false
      → IsDistinct (kept ++ x ∷ [])
  unfolding contains
  IsDistinct-snoc [] x d h = (refl, tt)
  IsDistinct-snoc (k ∷ ks) x d h = (
    ground
        (arith, contains-append ks (x ∷ []) k, (e.beq_iff k x).0, (e.beq_iff x k).1, same_self x),
    IsDistinct-snoc ks x d.1 (ground arith),
  )

  filter_from-IsDistinct :
      (p : A → Bool) (kept xs : List A) → IsDistinct kept → IsDistinct (filter p kept xs)
  unfolding filter
  filter_from-IsDistinct p kept [] d = d
  filter_from-IsDistinct p kept (x ∷ xs) d = elim (Bool-cases (p x && not (contains kept x))) [
    | inl new ↦
        rw new
          (filter_from-IsDistinct p (kept ++ x ∷ []) xs (IsDistinct-snoc kept x d (ground arith)))
    | inr old ↦ rw old (filter_from-IsDistinct p kept xs d)
  ]

  -- Filtering a list keeps no value twice, and keeps exactly the listed values that the functor
  -- takes.
  pub filter_list_keeps :
      (invocable : A → Bool) (items : List A)
      → IsDistinct (filter_list invocable items)
        × ((v : A) → contains (filter_list invocable items) v ≡ (invocable v && contains items v))
  unfolding filter_list contains
  filter_list_keeps invocable items =
      (filter_from-IsDistinct invocable [] items tt, contains-filter_from invocable [] items)
