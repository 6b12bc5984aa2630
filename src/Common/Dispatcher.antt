-- ===== src/Common/Dispatcher.antt =====
-- src/dispatcher.h: a value known at run time selects the call of a functor that is instantiated
-- for each value of a compile-time list. Casts between the list's values and the type that is
-- dispatched on keep the value. The functor's result, or its fault, is passed on.
pub mod Laws
use infini_ops.Prelude.{
  ℕ, zero, suc, ◌+◌, Bool, true, List, [], ◌∷◌, ◌++◌, map, Option, none, some, get_elem?,
  if◌then◌else◌, Outcome, ok, fail, Fault, ◌>>=◌,
}
use infini_ops.Prelude.Equality.{Eq, same}
use infini_ops.Common.Traits.{filter}

module _ {ℓ κ} {V : Type ℓ} ⦃e : Eq V⦄ {R : Type κ} where
  -- The fold over `||`: the tail from left to right, then the head; `none` is `handled == false`.
  first_match : V → (V → Outcome R) → List V → Option (Outcome R)
  first_match value func [] = none
  first_match value func (item ∷ items) =
      if same value item then some (func item) else first_match value func items

  -- `DispatchFuncImpl`; a value that is in no branch aborts.
  dispatch_func_impl : V → (V → Outcome R) → V → List V → Outcome R
  unfolding first_match
  dispatch_func_impl value func head tail = elim (first_match value func (tail ++ head ∷ [])) [
    | some result ↦ result
    | none ↦ fail Fault.aborted
  ]

  -- `DispatchFuncUnwrap::Call`: no allowed value at all aborts too.
  unwrap_call : V → (V → Outcome R) → List V → Outcome R
  unfolding dispatch_func_impl
  unwrap_call value func [] = fail Fault.aborted
  unwrap_call value func (head ∷ tail) = dispatch_func_impl value func head tail

  -- `DispatchFunc<ValueType, all_values...>`.
  unfoldable pub dispatch_func : (V → Bool) → List V → V → (V → Outcome R) → Outcome R
  unfolding unwrap_call filter
  dispatch_func invocable all_values value func =
      unwrap_call value func (filter invocable [] all_values)

  -- `DispatchFunc<FirstList, RestLists...>` over a vector of values: one dimension after another,
  -- with the values found so far in `items`. The adapter of a dimension takes every value of its
  -- list; `values.at(index)` throws where the vector is too short.
  unfoldable pub dispatch_multi :
      (ℕ → V) → List (List V) → List ℕ → ℕ → (List V → Outcome R) → List V → Outcome R
  unfolding dispatch_func
  dispatch_multi cast [] values index func items = func items
  dispatch_multi cast (allowed ∷ rest) values index func items = elim (get_elem? values index) [
    | none ↦ fail Fault.thrown
    | some v ↦
        dispatch_func (λ _. true) allowed (cast v)
          (λ val. dispatch_multi cast rest values (index + 1) func (items ++ val ∷ []))
  ]
