-- ===== src/Common/Traits.antt =====
-- src/common/traits.h: a `List<items...>` of compile-time values is a list. Whether a functor can
-- be called with a `ValueTag` (`IsInvocableValue`) is a Boolean test on the value.
use infini_ops.Prelude.{
  ℕ, zero, suc, Bool, false, ◌&&◌, ◌||◌, not, List, [], ◌∷◌, ◌++◌, Option, none, some,
  if◌then◌else◌,
}
use infini_ops.Prelude.Equality.{Eq, same}

module _ {ℓ} {A : Type ℓ} where
  -- `ListGet<index>(List<items...>{})`; past the end the source does not compile.
  unfoldable pub list_get : ℕ → List A → Option A
  list_get index [] = none
  list_get zero (head ∷ tail) = some head
  list_get (suc index) (head ∷ tail) = list_get index tail

  -- `ConcatType<L1, L2>`.
  unfoldable pub concat : List A → List A → List A
  concat item1 item2 = item1 ++ item2

  -- `Flatten<Lists...>`: the first two lists are joined until one is left.
  unfoldable pub flatten : List A → List (List A) → List A
  unfolding concat
  flatten l1 [] = l1
  flatten l1 (l2 ∷ rest) = flatten (concat l1 l2) rest

module _ {ℓ} {A : Type ℓ} ⦃e : Eq A⦄ where
  -- `ContainsValue<List<items...>, value>`.
  unfoldable pub contains : List A → A → Bool
  contains [] value = false
  contains (item ∷ items) value = same value item || contains items value

  -- `Filter<Functor, Args, List<filtered...>, remaining...>`: keep what the functor takes and was
  -- not kept before.
  unfoldable pub filter : (A → Bool) → List A → List A → List A
  filter invocable filtered [] = filtered
  filter invocable filtered (head ∷ tail) =
      filter invocable
        (if invocable head && not (contains filtered head) then filtered ++ head ∷ [] else filtered)
        tail

  -- `FilterList<Functor, Args, List<items...>>`.
  unfoldable pub filter_list : (A → Bool) → List A → List A
  unfolding filter
  filter_list invocable items = filter invocable [] items
