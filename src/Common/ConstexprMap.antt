-- ===== src/Common/ConstexprMap.antt =====
-- src/common/constexpr_map.h: a constant array of pairs, searched from the front.
pub mod Laws
use infini_ops.Prelude.{List, [], ◌∷◌, if◌then◌else◌, Outcome, ok, fail, Fault}
use infini_ops.Prelude.Equality.{Eq, same}

-- `ConstexprMap::at`; a missing key aborts.
unfoldable pub at {ℓ κ} : {K : Type ℓ} {V : Type κ} ⦃e : Eq K⦄ → List (K × V) → K → Outcome V
at [] key = fail Fault.aborted
at ((first, second) ∷ rest) key = if same first key then ok second else at rest key
