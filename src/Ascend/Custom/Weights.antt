-- ===== src/Ascend/Custom/Weights.antt =====
-- The calls of src/native/ascend/ops/rms_norm/kernel_custom.h and
-- src/native/ascend/ops/add_rms_norm/kernel_custom.h, whose kernels read the weight as `float`: weights of
-- another type are cast to a buffer of the operator first. `C` stands for the contents of a weight,
-- `contents` gives those at an address, and `cast` is `aclnnCast`; its executor and its workspace are
-- left out.
use infini_ops.Prelude.{
  ℕ, ◌≡◌, ◌≢◌, refl, sym, ap, ◌∙◌, subst, Bool, true, false, ◌==◌, ==_iff, Bool-cases, inl, inr,
  if◌then◌else◌, Outcome, ok, ◌>>=◌, bind_ok, ok-inj,
}
use infini_ops.Prelude.Equality.{same}
use infini_ops.DataType.{data_type_eq, float32}
use infini_ops.Ascend.Custom.Launch.{NormLaunch, CustomNorm, custom_launch}

module _ {C : Type 0} (cast : C → C) (contents : ℕ → C) where
  -- `RmsNorm`: the weight that the kernel reads, and its launch. The cast is made in every call.
  unfoldable pub custom_rms_norm_call : CustomNorm → ℕ → Outcome (C × NormLaunch)
  custom_rms_norm_call op weight = do
    let weight_fp32 = if same op.dtype float32 then contents weight else cast (contents weight)
    launch ← custom_launch op
    ok (weight_fp32, launch)

-- What `AddRmsNorm` keeps between its calls: `last_weight_ptr_`, with 0 for the null pointer, and what
-- the buffer at `weight_fp32_data_` holds.
pub record CastWeight (C : Type 0) : Type 0 where
  pub last_weight_ptr : ℕ
  pub weight_fp32 : C

module _ {C : Type 0} (cast : C → C) (contents : ℕ → C) where
  -- The cast is skipped for the address of the last one.
  unfoldable pub refresh_weight : CastWeight C → ℕ → CastWeight C
  refresh_weight s weight =
      if weight == s.last_weight_ptr
      then s
      else record { last_weight_ptr = weight; weight_fp32 = cast (contents weight) }

  unfoldable pub custom_add_rms_norm_call :
      CustomNorm → CastWeight C → ℕ → Outcome (CastWeight C × C × NormLaunch)
  unfolding refresh_weight
  custom_add_rms_norm_call op s weight = do
    let s' = if same op.dtype float32 then s else refresh_weight s weight
    launch ← custom_launch op
    ok (s', if same op.dtype float32 then contents weight else s'.weight_fp32, launch)

  -- The buffer has the weight at the last address, if there was one.
  abbrev pub IsFresh : CastWeight C → Type 0
  IsFresh s = s.last_weight_ptr ≢ 0 → s.weight_fp32 ≡ cast (contents s.last_weight_ptr)

  refresh_weight-IsFresh :
      (s : CastWeight C) (weight : ℕ)
      → IsFresh s
      → weight ≢ 0
      → ((refresh_weight s weight).weight_fp32 ≡ cast (contents weight))
        × IsFresh (refresh_weight s weight)
  unfolding refresh_weight
  refresh_weight-IsFresh s weight fresh given = elim (Bool-cases (weight == s.last_weight_ptr)) [
    | inr other ↦ rw other (refl, λ _. refl)
    | inl same_address ↦
        let here : weight ≡ s.last_weight_ptr = (==_iff weight s.last_weight_ptr).0 same_address in
        let kept = fresh (λ e. given (here ∙ e)) ∙ ap (λ w. cast (contents w)) (sym here) in
        rw same_address (kept, fresh)
  ]

  read_well :
      (wide : Bool) (s t s' : CastWeight C) (c k read : C) (l launch : NormLaunch)
      → ◌≡◌ {A = CastWeight C × C × NormLaunch}
          (
            if wide then s else t,
            if wide then c else (let r : CastWeight C = if wide then s else t in r.weight_fp32),
            l,
          )
          (s', read, launch)
      → t.weight_fp32 ≡ k
      → IsFresh s
      → IsFresh t
      → (◌≡◌ {A = C × NormLaunch} (if wide then c else k, l) (read, launch)) × IsFresh s'
  read_well true s t s' c k read l launch parts well fresh kept =
      (λ i. ((parts i).1, (parts i).2), subst IsFresh (λ i. (parts i).0) fresh)
  read_well false s t s' c k read l launch parts well fresh kept = (
    (λ i. (sym well i, l)) ∙ (λ i. ((parts i).1, (parts i).2)),
    subst IsFresh (λ i. (parts i).0) kept,
  )

  -- While the weight at the last address is the one that was cast, a call of `AddRmsNorm` with a weight
  -- makes its kernel read what that of `RmsNorm` reads, and the buffer stays so.
  pub custom_add_rms_norm_call-IsFresh :
      (op : CustomNorm) (s s' : CastWeight C) (weight : ℕ) (read : C) (launch : NormLaunch)
      → IsFresh s
      → weight ≢ 0
      → custom_add_rms_norm_call op s weight ≡ ok (s', read, launch)
      → (custom_rms_norm_call cast contents op weight ≡ ok (read, launch)) × IsFresh s'
  unfolding custom_add_rms_norm_call custom_rms_norm_call
  custom_add_rms_norm_call-IsFresh op s s' weight read launch fresh given called =
      let (l, made, rest) = bind_ok (custom_launch op) _ called in
      let (cast_well, kept) = refresh_weight-IsFresh s weight fresh given in
      let (pair, fresh') =
        read_well (same op.dtype float32) s (refresh_weight s weight) s' (contents weight)
          (cast (contents weight)) read l launch (ok-inj rest) cast_well fresh kept in
      (rw made (ap ok pair), fresh')
