-- ===== src/Ascend/AclTensor/Cache/Safety.antt =====
-- No descriptor is destroyed twice, or used after that.
use infini_ops.Prelude.{
  ℕ, ◌≡◌, ◌≢◌, refl, ap, sym, ◌∙◌, subst, ◌==◌, ==_iff, Bool, true, false, ◌&&◌, not, List, [], ◌∷◌,
  Outcome, ok, ◌>>=◌, arith, Bool-cases, inl, inr,
}
use infini_ops.Ascend.AclTensor.{TensorMeta}
use infini_ops.Ascend.AclTensor.Cache.{
  AclTensors, AclTensorCache, Objects, write, without_tensor, destroy_held, construct, get, release,
  destroy, destruct, move_construct, move_assign, CacheCall, construct_at, get_from, release_of,
  destroy_of, destruct_of, move_construct_at, move_assign_to, step, run,
}
use infini_ops.Ascend.AclTensor.Cache.Ownership.{
  IsDocumented, Held, tensors_of, Held-drop, Held-put, Held-move,
}

write_self : (caches : ℕ → AclTensorCache) (i : ℕ) (c : AclTensorCache) → write caches i c i ≡ c
write_self caches i c = rw ((==_iff i i).1 refl) refl

write_other :
    (caches : ℕ → AclTensorCache) (i : ℕ) (c : AclTensorCache) (j : ℕ)
    → j ≢ i
    → write caches i c j ≡ caches j
write_other caches i c j n = let off : (j == i) ≡ false = ground arith in rw off refl

abbrev tensor_at : AclTensorCache → ℕ
tensor_at c = c.tensor

module _ {W : Type 0} (acl : AclTensors W) (live : W → ℕ → Bool) (doc : IsDocumented acl live) where
  -- The descriptors that the objects hold are there, and no two objects hold the same.
  abbrev pub IsOwned : Objects W → Type 0
  IsOwned s = Held (tensors_of s) (live s.runtime)

  -- The constructors start objects that hold nothing, and move from other objects.
  abbrev pub IsNew : Objects W → CacheCall → Type 0
  IsNew s (construct_at i meta address) = tensors_of s i ≡ 0
  IsNew s (move_construct_at i o) = (tensors_of s i ≡ 0) × (i ≢ o)
  IsNew s _ = Unit {0}

  -- A call that returns, and leaves the descriptors owned.
  abbrev pub Keeps : Outcome (Objects W) → Type 0
  Keeps m = (s' : Objects W) × (m ≡ ok s') × IsOwned s'

  destroy_held-ok :
      (w : W) (t : ℕ)
      → (t ≢ 0 → live w t ≡ true)
      → (w' : W) × (destroy_held acl w t ≡ ok w')
        × ((d : ℕ) → d ≢ t → live w d ≡ true → live w' d ≡ true)
  unfolding destroy_held
  destroy_held-ok w t there = elim (Bool-cases (t == 0)) [
    | inl null ↦ (w, rw null refl, λ d n h. h)
    | inr some_tensor ↦
        let (w', done, keeps) = doc.destroys w t (there (λ e. ground arith)) in
        (w', rw some_tensor done, keeps)
  ]

  abbrev dropped_state : Objects W → ℕ → W → Objects W
  dropped_state s i w = record {
    caches = write s.caches i (without_tensor (s.caches i));
    runtime = w;
  }

  abbrev put_state : Objects W → ℕ → TensorMeta → ℕ → Objects W
  put_state s i meta address = record {
    caches =
        write s.caches i
          (record { kept = meta; tensor = (acl.create_tensor s.runtime meta address).0 });
    runtime = (acl.create_tensor s.runtime meta address).1;
  }

  abbrev moved_state : Objects W → ℕ → ℕ → W → Objects W
  moved_state s i o w = record {
    caches = write (write s.caches i (s.caches o)) o (without_tensor (s.caches o));
    runtime = w;
  }

  abbrev empty_state : Objects W → ℕ → TensorMeta → Objects W
  empty_state s i meta = record s { caches = write s.caches i (record { kept = meta; tensor = 0 }) }

  drop-IsOwned :
      (s : Objects W) (i : ℕ) (w : W)
      → IsOwned s
      → ((d : ℕ) → d ≢ tensors_of s i → live s.runtime d ≡ true → live w d ≡ true)
      → IsOwned (dropped_state s i w)
  drop-IsOwned s i w h keeps =
      let c : AclTensorCache = without_tensor (s.caches i) in
      Held-drop (tensors_of s) (λ j. tensor_at (write s.caches i c j)) (live s.runtime) (live w) i h
        (λ j n. ap tensor_at (write_other s.caches i c j n))
        (ap tensor_at (write_self s.caches i c)) keeps

  empty-IsOwned :
      (s : Objects W) (i : ℕ) (meta : TensorMeta) → IsOwned s → IsOwned (empty_state s i meta)
  empty-IsOwned s i meta h =
      let c : AclTensorCache = record { kept = meta; tensor = 0 } in
      Held-drop (tensors_of s) (λ j. tensor_at (write s.caches i c j)) (live s.runtime)
        (live s.runtime) i h (λ j n. ap tensor_at (write_other s.caches i c j n))
        (ap tensor_at (write_self s.caches i c)) (λ d n l. l)

  put-IsOwned :
      (s : Objects W) (i : ℕ) (meta : TensorMeta) (address : ℕ)
      → IsOwned s
      → IsOwned (put_state s i meta address)
  put-IsOwned s i meta address h =
      let made = acl.create_tensor s.runtime meta address in
      let c : AclTensorCache = record { kept = meta; tensor = made.0 } in
      let self = ap tensor_at (write_self s.caches i c) in
      Held-put (tensors_of s) (λ j. tensor_at (write s.caches i c j)) (live s.runtime) (live made.1)
        i h (λ j n. ap tensor_at (write_other s.caches i c j n))
        (λ n.
          subst (λ d. live s.runtime d ≡ false) (sym self)
            (doc.creates_new s.runtime meta address (λ z. n (self ∙ z))))
        (λ n.
          subst (λ d. live made.1 d ≡ true) (sym self)
            (doc.creates s.runtime meta address (λ z. n (self ∙ z))))
        (doc.create_keeps s.runtime meta address)

  -- The object `i` takes over from `o`, after its own descriptor is gone.
  move-IsOwned :
      (s : Objects W) (i o : ℕ) (w : W)
      → IsOwned s
      → ((d : ℕ) → d ≢ tensors_of s i → live s.runtime d ≡ true → live w d ≡ true)
      → i ≢ o
      → IsOwned (moved_state s i o w)
  move-IsOwned s i o w h keeps ne =
      let gone : AclTensorCache = without_tensor (s.caches i) in
      let dropped = drop-IsOwned s i w h keeps in
      let first = write s.caches i (s.caches o) in
      let c : AclTensorCache = without_tensor (s.caches o) in
      Held-move (λ j. tensor_at (write s.caches i gone j)) (λ j. tensor_at (write first o c j))
        (live w) i o dropped (ap tensor_at (write_self s.caches i gone))
        (ap tensor_at (write_self first o c))
        (ap tensor_at (
          write_other first o c i ne
          ∙ write_self s.caches i (s.caches o)
          ∙ sym (write_other s.caches i gone o (λ e. ne (sym e)))))
        (λ j n m. ap tensor_at (
          write_other first o c j m
          ∙ write_other s.caches i (s.caches o) j n
          ∙ sym (write_other s.caches i gone j n)))

  unchanged :
      (s : Objects W) (w : W)
      → IsOwned s
      → ((d : ℕ) → live s.runtime d ≡ true → live w d ≡ true)
      → IsOwned (record s { runtime = w })
  unchanged s w h keeps = record { there = λ i n. keeps _ (h.there i n); apart = h.apart }

  destroy-Keeps : (s : Objects W) (i : ℕ) → IsOwned s → Keeps (destroy acl s i)
  unfolding destroy
  destroy-Keeps s i h =
      let (w, done, keeps) = destroy_held-ok s.runtime (tensors_of s i) (h.there i) in
      (dropped_state s i w, rw done refl, drop-IsOwned s i w h keeps)

  destruct-Keeps : (s : Objects W) (i : ℕ) → IsOwned s → Keeps (destruct acl s i)
  unfolding destruct
  destruct-Keeps s i h =
      elim (Bool-cases (not (tensors_of s i == 0) && acl.is_runtime_alive s.runtime)) [
        | inl destroys ↦
            let (w, done, keeps) = destroy_held-ok s.runtime (tensors_of s i) (h.there i) in
            (dropped_state s i w, rw (destroys, done) refl, drop-IsOwned s i w h keeps)
        | inr leaves ↦
            (dropped_state s i s.runtime, rw leaves refl, drop-IsOwned s i s.runtime h (λ d n l. l))
      ]

  construct-Keeps :
      (s : Objects W) (i : ℕ) (meta : TensorMeta) (address : ℕ)
      → tensors_of s i ≡ 0
      → IsOwned s
      → Keeps (construct acl s i meta address)
  unfolding construct
  construct-Keeps s i meta address empty h = elim (Bool-cases (address == 0)) [
    | inl null ↦ (empty_state s i meta, rw null refl, empty-IsOwned s i meta h)
    | inr given ↦ (put_state s i meta address, rw given refl, put-IsOwned s i meta address h)
  ]

  get-Keeps :
      (s : Objects W) (i address : ℕ) → IsOwned s → Keeps (get acl s i address >>= λ r. ok (r.0))
  unfolding get
  get-Keeps s i address h = elim (Bool-cases (tensors_of s i == 0)) [
    | inl null ↦ (
      put_state s i ((s.caches i).kept) address,
      rw null refl,
      put-IsOwned s i ((s.caches i).kept) address h,
    )
    | inr held ↦
        let (w, done, keeps) =
          doc.sets s.runtime (tensors_of s i) address (h.there i (λ e. ground arith)) in
        (record s { runtime = w }, rw (held, done) refl, unchanged s w h keeps)
  ]

  move_assign-Keeps : (s : Objects W) (i o : ℕ) → IsOwned s → Keeps (move_assign acl s i o)
  unfolding move_assign
  move_assign-Keeps s i o h = elim (Bool-cases (i == o)) [
    | inl same ↦ (s, rw same refl, h)
    | inr other ↦
        let (w, done, keeps) = destroy_held-ok s.runtime (tensors_of s i) (h.there i) in
        (
          moved_state s i o w,
          rw (other, done) refl,
          move-IsOwned s i o w h keeps (λ e. ground arith),
        )
  ]

  move_construct-Keeps :
      (s : Objects W) (i o : ℕ) → i ≢ o → IsOwned s → Keeps (move_construct acl s i o)
  unfolding move_construct
  move_construct-Keeps s i o other h =
      (moved_state s i o s.runtime, refl, move-IsOwned s i o s.runtime h (λ d n l. l) other)

  step-Keeps : (s : Objects W) (c : CacheCall) → IsNew s c → IsOwned s → Keeps (step acl s c)
  unfolding step release
  step-Keeps s (construct_at i meta address) new h = construct-Keeps s i meta address new h
  step-Keeps s (get_from i address) new h = get-Keeps s i address h
  step-Keeps s (release_of i) new h =
      (dropped_state s i s.runtime, refl, drop-IsOwned s i s.runtime h (λ d n l. l))
  step-Keeps s (destroy_of i) new h = destroy-Keeps s i h
  step-Keeps s (destruct_of i) new h = destruct-Keeps s i h
  step-Keeps s (move_construct_at i o) new h = move_construct-Keeps s i o new.1 h
  step-Keeps s (move_assign_to i o) new h = move_assign-Keeps s i o h

  -- Every constructor of a run starts an object that holds nothing, and moves from another.
  abbrev pub StartsNew : Objects W → List CacheCall → Type 0
  StartsNew s [] = Unit {0}
  StartsNew s (c ∷ calls) =
      IsNew s c × ((s' : Objects W) → step acl s c ≡ ok s' → StartsNew s' calls)

  -- With a runtime that fails where a descriptor that is not there is destroyed or given an address,
  -- a run of the methods whose constructors start new objects never fails: from a state in which
  -- the held descriptors are there and no two objects hold the same, it returns, in such a state.
  pub run-IsOwned :
      (s : Objects W) (calls : List CacheCall)
      → StartsNew s calls
      → IsOwned s
      → (s' : Objects W) × (run acl s calls ≡ ok s') × IsOwned s'
  unfolding run
  run-IsOwned s [] new h = (s, refl, h)
  run-IsOwned s (c ∷ calls) new h =
      let (s', stepped, h') = step-Keeps s c new.0 h in
      let (s'', ran, h'') = run-IsOwned s' calls (new.1 s' stepped) h' in (s'', rw stepped ran, h'')
