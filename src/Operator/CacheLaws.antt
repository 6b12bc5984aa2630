-- ===== src/Operator/CacheLaws.antt =====
-- What `Operator::Call` runs, and what the cache holds between calls.
use infini_ops.Prelude.{
  ◌≡◌, refl, subst, true, List, [], ◌∷◌, none, some, ◌==◌, ok, ◌>>=◌, bind_ok, ok-inj, some-inj,
  Bool-cases, Option-cases, inl, inr,
}
use infini_ops.Tensor.{Tensor}
use infini_ops.Operator.Key.{StdHash, Arg, tensor, CacheKey, build_key}
use infini_ops.Operator.KeyLaws.{hit, hit_refl}
use infini_ops.Operator.Make.{Handle, Config, Kernels, Op, make, with_handle}
use infini_ops.Operator.Cache.{CallState, find, replace, refresh, obtain, call}

module _ {O : Type 0} where
  find-replace :
      (cache : List (CacheKey × Op O)) (key : CacheKey) (op new : Op O)
      → find cache key ≡ some op
      → find (replace cache key new) key ≡ some new
  unfolding find replace
  find-replace [] key op new h = cc
  find-replace ((k, old) ∷ cache) key op new h = elim (Bool-cases (hit k key)) [
    | inl found ↦ rw (found, found)
    | inr other ↦ rw (other, other) (find-replace cache key op new (rw other at h))
  ]

  found_first :
      (cache : List (CacheKey × Op O)) (key : CacheKey) (op : Op O)
      → hit key key ≡ true
      → find ((key, op) ∷ cache) key ≡ some op
  unfolding find
  found_first cache key op h = rw h

module _ {S O R : Type 0} (std : StdHash S) (kernels : Kernels S O R) where
  abbrev pub key_of : Config → Tensor → List (Arg S) → CacheKey
  key_of config input args = build_key std config.implementation_index (tensor input ∷ args)

  -- `op` was made for arguments with this key; it differs from what was made by a handle at most.
  abbrev pub MadeFor : CacheKey → Op O → Type 0
  MadeFor key op =
      (config : Config) × (input : Tensor) × (args : List (Arg S)) × (made : Op O) × (key_of config
          input args
        ≡ key)
      × (make kernels config input args ≡ ok made)
      × ((h : Handle) → with_handle kernels op h ≡ with_handle kernels made h)

  -- Every entry of the cache was made for arguments with the entry's key.
  abbrev pub IsSound : List (CacheKey × Op O) → Type 0
  IsSound [] = Unit {0}
  IsSound ((k, op) ∷ cache) = MadeFor k op × IsSound cache

  refresh-IsSound : (s : CallState O) → IsSound s.cache → IsSound (refresh s).cache
  unfolding refresh
  refresh-IsSound s h = elim (Bool-cases (s.generation == s.cache_generation)) [
    | inl current ↦ rw current h
    | inr stale ↦ rw stale tt
  ]

  find-MadeFor :
      (cache : List (CacheKey × Op O)) (key : CacheKey) (op : Op O)
      → IsSound cache
      → find cache key ≡ some op
      → (k : CacheKey) × (hit k key ≡ true) × MadeFor k op
  unfolding find
  find-MadeFor [] key op s h = cc
  find-MadeFor ((k, old) ∷ cache) key op s h = elim (Bool-cases (hit k key)) [
    | inl found ↦ (k, found, subst (MadeFor k) (some-inj (rw found at h)) s.0)
    | inr other ↦ find-MadeFor cache key op s.1 (rw other at h)
  ]

  rehandle :
      {k : CacheKey} (op : Op O) (h : Handle) → MadeFor k op → MadeFor k (with_handle kernels op h)
  unfolding with_handle
  rehandle op h (config, input, args, made, e, m, w) = (config, input, args, made, e, m, w)

  replace-IsSound :
      (cache : List (CacheKey × Op O)) (key : CacheKey) (op : Op O) (h : Handle)
      → IsSound cache
      → find cache key ≡ some op
      → IsSound (replace cache key (with_handle kernels op h))
  unfolding find replace
  replace-IsSound [] key op h s e = tt
  replace-IsSound ((k, old) ∷ cache) key op h s e = elim (Bool-cases (hit k key)) [
    | inl found ↦ rw found (rehandle op h (subst (MadeFor k) (some-inj (rw found at e)) s.0), s.1)
    | inr other ↦ rw other (s.0, replace-IsSound cache key op h s.1 (rw other at e))
  ]

  obtain_found :
      (s : CallState O) (key : CacheKey) (config : Config) (input : Tensor) (args : List (Arg S))
      (op : Op O)
      → find s.cache key ≡ some op
      → obtain std kernels s key config input args ≡ ok (op, s)
  unfolding obtain
  obtain_found s key config input args op h = rw (h, obtain)

  obtain_missing :
      (s : CallState O) (key : CacheKey) (config : Config) (input : Tensor) (args : List (Arg S))
      → find s.cache key ≡ none
      → obtain std kernels s key config input args ≡ (
          make kernels config input args >>= λ op.
          ok (op, record s { cache = (key, op) ∷ s.cache }))
  unfolding obtain
  obtain_missing s key config input args h = rw (h, obtain)

  -- What a lookup or a construction gives.
  record Obtained (key : CacheKey) (op : Op O) (s : CallState O) : Type 0 where
    made_key : CacheKey
    made_hit : hit made_key key ≡ true
    made_for : MadeFor made_key op
    sound : IsSound s.cache
    found : find s.cache key ≡ some op

  obtain-Obtained :
      (s : CallState O) (config : Config) (input : Tensor) (args : List (Arg S)) (op : Op O)
      (s' : CallState O)
      → IsSound s.cache
      → obtain std kernels s (key_of config input args) config input args ≡ ok (op, s')
      → Obtained (key_of config input args) op s'
  obtain-Obtained s config input args op s' sound e =
      let key = key_of config input args in
      elim (Option-cases (find s.cache key)) [
        | inl missing ↦
            let (made, m, pair) =
              bind_ok (make kernels config input args)
                (λ op. ok (op, record s { cache = (key, op) ∷ s.cache }))
                (rw (obtain_missing s key config input args missing) at e) in
            let s1 : CallState O = record s { cache = (key, made) ∷ s.cache } in
            let made_for : MadeFor key made = (config, input, args, made, refl, m, λ h. refl) in
            let got : Obtained key made s1 = record {
              made_key = key;
              made_hit = hit_refl key;
              made_for = made_for;
              sound = (made_for, sound);
              found = found_first s.cache key made (hit_refl key);
            } in
            subst (λ (q : Op O × CallState O). Obtained key q.0 q.1) (ok-inj pair) got
        | inr (old, there) ↦
            let pair = ok-inj (rw (obtain_found s key config input args old there) at e) in
            let (k, same, for_k) = find-MadeFor s.cache key old sound there in
            let got : Obtained key old s = record {
              made_key = k;
              made_hit = same;
              made_for = for_k;
              sound = sound;
              found = there;
            } in
            subst (λ (q : Op O × CallState O). Obtained key q.0 q.1) pair got
      ]

  -- What ran in a call that ended well, and what it left.
  pub record Ran (s' : CallState O) (h : Handle) (config : Config) (input : Tensor)
      (args : List (Arg S)) (result : R) : Type 0 where
    pub op : Op O
    pub runs : kernels.run (with_handle kernels op h) (tensor input ∷ args) ≡ ok result
    pub made_key : CacheKey
    pub made_hit : hit made_key (key_of config input args) ≡ true
    pub made_for : MadeFor made_key op
    pub sound : IsSound s'.cache
    pub kept : find s'.cache (key_of config input args) ≡ some (with_handle kernels op h)

  Obtained-runs :
      (s : CallState O) (h : Handle) (config : Config) (input : Tensor) (args : List (Arg S))
      (op : Op O) (result : R)
      → Obtained (key_of config input args) op s
      → kernels.run (with_handle kernels op h) (tensor input ∷ args) ≡ ok result
      → Ran
          (record s {
            cache = replace s.cache (key_of config input args) (with_handle kernels op h);
          })
          h
          config
          input
          args
          result
  Obtained-runs s h config input args op result o runs =
      let key = key_of config input args in
      record {
        op = op;
        runs = runs;
        made_key = o.made_key;
        made_hit = o.made_hit;
        made_for = o.made_for;
        sound = replace-IsSound s.cache key op h o.sound o.found;
        kept = find-replace s.cache key op (with_handle kernels op h) o.found;
      }

  -- A call on a sound cache that ends well ran an operator that was made for arguments whose key
  -- the table takes for the key of these, with this call's handle; the cache is sound again, and
  -- holds that operator under this key.
  pub call-Ran :
      (s s' : CallState O) (h : Handle) (config : Config) (input : Tensor) (args : List (Arg S))
      (result : R)
      → IsSound s.cache
      → call std kernels s h config input args ≡ ok (result, s')
      → Ran s' h config input args result
  unfolding call
  call-Ran s s' h config input args result sound e =
      let key = key_of config input args in
      let ((op, s1), obtained, rest) =
        bind_ok (obtain std kernels (refresh s) key config input args) _ e in
      let (r, ran, final) =
        bind_ok (kernels.run (with_handle kernels op h) (tensor input ∷ args)) _ rest in
      let o =
        obtain-Obtained (refresh s) config input args op s1 (refresh-IsSound s sound) obtained in
      subst (λ (q : R × CallState O). Ran q.1 h config input args q.0) (ok-inj final)
        (Obtained-runs s1 h config input args op r o ran)
