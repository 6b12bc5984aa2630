-- ===== src/Operator/KeyLaws.antt =====
-- Which arguments have the same cache key.
use infini_ops.Prelude.{
  ℕ, suc, ◌≡◌, refl, ap, ap₂, sym, ◌&&◌, Bool, true, List, [], ◌∷◌, ◌++◌, ◌==◌, length, arith,
}
use infini_ops.Prelude.Equality.{list_same_refl, list_same_sound, nat_eq}
use infini_ops.Device.{device_code-injective}
use infini_ops.DataType.{data_type_code-injective}
use infini_ops.Tensor.{Tensor, same_tensor, strided}
use infini_ops.Operator.Key.{
  StdHash, Arg, tensor, tensors, scalar, CacheKey, all_same, same_key, hash_tensor, absorb_tensor,
  absorb_each, absorb, absorb_all, build_key, hash_combine,
}

-- The hash table's test: equal hashes, and equal keys.
abbrev pub hit : CacheKey → CacheKey → Bool
hit k key = (k.hash == key.hash) && same_key k key

same_tensor_refl : (t : Tensor) → same_tensor t t ≡ true
unfolding same_tensor
same_tensor_refl t = rw (list_same_refl t.shape, list_same_refl t.strides) (ground arith)

all_same_refl : (ts : List Tensor) → all_same ts ts ≡ true
unfolding all_same
all_same_refl [] = refl
all_same_refl (t ∷ ts) = rw (same_tensor_refl t) (all_same_refl ts)

pub hit_refl : (key : CacheKey) → hit key key ≡ true
unfolding same_key
hit_refl key = rw (all_same_refl key.held) (ground arith)

-- Two tensors that compare equal differ in their data only.
same_tensor-strided :
    (a b : Tensor) → same_tensor a b ≡ true → b ≡ strided b.data_ a.shape a.dtype a.device a.strides
unfolding same_tensor
same_tensor-strided a b h =
    let shapes : a.shape ≡ b.shape = list_same_sound a.shape b.shape (ground arith) in
    let steps : a.strides ≡ b.strides = list_same_sound a.strides b.strides (ground arith) in
    let types : a.dtype ≡ b.dtype = data_type_code-injective a.dtype b.dtype (ground arith) in
    let kinds : a.device.type ≡ b.device.type =
      device_code-injective a.device.type b.device.type (ground arith) in
    let indices : a.device.index ≡ b.device.index = ground arith in
    sym (λ i.
      strided b.data_ (shapes i) (types i) (record { type = kinds i; index = indices i }) (steps i))

module _ {S : Type 0} (std : StdHash S) where
  hash_tensor-same : (a b : Tensor) → same_tensor a b ≡ true → hash_tensor std a ≡ hash_tensor std b
  unfolding hash_tensor
  hash_tensor-same a b h = sym (ap (hash_tensor std) (same_tensor-strided a b h))

  abbrev pub SameTensors : List Tensor → List Tensor → Type 0
  SameTensors [] [] = Unit {0}
  SameTensors (a ∷ as') (b ∷ bs) = (same_tensor a b ≡ true) × SameTensors as' bs
  SameTensors _ _ = ⊥

  -- The same kinds of arguments with equal scalars, and tensors that may differ in their data.
  abbrev pub SameArgs : List (Arg S) → List (Arg S) → Type 0
  SameArgs [] [] = Unit {0}
  SameArgs (tensor a ∷ xs) (tensor b ∷ ys) = (same_tensor a b ≡ true) × SameArgs xs ys
  SameArgs (tensors as' ∷ xs) (tensors bs ∷ ys) = SameTensors as' bs × SameArgs xs ys
  SameArgs (scalar v ∷ xs) (scalar w ∷ ys) = (v ≡ w) × SameArgs xs ys
  SameArgs _ _ = ⊥

  record Near (k l : CacheKey) : Type 0 where
    hashes : k.hash ≡ l.hash
    scalars : k.scalar_hash ≡ l.scalar_hash
    helds : SameTensors k.held l.held

  SameTensors-snoc :
      (xs ys : List Tensor) (a b : Tensor)
      → SameTensors xs ys
      → same_tensor a b ≡ true
      → SameTensors (xs ++ a ∷ []) (ys ++ b ∷ [])
  SameTensors-snoc [] [] a b h e = (e, tt)
  SameTensors-snoc [] (y ∷ ys) a b h e = elim h [ ]
  SameTensors-snoc (x ∷ xs) [] a b h e = elim h [ ]
  SameTensors-snoc (x ∷ xs) (y ∷ ys) a b h e = (h.0, SameTensors-snoc xs ys a b h.1 e)

  absorb_tensor-Near :
      (k l : CacheKey) (a b : Tensor)
      → Near k l
      → same_tensor a b ≡ true
      → Near (absorb_tensor std k a) (absorb_tensor std l b)
  unfolding absorb_tensor
  absorb_tensor-Near k l a b n h = record {
    hashes = ap₂ hash_combine n.hashes (hash_tensor-same a b h);
    scalars = n.scalars;
    helds = SameTensors-snoc k.held l.held a b n.helds h;
  }

  absorb_each-Near :
      (k l : CacheKey) (xs ys : List Tensor)
      → Near k l
      → SameTensors xs ys
      → Near (absorb_each std k xs) (absorb_each std l ys)
  unfolding absorb_each
  absorb_each-Near k l [] [] n h = n
  absorb_each-Near k l [] (y ∷ ys) n h = elim h [ ]
  absorb_each-Near k l (x ∷ xs) [] n h = elim h [ ]
  absorb_each-Near k l (x ∷ xs) (y ∷ ys) n h =
      absorb_each-Near (absorb_tensor std k x) (absorb_tensor std l y) xs ys
        (absorb_tensor-Near k l x y n h.0) h.1

  SameTensors-length : (xs ys : List Tensor) → SameTensors xs ys → length xs ≡ length ys
  SameTensors-length [] [] h = refl
  SameTensors-length [] (y ∷ ys) h = elim h [ ]
  SameTensors-length (x ∷ xs) [] h = elim h [ ]
  SameTensors-length (x ∷ xs) (y ∷ ys) h = ap suc (SameTensors-length xs ys h.1)

  SameTensors-all_same : (xs ys : List Tensor) → SameTensors xs ys → all_same xs ys ≡ true
  unfolding all_same
  SameTensors-all_same [] [] h = refl
  SameTensors-all_same [] (y ∷ ys) h = elim h [ ]
  SameTensors-all_same (x ∷ xs) [] h = elim h [ ]
  SameTensors-all_same (x ∷ xs) (y ∷ ys) h = rw h.0 (SameTensors-all_same xs ys h.1)

  absorb_all-Near :
      (k l : CacheKey) (xs ys : List (Arg S))
      → Near k l
      → SameArgs xs ys
      → Near (absorb_all std k xs) (absorb_all std l ys)
  unfolding absorb_all absorb
  absorb_all-Near k l [] [] n h = n
  absorb_all-Near k l (tensor a ∷ xs) (tensor b ∷ ys) n h =
      absorb_all-Near (absorb std k (tensor a)) (absorb std l (tensor b)) xs ys
        (absorb_tensor-Near k l a b n h.0) h.1
  absorb_all-Near k l (tensors ts ∷ xs) (tensors us ∷ ys) n h =
      absorb_all-Near (absorb std k (tensors ts)) (absorb std l (tensors us)) xs ys
        (absorb_each-Near _ _ ts us
          (record {
            hashes = λ i. hash_combine (n.hashes i) (std.of_size (SameTensors-length ts us h.0 i));
            scalars = n.scalars;
            helds = n.helds;
          })
          h.0)
        h.1
  absorb_all-Near k l (scalar v ∷ xs) (scalar w ∷ ys) n h =
      absorb_all-Near (absorb std k (scalar v)) (absorb std l (scalar w)) xs ys
        (record {
          hashes = λ i. hash_combine (n.hashes i) (std.of_scalar (h.0 i));
          scalars = λ i. hash_combine (n.scalars i) (std.of_scalar (h.0 i));
          helds = n.helds;
        })
        h.1
  absorb_all-Near k l [] (y ∷ ys) n h = elim h [ ]
  absorb_all-Near k l (tensor a ∷ xs) [] n h = elim h [ ]
  absorb_all-Near k l (tensor a ∷ xs) (tensors us ∷ ys) n h = elim h [ ]
  absorb_all-Near k l (tensor a ∷ xs) (scalar w ∷ ys) n h = elim h [ ]
  absorb_all-Near k l (tensors ts ∷ xs) [] n h = elim h [ ]
  absorb_all-Near k l (tensors ts ∷ xs) (tensor b ∷ ys) n h = elim h [ ]
  absorb_all-Near k l (tensors ts ∷ xs) (scalar w ∷ ys) n h = elim h [ ]
  absorb_all-Near k l (scalar v ∷ xs) [] n h = elim h [ ]
  absorb_all-Near k l (scalar v ∷ xs) (tensor b ∷ ys) n h = elim h [ ]
  absorb_all-Near k l (scalar v ∷ xs) (tensors us ∷ ys) n h = elim h [ ]

  Near-hit : (k l : CacheKey) → Near k l → hit k l ≡ true
  unfolding same_key
  Near-hit k l n =
      let hashes : k.hash ≡ l.hash = n.hashes in
      let scalars : k.scalar_hash ≡ l.scalar_hash = n.scalars in
      let same : all_same k.held l.held ≡ true = SameTensors-all_same k.held l.held n.helds in
      let lengths : length k.held ≡ length l.held = SameTensors-length k.held l.held n.helds in
      rw (hashes, scalars, lengths, same) (ground arith)

  -- Arguments of the same kinds, with equal scalars and with tensors that differ in their data at
  -- most, have keys that the table takes for one another.
  pub build_key-hit :
      (index : ℕ) (xs ys : List (Arg S))
      → SameArgs xs ys
      → hit (build_key std index xs) (build_key std index ys) ≡ true
  unfolding build_key
  build_key-hit index xs ys h =
      let start : CacheKey = record {
        hash = hash_combine 0 (std.of_size index);
        held = [];
        scalar_hash = hash_combine 0 (std.of_size index);
      } in
      Near-hit (absorb_all std start xs) (absorb_all std start ys)
        (absorb_all-Near start start xs ys (record { hashes = refl; scalars = refl; helds = tt }) h)
