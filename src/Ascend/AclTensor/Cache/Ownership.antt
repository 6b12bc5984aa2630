-- ===== src/Ascend/AclTensor/Cache/Ownership.antt =====
-- Each descriptor has one owner.
use infini_ops.Prelude.{
  ℕ_discrete, ℕ, ◌≡◌, ◌≢◌, refl, ap, sym, ◌∙◌, subst, ◌==◌, ==_iff, if◌then◌else◌, Bool, true,
  false, ok, arith,
}
use infini_ops.Ascend.AclTensor.{TensorMeta}
use infini_ops.Ascend.AclTensor.Cache.{AclTensors, Objects}

-- What the runtime documents: a new descriptor is none of those that are there, a descriptor that is
-- there can be given another address and be destroyed, and no call affects the other descriptors.
pub record IsDocumented {W : Type 0} (acl : AclTensors W) (live : W → ℕ → Bool) : Type 0 where
  pub creates_new :
      (w : W) (m : TensorMeta) (a : ℕ)
      → (acl.create_tensor w m a).0 ≢ 0
      → live w (acl.create_tensor w m a).0 ≡ false
  pub creates :
      (w : W) (m : TensorMeta) (a : ℕ)
      → (acl.create_tensor w m a).0 ≢ 0
      → live (acl.create_tensor w m a).1 (acl.create_tensor w m a).0 ≡ true
  pub create_keeps :
      (w : W) (m : TensorMeta) (a d : ℕ)
      → live w d ≡ true
      → live (acl.create_tensor w m a).1 d ≡ true
  pub sets :
      (w : W) (t a : ℕ)
      → live w t ≡ true
      → (w' : W) × (acl.set_raw_tensor_addr w t a ≡ ok w')
        × ((d : ℕ) → live w d ≡ true → live w' d ≡ true)
  pub destroys :
      (w : W) (t : ℕ)
      → live w t ≡ true
      → (w' : W) × (acl.destroy_tensor w t ≡ ok w')
        × ((d : ℕ) → d ≢ t → live w d ≡ true → live w' d ≡ true)

-- The descriptors that are held are there, and no two objects hold the same.
pub record Held (tensors : ℕ → ℕ) (alive : ℕ → Bool) : Type 0 where
  pub there : (i : ℕ) → tensors i ≢ 0 → alive (tensors i) ≡ true
  pub apart : (i j : ℕ) → tensors i ≢ 0 → tensors i ≡ tensors j → i ≡ j

abbrev pub tensors_of : {W : Type 0} → Objects W → ℕ → ℕ
tensors_of s i = (s.caches i).tensor

module _ (t t' : ℕ → ℕ) (alive alive' : ℕ → Bool) (i : ℕ) (h : Held t alive)
    (rest : (j : ℕ) → j ≢ i → t' j ≡ t j) where
  nonzero : (j : ℕ) → j ≢ i → t' j ≢ 0 → t j ≢ 0
  nonzero j n nz e = nz (rest j n ∙ e)

  apart_others : (j k : ℕ) → j ≢ i → k ≢ i → t' j ≢ 0 → t' j ≡ t' k → j ≡ k
  apart_others j k n m nz e = h.apart j k (nonzero j n nz) (sym (rest j n) ∙ e ∙ rest k m)

  pub Held-drop : t' i ≡ 0 → ((d : ℕ) → d ≢ t i → alive d ≡ true → alive' d ≡ true) → Held t' alive'
  Held-drop gone keeps = record {
    there = λ j nz. elim (ℕ_discrete j i) [
      | yes e ↦ absurd (nz (ap t' e ∙ gone))
      | no n ↦
          let nz' = nonzero j n nz in
          subst (λ d. alive' d ≡ true) (sym (rest j n))
            (keeps (t j) (λ e. n (h.apart j i nz' e)) (h.there j nz'))
    ];
    apart = λ j k nz e. elim (ℕ_discrete j i) [
      | yes q ↦ absurd (nz (ap t' q ∙ gone))
      | no n ↦ elim (ℕ_discrete k i) [
        | yes q ↦ absurd (nz (e ∙ ap t' q ∙ gone))
        | no m ↦ apart_others j k n m nz e
      ]
    ];
  }

  pub Held-put :
      (t' i ≢ 0 → alive (t' i) ≡ false)
      → (t' i ≢ 0 → alive' (t' i) ≡ true)
      → ((d : ℕ) → alive d ≡ true → alive' d ≡ true)
      → Held t' alive'
  Held-put new made keeps =
      let fresh : (j : ℕ) → j ≢ i → t' j ≢ 0 → t' j ≡ t' i → ⊥ = λ j n nz e.
        let was : alive (t j) ≡ true = h.there j (nonzero j n nz) in
        let is_not : alive (t' i) ≡ false = new (λ z. nz (e ∙ z)) in
        let same : t j ≡ t' i = sym (rest j n) ∙ e in
        let both : true ≡ false = sym was ∙ ap alive same ∙ is_not in cc in
      record {
        there = λ j nz. elim (ℕ_discrete j i) [
          | yes e ↦ subst (λ d. alive' (t' d) ≡ true) (sym e) (made (λ z. nz (ap t' e ∙ z)))
          | no n ↦
              subst (λ d. alive' d ≡ true) (sym (rest j n))
                (keeps (t j) (h.there j (nonzero j n nz)))
        ];
        apart = λ j k nz e. elim (ℕ_discrete j i) [
          | yes q ↦ elim (ℕ_discrete k i) [
            | yes r ↦ q ∙ sym r
            | no m ↦ absurd (fresh k m (λ z. nz (e ∙ z)) (sym e ∙ ap t' q))
          ]
          | no n ↦ elim (ℕ_discrete k i) [
            | yes r ↦ absurd (fresh j n nz (e ∙ ap t' r))
            | no m ↦ apart_others j k n m nz e
          ]
        ];
      }

-- The object `i`, which holds none, takes over from `o`: a permutation of the two.
pub Held-move :
    (t t' : ℕ → ℕ) (alive : ℕ → Bool) (i o : ℕ)
    → Held t alive
    → t i ≡ 0
    → t' o ≡ 0
    → t' i ≡ t o
    → ((j : ℕ) → j ≢ i → j ≢ o → t' j ≡ t j)
    → Held t' alive
Held-move t t' alive i o h empty gone moved rest =
    let source : ℕ → ℕ = λ j. if j == i then o else j in
    let from : (j : ℕ) → t' j ≢ 0 → t' j ≡ t (source j) = λ j nz. elim (ℕ_discrete j i) [
      | yes e ↦ ap t' e ∙ moved ∙ ap t (sym (rw ((==_iff j i).1 e) refl))
      | no n ↦ elim (ℕ_discrete j o) [
        | yes e ↦ absurd (nz (ap t' e ∙ gone))
        | no m ↦
            (let off : (j == i) ≡ false = ground arith in rest j n m ∙ ap t (sym (rw off refl)))
      ]
    ] in
    record {
      there = λ j nz.
          subst (λ d. alive d ≡ true) (sym (from j nz))
            (h.there (source j) (λ z. nz (from j nz ∙ z)));
      apart = λ j k nz e.
          let nz' : t' k ≢ 0 = λ z. nz (e ∙ z) in
          let same : source j ≡ source k =
            h.apart (source j) (source k) (λ z. nz (from j nz ∙ z))
              (sym (from j nz) ∙ e ∙ from k nz') in
          let not_o : (l : ℕ) → t' l ≢ 0 → l ≢ o = λ l n q. n (ap t' q ∙ gone) in
          let j_not = not_o j nz in let k_not = not_o k nz' in ground arith;
    }
