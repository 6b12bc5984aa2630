-- ===== src/Cpu/Cat/Tiles.antt =====
-- The copies of a concatenation cover the output, one after the other.
use native.Mathlib.Nat.{add-mul}
use infini_ops.Prelude.{
  ℕ, zero, suc, ◌+◌, ◌*◌, ◌%◌, ◌^◌, ◌<◌, ◌≤◌, ◌≡◌, ap, sym, ◌∙◌, subst, List, [], ◌∷◌, ◌++◌, add64,
  mul64, arith,
}
use infini_ops.Cpu.Cat.{Copy, copy_slices, copy_rows}

-- The copies write the bytes from `from` to `to`, each where the one before it ended.
abbrev pub Tiles : ℕ → List Copy → ℕ → Type 0
Tiles from [] to = from ≡ to
Tiles from (c ∷ cs) to = (c.dst_offset ≡ from) × Tiles (from + c.copy_size) cs to

abbrev pub total : List ℕ → ℕ
total [] = 0
total (x ∷ xs) = x + total xs

Tiles-append : (cs ds : List Copy) (a b c : ℕ) → Tiles a cs b → Tiles b ds c → Tiles a (cs ++ ds) c
Tiles-append [] ds a b c h k = subst (λ x. Tiles x ds c) (sym h) k
Tiles-append (x ∷ cs) ds a b c h k = (h.0, Tiles-append cs ds (a + x.copy_size) b c h.1 k)

small : (n : ℕ) → n < 2 ^ 64 → n % 2 ^ 64 ≡ n
small n h = omega arith

factor_le : (x k : ℕ) → 0 < k → x ≤ x * k
factor_le x zero h = elim h [ ]
factor_le x (suc k) h = omega arith

module _ (inner elem_size : ℕ) (pos : 0 < inner) (pos' : 0 < elem_size) where
  -- Without wrap-around the size in bytes of `n` slices.
  bytes :
      (n : ℕ)
      → n * inner * elem_size < 2 ^ 64
      → mul64 (mul64 n inner) elem_size ≡ n * inner * elem_size
  bytes n h =
      let inner_le = factor_le (n * inner) elem_size pos' in
      let fits : mul64 n inner ≡ n * inner = small (n * inner) (omega (arith, inner_le)) in
      ap (λ x. mul64 x elem_size) fits ∙ small (n * inner * elem_size) h

  count_le : (n : ℕ) → n ≤ n * inner * elem_size
  count_le n = omega (arith, factor_le n inner pos, factor_le (n * inner) elem_size pos')

  -- The size in bytes is additive.
  bytes_add :
      (a b : ℕ) → (a + b) * inner * elem_size ≡ a * inner * elem_size + b * inner * elem_size
  bytes_add a b =
      ap (λ x. x * elem_size) (add-mul a b inner) ∙ add-mul (a * inner) (b * inner) elem_size

  module _ (out_dim_size : ℕ) where
    slices-Tiles :
        (o offset t : ℕ) (in_dims : List ℕ)
        → (o * out_dim_size + offset + total in_dims) * inner * elem_size < 2 ^ 64
        → Tiles
            ((o * out_dim_size + offset) * inner * elem_size)
            (copy_slices out_dim_size inner elem_size o offset t in_dims)
            ((o * out_dim_size + offset + total in_dims) * inner * elem_size)
    unfolding copy_slices
    slices-Tiles o offset t [] h =
        ap (λ x. x * inner * elem_size) {y = o * out_dim_size + offset + 0} (omega arith)
    slices-Tiles o offset t (in_dim ∷ in_dims) h =
        let start : ℕ = o * out_dim_size + offset in
        let all_le = count_le (start + total (in_dim ∷ in_dims)) in
        let row : mul64 o out_dim_size ≡ o * out_dim_size =
          small (o * out_dim_size) (omega (arith, all_le, h)) in
        let from : add64 (mul64 o out_dim_size) offset ≡ start =
          ap (λ x. add64 x offset) row ∙ small start (omega (arith, all_le, h)) in
        let next : add64 offset in_dim ≡ offset + in_dim =
          small (offset + in_dim) (omega (arith, all_le, h)) in
        let split = bytes_add start (in_dim + total in_dims) in
        let split' = bytes_add in_dim (total in_dims) in
        let dst : mul64 (mul64 (add64 (mul64 o out_dim_size) offset) inner) elem_size
            ≡ start * inner * elem_size =
          ap (λ x. mul64 (mul64 x inner) elem_size) from ∙ bytes start (omega (arith, split, h)) in
        let size : mul64 (mul64 in_dim inner) elem_size ≡ in_dim * inner * elem_size =
          bytes in_dim (omega (arith, split, split', h)) in
        let after : (o * out_dim_size + (offset + in_dim)) * inner * elem_size
            ≡ start * inner * elem_size + mul64 (mul64 in_dim inner) elem_size =
          ap (λ x. x * inner * elem_size) {y = start + in_dim} (omega arith)
          ∙ bytes_add start in_dim
          ∙ ap (λ x. start * inner * elem_size + x) (sym size) in
        let same_end : o * out_dim_size + (offset + in_dim) + total in_dims
            ≡ start + (in_dim + total in_dims) =
          omega arith in
        let rest =
          slices-Tiles o (offset + in_dim) (suc t) in_dims
            (subst (λ x. x * inner * elem_size < 2 ^ 64) (sym same_end) h) in
        (
          dst,
          subst
              (λ x.
                Tiles x
                  (copy_slices out_dim_size inner elem_size o (add64 offset in_dim) (suc t) in_dims)
                  ((start + (in_dim + total in_dims)) * inner * elem_size))
              after
              (subst
                (λ x.
                  Tiles ((o * out_dim_size + (offset + in_dim)) * inner * elem_size)
                    (copy_slices out_dim_size inner elem_size o (add64 offset in_dim) (suc t)
                      in_dims)
                    (x * inner * elem_size))
                same_end
                (subst
                  (λ x.
                    Tiles ((o * out_dim_size + (offset + in_dim)) * inner * elem_size)
                      (copy_slices out_dim_size inner elem_size o x (suc t) in_dims)
                      ((o * out_dim_size + (offset + in_dim) + total in_dims) * inner * elem_size))
                  (sym next) rest)),
        )

    rows-Tiles :
        (rounds o : ℕ) (in_dims : List ℕ)
        → total in_dims ≡ out_dim_size
        → (o + rounds) * out_dim_size * inner * elem_size < 2 ^ 64
        → Tiles
            (o * out_dim_size * inner * elem_size)
            (copy_rows out_dim_size inner elem_size rounds o in_dims)
            ((o + rounds) * out_dim_size * inner * elem_size)
    unfolding copy_rows
    rows-Tiles zero o in_dims whole h =
        ap (λ x. x * out_dim_size * inner * elem_size) {x = o} {y = o + 0} (omega arith)
    rows-Tiles (suc rounds) o in_dims whole h =
        let row_end : o * out_dim_size + 0 + total in_dims ≡ suc o * out_dim_size =
          omega (arith, whole, add-mul o 1 out_dim_size) in
        let ends : (suc o + rounds) * out_dim_size ≡ suc o * out_dim_size + rounds * out_dim_size =
          add-mul (suc o) rounds out_dim_size in
        let shift : o + suc rounds ≡ suc o + rounds = omega arith in
        let h' : (suc o + rounds) * out_dim_size * inner * elem_size < 2 ^ 64 =
          subst (λ x. x * out_dim_size * inner * elem_size < 2 ^ 64) shift h in
        let parts : (suc o + rounds) * out_dim_size * inner * elem_size
            ≡ suc o * out_dim_size * inner * elem_size + rounds * out_dim_size * inner * elem_size =
          ap (λ x. x * inner * elem_size) ends
          ∙ bytes_add (suc o * out_dim_size) (rounds * out_dim_size) in
        let row_fits : (o * out_dim_size + 0 + total in_dims) * inner * elem_size < 2 ^ 64 =
          subst (λ x. x * inner * elem_size < 2 ^ 64) (sym row_end) (omega (arith, parts, h')) in
        let first = slices-Tiles o 0 0 in_dims row_fits in
        let row : List Copy = copy_slices out_dim_size inner elem_size o 0 0 in_dims in
        let from : o * out_dim_size + 0 ≡ o * out_dim_size = omega arith in
        Tiles-append row (copy_rows out_dim_size inner elem_size rounds (suc o) in_dims)
          (o * out_dim_size * inner * elem_size) (suc o * out_dim_size * inner * elem_size)
          ((o + suc rounds) * out_dim_size * inner * elem_size)
          (subst (λ x. Tiles (x * inner * elem_size) row (suc o * out_dim_size * inner * elem_size))
            from
            (subst
              (λ x. Tiles ((o * out_dim_size + 0) * inner * elem_size) row (x * inner * elem_size))
              row_end first))
          (subst
            (λ x.
              Tiles (suc o * out_dim_size * inner * elem_size)
                (copy_rows out_dim_size inner elem_size rounds (suc o) in_dims)
                (x * out_dim_size * inner * elem_size))
            (sym shift) (rows-Tiles rounds (suc o) in_dims whole h'))

zero_rows : (a b c : ℕ) → 0 * a * b * c ≡ 0
zero_rows a b c =
    ap (λ x. x * b * c) {x = 0 * a} {y = 0} (omega arith)
    ∙ ap (λ x. x * c) {x = 0 * b} {y = 0} (omega arith)
    ∙ omega arith

-- The copies of a concatenation write the bytes of the output from the first to the last, each byte
-- once: where the inputs' sizes in the concatenated dimension add up to the output's, slices and
-- elements are not empty, and the output has fewer than 2 ^ 64 bytes, every copy starts where the one
-- before it ended, the first at 0 and the last ending at the output's size.
pub copy_rows-Tiles :
    (outer out_dim_size inner elem_size : ℕ) (in_dims : List ℕ)
    → 0 < inner
    → 0 < elem_size
    → total in_dims ≡ out_dim_size
    → outer * out_dim_size * inner * elem_size < 2 ^ 64
    → Tiles 0
        (copy_rows out_dim_size inner elem_size outer 0 in_dims)
        (outer * out_dim_size * inner * elem_size)
copy_rows-Tiles outer out_dim_size inner elem_size in_dims pos pos' whole h =
    let zeros : 0 * out_dim_size * inner * elem_size ≡ 0 = zero_rows out_dim_size inner elem_size in
    let starts : 0 + outer ≡ outer = omega arith in
    subst
      (λ x.
        Tiles x (copy_rows out_dim_size inner elem_size outer 0 in_dims)
          (outer * out_dim_size * inner * elem_size))
      zeros
      (subst
        (λ x.
          Tiles (0 * out_dim_size * inner * elem_size)
            (copy_rows out_dim_size inner elem_size outer 0 in_dims)
            (x * out_dim_size * inner * elem_size))
        starts
        (rows-Tiles inner elem_size pos pos' out_dim_size outer 0 in_dims whole
          (subst (λ x. x * out_dim_size * inner * elem_size < 2 ^ 64) (sym starts) h)))
