-- ===== src/Base/FlashAttention/Windows.antt =====
-- How `FlashAttention` resolves the two forms of a window.
use infini_ops.Prelude.{
  ℕ, ◌≡◌, refl, sym, ◌||◌, Bool, true, false, some, ok, assert, sub64, ◌==◌, ==_iff, ok-inj,
}
use infini_ops.Base.Checks.{from_end}
use infini_ops.Base.Checks.Laws.{then_ok}
use infini_ops.Base.FlashAttention.{resolve_window_left, resolve_window_right}

or_right : (a b : Bool) → b ≡ true → (a || b) ≡ true
or_right true b h = refl
or_right false b h = h

-- Where a sliding window is given and the explicit window agrees with it, the resolved window is the
-- causal one of `sliding_window - 1` tokens to the left; the disabled window (-1, -1) resolves to the
-- same, and so does the resolved window itself.
pub resolve_windows :
    (left right sliding l r : ℕ)
    → resolve_window_left left (some sliding) ≡ ok l
    → resolve_window_right right (some sliding) ≡ ok r
    → (l ≡ sub64 sliding 1)
      × (r ≡ 0)
      × (resolve_window_left (from_end 1) (some sliding) ≡ ok l)
      × (resolve_window_right (from_end 1) (some sliding) ≡ ok r)
      × (resolve_window_left l (some sliding) ≡ ok l)
      × (resolve_window_right r (some sliding) ≡ ok r)
unfolding resolve_window_left resolve_window_right
resolve_windows left right sliding l r hl hr =
    let derived : ℕ = sub64 sliding 1 in
    let (a, is_l) = then_ok (assert ((left == from_end 1) || (left == derived))) hl in
    let (b, is_r) = then_ok (assert ((right == from_end 1) || (right == 0))) hr in
    let l_is : derived ≡ l = ok-inj is_l in
    let r_is : 0 ≡ r = ok-inj is_r in
    let again : (l == derived) ≡ true = (==_iff l derived).1 (sym l_is) in
    let again' : (r == 0) ≡ true = (==_iff r 0).1 (sym r_is) in
    (
      sym l_is,
      sym r_is,
      is_l,
      is_r,
      rw (or_right (l == from_end 1) (l == derived) again) is_l,
      rw (or_right (r == from_end 1) (r == 0) again') is_r,
    )
