-- ===== src/Tree/Diff/Span.antt =====
-- src/tree.rs: what `diff` carries as the change of one directory, counter by counter: while the
-- trees' sums hold, it is an exact difference, and what is taken out of it is kept elsewhere.
use storage_harvester.Base.{ℕ, ◌+◌, ◌-◌, ◌≤◌, ◌≡◌, ◌∙◌, ap, sym, arith}
use storage_harvester.Base.Int.{
  ℤ, pos, sub_ℕ, ◌+ℤ◌, saturating_add_i64, neg_i64, i64_max, eq_of_parts, +ℤ_parts, sub_ℕ_parts,
  int_laws, saturating_add_i64-sub_ℕ,
}
use storage_harvester.Tree.Tally.{Delta, plus, negate}
use storage_harvester.Tree.Diff.Counters.{
  Counter, change, change-plus, change-negate, neg_i64-sub_ℕ,
}

+ℤ-sub_ℕ : (a b x y : ℕ) → x ≤ a → y ≤ b → sub_ℕ b a +ℤ sub_ℕ x y ≡ sub_ℕ (b - y) (a - x)
+ℤ-sub_ℕ a b x y h k = eq_of_parts _ _ (
    omega (
      arith,
      +ℤ_parts (sub_ℕ b a) (sub_ℕ x y),
      sub_ℕ_parts b a,
      sub_ℕ_parts x y,
      sub_ℕ_parts (b - y) (a - x),
    ))

-- What `here` comes to, less a change from `x` to `y` counted elsewhere.
sub_step :
    (a b x y : ℕ)
    → a ≤ i64_max
    → b ≤ i64_max
    → x ≤ a
    → y ≤ b
    → saturating_add_i64 (sub_ℕ b a) (neg_i64 (sub_ℕ y x)) ≡ sub_ℕ (b - y) (a - x)
sub_step a b x y h k l m =
    rw (neg_i64-sub_ℕ y x (omega arith) (omega arith))
      (saturating_add_i64-sub_ℕ _ _ _ _ (omega arith) (omega arith) (+ℤ-sub_ℕ a b x y l m))

-- What the change comes to, with what was counted elsewhere put back.
back_step : (a b x y : ℕ) → x ≤ a → y ≤ b → sub_ℕ (b - y) (a - x) +ℤ sub_ℕ y x ≡ sub_ℕ b a
back_step a b x y h k = eq_of_parts _ _ (
    omega (
      arith,
      +ℤ_parts (sub_ℕ (b - y) (a - x)) (sub_ℕ y x),
      sub_ℕ_parts b a,
      sub_ℕ_parts y x,
      sub_ℕ_parts (b - y) (a - x),
    ))

-- `here.plus(d.negate())`, counter by counter.
change-less :
    (c : Counter) (h d : Delta) (a b x y : ℕ)
    → change c h ≡ sub_ℕ b a
    → change c d ≡ sub_ℕ y x
    → a ≤ i64_max
    → b ≤ i64_max
    → x ≤ a
    → y ≤ b
    → change c (plus h (negate d)) ≡ sub_ℕ (b - y) (a - x)
change-less c h d a b x y eh ed ha hb hx hy =
    change-plus c h (negate d)
    ∙ (ap (saturating_add_i64 (change c h)) (change-negate c d ∙ ap neg_i64 ed)
        ∙ (ap (λ t. saturating_add_i64 t (neg_i64 (sub_ℕ y x))) eh ∙ sub_step a b x y ha hb hx hy))

-- The change stands between two amounts, which hold at least what the children left hold.
pub record Span (c : Counter) (h : Delta) (lefts rights : ℕ) : Type 0 where
  pub left : ℕ
  pub right : ℕ
  pub here : change c h ≡ sub_ℕ right left
  pub left_fits : left ≤ i64_max
  pub right_fits : right ≤ i64_max
  pub left_holds : lefts ≤ left
  pub right_holds : rights ≤ right

-- A child's change, from `x` to `y`, taken out.
module _ (c : Counter) (h d : Delta) {l r : ℕ} (l' r' y x : ℕ) (s : Span c h l r)
    (amount : change c d ≡ sub_ℕ y x) (lx : x + l' ≤ l) (ry : y + r' ≤ r) where
  less : change c (plus h (negate d)) ≡ sub_ℕ (s.right - y) (s.left - x)
  less =
      change-less c h d s.left s.right x y s.here amount s.left_fits s.right_fits
        (omega (arith, s.left_holds)) (omega (arith, s.right_holds))

  pub Span-less : Span c (plus h (negate d)) l' r'
  Span-less = record {
    left = s.left - x;
    right = s.right - y;
    here = less;
    left_fits = omega (arith, s.left_fits);
    right_fits = omega (arith, s.right_fits);
    left_holds = omega (arith, s.left_holds);
    right_holds = omega (arith, s.right_holds);
  }

  pub Span-back : change c (plus h (negate d)) +ℤ change c d ≡ change c h
  Span-back =
      rw (less, amount, s.here)
        (back_step s.left s.right x y (omega (arith, s.left_holds)) (omega (arith, s.right_holds)))

-- A change moved from `here` to the output or to the stack keeps the sum.
pub moved_out : (h h' t p d : ℤ) → h' +ℤ d ≡ h → h' +ℤ ((t +ℤ d) +ℤ p) ≡ h +ℤ (t +ℤ p)
moved_out h h' t p d e = rw (← e) (omega int_laws)

pub moved_down : (h h' t p d : ℤ) → h' +ℤ d ≡ h → h' +ℤ (t +ℤ (d +ℤ p)) ≡ h +ℤ (t +ℤ p)
moved_down h h' t p d e = rw (← e) (omega int_laws)

-- What is left of `here` at the end of a round goes to the output, unless it is nothing.
pub settled_out :
    (z h t p t0 p0 : ℤ) → z +ℤ (t +ℤ p) ≡ h +ℤ (t0 +ℤ p0) → (t +ℤ z) +ℤ p ≡ t0 +ℤ (h +ℤ p0)
settled_out z h t p t0 p0 e =
    let regroup : (t +ℤ z) +ℤ p ≡ z +ℤ (t +ℤ p) = omega int_laws in
    let back : h +ℤ (t0 +ℤ p0) ≡ t0 +ℤ (h +ℤ p0) = omega int_laws in regroup ∙ (e ∙ back)

pub settled_zero :
    (z h t p t0 p0 : ℤ) → z +ℤ (t +ℤ p) ≡ h +ℤ (t0 +ℤ p0) → z ≡ pos 0 → t +ℤ p ≡ t0 +ℤ (h +ℤ p0)
settled_zero z h t p t0 p0 e nothing =
    let drop : t +ℤ p ≡ (t +ℤ pos 0) +ℤ p = omega int_laws in
    drop ∙ (ap (λ y. (t +ℤ y) +ℤ p) (sym nothing) ∙ settled_out z h t p t0 p0 e)
