-- ===== src/Image/Islands/Symmetry.antt =====
-- Utilities/Types.hpp, `getNeighbours`: a pixel is a neighbour of its neighbours.
use native.Mathlib.Nat.{
  mod-lt, mod-eq_of_lt, mod-add-div', div-eq_of_lt, div-lt_iff_lt-mul, mul-add-div_right,
  mul-add-mod_self_right,
}
use abstraction_layer.Prelude.{
  ℕ, ◌+◌, ◌-◌, ◌*◌, ◌/◌, ◌%◌, ◌<◌, ◌≤◌, ◌≡◌, ◌≢◌, ◌⊎◌, sym, ap, ap₂, ◌∙◌, subst, inl, inr, arith,
  min, u32, inc32, Bool-cases, ◌==◌, ==_iff, ltb, if◌then◌else◌,
}
use abstraction_layer.Image.{Area, Coordinate, xy_to_flat_index, flat_index_to_xy, get_neighbours}
use abstraction_layer.Image.Bounds.{IsArea, sides_le, xy_to_flat_index_lem}
use abstraction_layer.Image.Filters.Loops.{Among}

abbrev Close : ℕ → ℕ → Type 0
Close x y = (x ≤ y + 1) × (y ≤ x + 1)

abbrev left_of : ℕ → ℕ
left_of x = if x == 0 then 0 else x - 1

left_Close : (x m : ℕ) → x < m → Close x (min (left_of x) (m - 1))
left_Close x m h = elim (Bool-cases (x == 0)) [
  | inl e ↦ rw e (ground (arith, e))
  | inr e ↦ rw e (omega (arith, h))
]

self_Close : (x m : ℕ) → x < m → Close x (min x (m - 1))
self_Close x m h = omega arith

right_Close : (x m : ℕ) → x < m → m < u32 → Close x (min (inc32 x) (m - 1))
right_Close x m h k = omega arith

sides : (x y m : ℕ) → Close x y → y < m → m < u32 → (y ≡ left_of x) ⊎ (y ≡ x) ⊎ (y ≡ inc32 x)
sides x y m h below k = elim (Bool-cases (y == x)) [
  | inl e ↦ inr (inl ((==_iff y x).0 e))
  | inr e ↦ elim (Bool-cases (ltb y x)) [
    | inl f ↦ inl (ground (arith, f))
    | inr f ↦ inr (inr (ground (arith, e, f, h, k)))
  ]
]

module _ (a : Area) (v : IsArea a) where
  sides_fit : (a.width < u32) × (a.height < u32)
  sides_fit = omega (arith, sides_le a v, v.wide, v.high, v.fits)

  column : (c : Coordinate) → xy_to_flat_index a c % a.width ≡ min c.x (a.width - 1)
  column c =
      ap (λ n. n % a.width) (xy_to_flat_index_lem a v c)
      ∙ mul-add-mod_self_right (min c.y (a.height - 1)) a.width (min c.x (a.width - 1))
      ∙ mod-eq_of_lt (omega (arith, v.wide))

  row : (c : Coordinate) → xy_to_flat_index a c / a.width ≡ min c.y (a.height - 1)
  row c =
      ap (λ n. n / a.width) (xy_to_flat_index_lem a v c)
      ∙ mul-add-div_right v.wide (min c.y (a.height - 1)) (min c.x (a.width - 1))
      ∙ omega
          (arith, div-eq_of_lt {n = min c.x (a.width - 1)} {m = a.width} (omega (arith, v.wide)))

  abbrev Beside : ℕ → ℕ → Type 0
  Beside p q = Close (p % a.width) (q % a.width) × Close (p / a.width) (q / a.width)

  by :
      (p q : ℕ) (c : Coordinate)
      → Close (p % a.width) (min c.x (a.width - 1))
      → Close (p / a.width) (min c.y (a.height - 1))
      → q ≡ xy_to_flat_index a c
      → Beside p q
  by p q c h k e = rw (e, column c, row c) (h, k)

  Next-Beside :
      (p q : ℕ)
      → p < a.height * a.width
      → Among q (get_neighbours a (flat_index_to_xy a p))
      → Beside p q
  unfolding get_neighbours flat_index_to_xy
  Next-Beside p q below m =
      let x = p % a.width in
      let y = p / a.width in
      let in_row : x < a.width = mod-lt p v.wide in
      let in_column : y < a.height = (div-lt_iff_lt-mul v.wide).1 below in
      let (wide, high) = sides_fit in
      let left = left_Close x a.width in_row in
      let middle = self_Close x a.width in_row in
      let right = right_Close x a.width in_row wide in
      let above = left_Close y a.height in_column in
      let level = self_Close y a.height in_column in
      let under = right_Close y a.height in_column high in
      elim m [
        | inl e ↦ by p q _ left above e
        | inr (inl e) ↦ by p q _ middle above e
        | inr (inr (inl e)) ↦ by p q _ right above e
        | inr (inr (inr (inl e))) ↦ by p q _ left level e
        | inr (inr (inr (inr (inl e)))) ↦ by p q _ right level e
        | inr (inr (inr (inr (inr (inl e))))) ↦ by p q _ left under e
        | inr (inr (inr (inr (inr (inr (inl e)))))) ↦ by p q _ middle under e
        | inr (inr (inr (inr (inr (inr (inr (inl e))))))) ↦ by p q _ right under e
        | inr (inr (inr (inr (inr (inr (inr (inr n))))))) ↦ absurd n
      ]

  place :
      (q : ℕ) (c : Coordinate)
      → q < a.height * a.width
      → q % a.width ≡ c.x
      → q / a.width ≡ c.y
      → q ≡ xy_to_flat_index a c
  place q c below e f =
      let in_row : q % a.width < a.width = mod-lt q v.wide in
      let in_column : q / a.width < a.height = (div-lt_iff_lt-mul v.wide).1 below in
      let s : min c.y (a.height - 1) ≡ q / a.width = omega (arith, f, in_column) in
      let t : min c.x (a.width - 1) ≡ q % a.width = omega (arith, e, in_row) in
      sym (
        xy_to_flat_index_lem a v c
        ∙ ap₂ (λ r k. r * a.width + k) s t
        ∙ omega (arith, mod-add-div' q a.width))

  Beside-Next :
      (p q : ℕ)
      → q < a.height * a.width
      → p ≢ q
      → Beside p q
      → Among q (get_neighbours a (flat_index_to_xy a p))
  unfolding get_neighbours flat_index_to_xy
  Beside-Next p q below other (h, k) =
      let (wide, high) = sides_fit in
      let at = λ (c : Coordinate). place q c below in
      let across = sides (p % a.width) (q % a.width) a.width h (mod-lt q v.wide) wide in
      let down =
        sides (p / a.width) (q / a.width) a.height k ((div-lt_iff_lt-mul v.wide).1 below) high in
      elim down [
        | inl f ↦ elim across [
          | inl e ↦ inl (at _ e f)
          | inr (inl e) ↦ inr (inl (at _ e f))
          | inr (inr e) ↦ inr (inr (inl (at _ e f)))
        ]
        | inr (inl f) ↦ elim across [
          | inl e ↦ inr (inr (inr (inl (at _ e f))))
          | inr (inl e) ↦ absurd (other (same e f))
          | inr (inr e) ↦ inr (inr (inr (inr (inl (at _ e f)))))
        ]
        | inr (inr f) ↦ elim across [
          | inl e ↦ inr (inr (inr (inr (inr (inl (at _ e f))))))
          | inr (inl e) ↦ inr (inr (inr (inr (inr (inr (inl (at _ e f)))))))
          | inr (inr e) ↦ inr (inr (inr (inr (inr (inr (inr (inl (at _ e f))))))))
        ]
      ]
    where
      same : q % a.width ≡ p % a.width → q / a.width ≡ p / a.width → p ≡ q
      same e f =
          sym (mod-add-div' p a.width)
          ∙ ap₂ (λ r k. r + k * a.width) (sym e) (sym f)
          ∙ mod-add-div' q a.width

  -- Of two pixels of the area each is a neighbour of the other, or none is.
  pub Among-get_neighbours :
      (p q : ℕ)
      → p < a.height * a.width
      → q < a.height * a.width
      → Among q (get_neighbours a (flat_index_to_xy a p))
      → Among p (get_neighbours a (flat_index_to_xy a q))
  Among-get_neighbours p q below below' m = elim (Bool-cases (p == q)) [
    | inl e ↦
        let f = (==_iff p q).0 e in
        subst (λ z. Among p (get_neighbours a (flat_index_to_xy a z))) f
          (subst (λ z. Among z (get_neighbours a (flat_index_to_xy a p))) (sym f) m)
    | inr e ↦
        let ((h, h'), (k, k')) = Next-Beside p q below m in
        Beside-Next q p below (λ f. cc ((==_iff p q).1 (sym f), e)) ((h', h), (k', k))
  ]
