-- ===== src/Image/Fill.antt =====
-- Utilities/ComputerVision.hpp, `SharpenConnectedPixels`: the fill ends, throws nothing, and changes
-- only pixels that pass the test.
use abstraction_layer.Prelude.{
  ℕ, zero, suc, ◌+◌, ◌*◌, ◌%◌, ◌<◌, ◌≤◌, ◌≡◌, ◌⊎◌, ◌∙◌, refl, sym, ap, subst, true, false, some,
  List, [], ◌∷◌, arith, ◌==◌, if◌then◌else◌, length, get_or, set, length-set, get_or-set_self,
  get_or-set_ne, Bool-cases, lt→ltb, inl, inr, ==_self, ==_iff,
}
use abstraction_layer.Error.{success}
use abstraction_layer.Image.{
  Area, Coordinate, xy_to_flat_index, flat_index_to_xy, get_neighbours, at, returns, is_connected,
  push_neighbours, sharpen, PixelFormat, sharpen_connected_pixels,
}
use abstraction_layer.Image.Bounds.{IsArea, AllBelow, xy_to_flat_index-lt, get_neighbours-AllBelow}

pub at-get_or : (bs : List ℕ) (i : ℕ) → i < length bs → at bs i ≡ some (get_or bs i 0)
at-get_or [] i h = absurd (omega arith)
at-get_or (b ∷ bs) zero h = refl
at-get_or (b ∷ bs) (suc i) h = at-get_or bs i (omega arith)

module _ (a : Area) (minimum maximum sharpen_to : ℕ) where
  -- The number of pixels that pass the test.
  abbrev pub connected : List ℕ → ℕ
  connected [] = 0
  connected (b ∷ bs) = (if is_connected a minimum maximum sharpen_to b then 1 else 0) + connected bs

  -- The new colour does not pass.
  filled : is_connected a minimum maximum sharpen_to (sharpen_to % 256) ≡ false
  filled = rw (==_self (sharpen_to % 256)) (ground arith)

  connected-set :
      (bs : List ℕ) (i : ℕ)
      → i < length bs
      → is_connected a minimum maximum sharpen_to (get_or bs i 0) ≡ true
      → connected (set bs i (sharpen_to % 256)) + 1 ≡ connected bs
  connected-set [] i h c = absurd (omega arith)
  connected-set (b ∷ bs) zero h c = rw (c, filled) (omega arith)
  connected-set (b ∷ bs) (suc i) h c = omega (arith, connected-set bs i (omega arith) c)

  push_all :
      (buffer ns : List ℕ) (stack : List Coordinate)
      → AllBelow (length buffer) ns
      → (stack' : List Coordinate) × (push_neighbours a minimum maximum sharpen_to buffer ns stack
          ≡ some stack')
        × (length stack' ≤ length stack + length ns)
  unfolding push_neighbours
  push_all buffer [] stack inside = (stack, refl, omega arith)
  push_all buffer (n ∷ ns) stack inside =
      elim (Bool-cases (is_connected a minimum maximum sharpen_to (get_or buffer n 0))) [
        | inl passes ↦
            let (stack', e, few) = push_all buffer ns (flat_index_to_xy a n ∷ stack) inside.1 in
            (
              stack',
              rw (at-get_or buffer n inside.0, push_neighbours, passes, e) refl,
              omega (arith, few),
            )
        | inr differs ↦
            let (stack', e, few) = push_all buffer ns stack inside.1 in
            (
              stack',
              rw (at-get_or buffer n inside.0, push_neighbours, differs, e) refl,
              omega (arith, few),
            )
      ]

  -- Each pixel is as it was, or it passed the test and has the new colour.
  abbrev pub Filled : List ℕ → List ℕ → Type 0
  Filled before after =
      (length after ≡ length before)
      × ((i : ℕ)
          → (get_or after i 0 ≡ get_or before i 0)
            ⊎ ((is_connected a minimum maximum sharpen_to (get_or before i 0) ≡ true)
                × (get_or after i 0 ≡ sharpen_to % 256)))

  Filled-one :
      (bs : List ℕ) (i : ℕ)
      → i < length bs
      → is_connected a minimum maximum sharpen_to (get_or bs i 0) ≡ true
      → Filled bs (set bs i (sharpen_to % 256))
  Filled-one bs i h c = (
    length-set bs i (sharpen_to % 256),
    λ j. elim (Bool-cases (i == j)) [
      | inl here ↦ inr (
          subst
            (λ k.
              (is_connected a minimum maximum sharpen_to (get_or bs k 0) ≡ true)
              × (get_or (set bs i (sharpen_to % 256)) k 0 ≡ sharpen_to % 256))
            ((==_iff i j).0 here) (c, get_or-set_self bs i (sharpen_to % 256) 0 h))
      | inr other ↦ inl (get_or-set_ne bs i j (sharpen_to % 256) 0 (λ e. ground (arith, e, other)))
    ],
  )

  Filled-trans : (xs ys zs : List ℕ) → Filled xs ys → Filled ys zs → Filled xs zs
  Filled-trans xs ys zs (size, one) (size', two) = (size' ∙ size, λ i. step i (one i) (two i))
    where
      step :
          (i : ℕ)
          → (get_or ys i 0 ≡ get_or xs i 0)
            ⊎ ((is_connected a minimum maximum sharpen_to (get_or xs i 0) ≡ true)
                × (get_or ys i 0 ≡ sharpen_to % 256))
          → (get_or zs i 0 ≡ get_or ys i 0)
            ⊎ ((is_connected a minimum maximum sharpen_to (get_or ys i 0) ≡ true)
                × (get_or zs i 0 ≡ sharpen_to % 256))
          → (get_or zs i 0 ≡ get_or xs i 0)
            ⊎ ((is_connected a minimum maximum sharpen_to (get_or xs i 0) ≡ true)
                × (get_or zs i 0 ≡ sharpen_to % 256))
      step i (inl same) (inl same') = inl (same' ∙ same)
      step i (inl same) (inr (c, now)) =
          inr (ap (is_connected a minimum maximum sharpen_to) (sym same) ∙ c, now)
      step i (inr (c, now)) (inl same') = inr (c, same' ∙ now)
      step i (inr (c, now)) (inr (c', now')) = inr (c, now')

  eight : (c : Coordinate) → length (get_neighbours a c) ≡ 8
  unfolding get_neighbours
  eight c = refl

  -- Ten rounds for each pixel that passes the test, and one for each coordinate on the stack, are
  -- enough.
  pub sharpen_ends :
      (fuel : ℕ) (buffer : List ℕ) (stack : List Coordinate)
      → IsArea a
      → length buffer ≡ a.height * a.width
      → 10 * connected buffer + length stack < fuel
      → (buffer' : List ℕ) × (sharpen a minimum maximum sharpen_to fuel buffer stack
          ≡ returns buffer')
        × Filled buffer buffer'
  unfolding sharpen
  sharpen_ends zero buffer stack v size enough = absurd (omega arith)
  sharpen_ends (suc fuel) buffer [] v size enough = (buffer, refl, (refl, λ i. inl refl))
  sharpen_ends (suc fuel) buffer (c ∷ stack) v size enough =
      elim (Bool-cases
        (is_connected a minimum maximum sharpen_to (get_or buffer (xy_to_flat_index a c) 0))) [
          | inl passes ↦
              let fewer = connected-set buffer (xy_to_flat_index a c) inside passes in
              let (stack', pushed, few) =
                push_all coloured (get_neighbours a c) stack neighbours_inside in
              let (buffer', e, result) =
                sharpen_ends fuel coloured stack' v
                  (length-set buffer (xy_to_flat_index a c) _ ∙ size)
                  (omega (arith, fewer, few, eight c)) in
              (
                buffer',
                rw (at-get_or buffer (xy_to_flat_index a c) inside, sharpen, passes, pushed) e,
                Filled-trans buffer coloured buffer'
                    (Filled-one buffer (xy_to_flat_index a c) inside passes) result,
              )
          | inr differs ↦
              let (buffer', e, result) = sharpen_ends fuel buffer stack v size (omega arith) in
              (
                buffer',
                rw (at-get_or buffer (xy_to_flat_index a c) inside, sharpen, differs) e,
                result,
              )
        ]
    where
      inside : xy_to_flat_index a c < length buffer
      inside = omega (arith, size, xy_to_flat_index-lt a v c)

      coloured : List ℕ
      coloured = set buffer (xy_to_flat_index a c) (sharpen_to % 256)

      neighbours_inside : AllBelow (length coloured) (get_neighbours a c)
      neighbours_inside =
          subst (λ n. AllBelow n (get_neighbours a c))
            (sym (length-set buffer (xy_to_flat_index a c) _ ∙ size))
            (get_neighbours-AllBelow a c v)

  -- On a greyscale buffer of the area's size, and with more than ten rounds for each pixel that passes
  -- the test and one for the start, `SharpenConnectedPixels` ends with `Success` and throws nothing,
  -- whatever the start; the buffer keeps its size, and each pixel is as it was, or passed the test and
  -- has the new colour.
  pub sharpen_connected_pixels_ends :
      (fuel : ℕ) (start : Coordinate) (buffer : List ℕ)
      → IsArea a
      → length buffer ≡ a.height * a.width
      → 10 * connected buffer + 1 < fuel
      → let r =
          sharpen_connected_pixels a minimum maximum sharpen_to fuel PixelFormat.greyscale start
            buffer in
        (r.0 ≡ success) × (buffer' : List ℕ) × (r.1 ≡ returns buffer') × Filled buffer buffer'
  unfolding sharpen_connected_pixels
  sharpen_connected_pixels_ends fuel start buffer v size enough =
      let (buffer', e, result) = sharpen_ends fuel buffer (start ∷ []) v size (omega arith) in
      rw (lt→ltb 0 (length buffer) (omega (arith, size, xy_to_flat_index-lt a v start)))
        (refl, buffer', e, result)
