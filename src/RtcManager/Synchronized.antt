-- ===== src/RtcManager/Synchronized.antt =====
-- Applications/RtcManager: what `submitInputTime` makes of two clocks that keep their time.
use abstraction_layer.Prelude.{
  ℕ, Bool, ◌≡◌, refl, ap, sym, subst, ◌∙◌, true, false, Bool-cases, inl, inr, some, ltb,
  if◌then◌else◌,
}
use abstraction_layer.Error.{ErrorType, success}
use abstraction_layer.DateTime.{DateTime, init, to_unix_time, to_date_time}
use abstraction_layer.RtcManager.{
  Rtc, RtcManager, difference, internal_rtc_time, update_internal, update_external,
  submit_input_time,
}

-- Two drivers that work, each on a clock of its own; no time passes.
pub record Keeps {W : Type 0} (inner outer : Rtc W) (inside outside : W → DateTime) : Type 0 where
  pub read_inside : (d : DateTime) (w : W) → inner.read_date d w ≡ (success, inside w, w)
  pub read_outside : (d : DateTime) (w : W) → outer.read_date d w ≡ (success, outside w, w)
  pub write_inside_error : (d : DateTime) (w : W) → (inner.write_date d w).0 ≡ success
  pub write_inside : (d : DateTime) (w : W) → inside (inner.write_date d w).1 ≡ d
  pub write_inside_outside : (d : DateTime) (w : W) → outside (inner.write_date d w).1 ≡ outside w
  pub write_outside_error : (d : DateTime) (w : W) → (outer.write_date d w).0 ≡ success
  pub write_outside : (d : DateTime) (w : W) → outside (outer.write_date d w).1 ≡ d
  pub write_outside_inside : (d : DateTime) (w : W) → inside (outer.write_date d w).1 ≡ inside w

-- The input is far from the clock inside; that clock, as it was, is far from the time that was read of the
-- clock outside last.
abbrev pub is_input_far : {W : Type 0} → ℕ → RtcManager W → DateTime → Bool
is_input_far input m date =
    ltb m.criteria.max_difference_between_internal_rtc_and_input_time
      (difference input (to_unix_time date))

abbrev pub is_last_far : {W : Type 0} → RtcManager W → DateTime → Bool
is_last_far m date =
    ltb m.criteria.max_difference_between_internal_and_external_rtc
      (difference (to_unix_time date) (to_unix_time m.last_external_rtc_time_queried))

module _ {W : Type 0} (input : ℕ) (m : RtcManager W) (inner outer : Rtc W)
    (inside outside : W → DateTime) (v : Keeps inner outer inside outside)
    (managed : m.internal_rtc ≡ some inner) (managed' : m.external_rtc ≡ some outer) where
  abbrev far_input : W → Bool
  far_input w = is_input_far input m (inside w)

  abbrev far_last : W → Bool
  far_last w = is_last_far m (inside w)

  -- Both clocks and the time that was last read of the clock outside, afterwards.
  abbrev Sets : W → ErrorType × RtcManager W × W → Type 0
  Sets w r =
      (r.0 ≡ success)
      × (inside r.2 ≡ (if far_input w then to_date_time input else inside w))
      × (outside r.2 ≡ (if far_last w then to_date_time input else outside w))
      × (r.1.last_external_rtc_time_queried
          ≡ (if far_last w then to_date_time input else m.last_external_rtc_time_queried))

  abbrev input_date : DateTime
  input_date = to_date_time input

  reads : (w : W) → internal_rtc_time m init w ≡ (success, inside w, w)
  unfolding internal_rtc_time
  reads w = rw managed (v.read_inside init w)

  abbrev after_inside : Bool → W → W
  after_inside far w = if far then (inner.write_date input_date w).1 else w

  updates_inside :
      (w : W)
      → update_internal input (to_unix_time (inside w)) m success w
        ≡ (success, after_inside (far_input w) w)
  unfolding update_internal
  updates_inside w = elim (Bool-cases (far_input w)) [
    | inl far ↦
        rw (far, managed)
          (ap (λ e. (e, (inner.write_date input_date w).1)) (v.write_inside_error input_date w))
    | inr near ↦ rw near refl
  ]

  abbrev after_outside : Bool → W → ErrorType × RtcManager W × W
  after_outside far w =
      if far
      then (
        success,
        record m { last_external_rtc_time_queried = input_date },
        (outer.write_date input_date w).1,
      )
      else (success, m, w)

  updates_outside :
      (date : DateTime) (w : W)
      → update_external input (to_unix_time date) m success w ≡ after_outside (is_last_far m date) w
  unfolding update_external
  updates_outside date w = elim (Bool-cases (is_last_far m date)) [
    | inl far ↦ simp (
      far,
      managed',
      v.write_outside_error input_date w,
      v.read_outside m.last_external_rtc_time_queried (outer.write_date input_date w).1,
      v.write_outside input_date w,
    )
    | inr near ↦ rw near refl
  ]

  submits :
      (w : W)
      → submit_input_time input m w ≡ after_outside (far_last w) (after_inside (far_input w) w)
  unfolding submit_input_time
  submits w =
      rw (reads w, updates_inside w) (updates_outside (inside w) (after_inside (far_input w) w))

  -- `submitInputTime` is a success. It sets the clock inside exactly if the input is too far from it, and
  -- the clock outside, and the time that is kept of it, exactly if the time of the clock inside before
  -- this is too far from the time that was last read of the clock outside, whatever the input is.
  pub submit_input_time_sets : (w : W) → Sets w (submit_input_time input m w)
  submit_input_time_sets w = subst (Sets w) (sym (submits w)) (sets (far_input w) (far_last w))
    where
      sets :
          (far far' : Bool)
          → let (error, m', w') = after_outside far' (after_inside far w) in
            (error ≡ success)
            × (inside w' ≡ (if far then input_date else inside w))
            × (outside w' ≡ (if far' then input_date else outside w))
            × (m'.last_external_rtc_time_queried
                ≡ (if far' then input_date else m.last_external_rtc_time_queried))
      sets true true =
          (refl, v.write_outside_inside _ _ ∙ v.write_inside _ _, v.write_outside _ _, refl)
      sets true false = (refl, v.write_inside _ _, v.write_inside_outside _ _, refl)
      sets false true = (refl, v.write_outside_inside _ _, v.write_outside _ _, refl)
      sets false false = (refl, refl, refl, refl)
