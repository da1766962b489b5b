-- ===== src/RtcManager/Laws.antt =====
-- Applications/RtcManager: which clocks a time that is submitted sets, and which error is returned.
use abstraction_layer.Prelude.{ℕ, ◌<◌, ◌≤◌, ◌≡◌, refl, some, lt→ltb, le→ltb}
use abstraction_layer.Error.{ErrorType, success}
use abstraction_layer.DateTime.{DateTime, init, to_unix_time, to_date_time}
use abstraction_layer.RtcManager.{
  Rtc, RtcManager, difference, internal_rtc_time, update_internal, update_external,
  submit_input_time,
}

module _ {W : Type 0} (input : ℕ) (m : RtcManager W) (inner : Rtc W)
    (managed : m.internal_rtc ≡ some inner) where
  -- The clock inside is read, and both differences are within the criteria: the time is not set, and
  -- Success is returned.
  pub submit_input_time_within :
      (date : DateTime) (w w₁ : W)
      → inner.read_date init w ≡ (success, date, w₁)
      → (let near = m.criteria.max_difference_between_internal_rtc_and_input_time in
          difference input (to_unix_time date) ≤ near)
      → (let near = m.criteria.max_difference_between_internal_and_external_rtc in
          difference (to_unix_time date) (to_unix_time m.last_external_rtc_time_queried) ≤ near)
      → submit_input_time input m w ≡ (success, m, w₁)
  unfolding submit_input_time internal_rtc_time update_internal update_external
  submit_input_time_within date w w₁ read near near' =
      rw (managed, read, le→ltb _ _ near, le→ltb _ _ near') refl

  reads :
      (date : DateTime) (w w₁ : W)
      → inner.read_date init w ≡ (success, date, w₁)
      → internal_rtc_time m init w ≡ (success, date, w₁)
  unfolding internal_rtc_time
  reads date w w₁ read = rw managed read

  writes_inside :
      (internal : ℕ) (error error' : ErrorType) (w w' : W)
      → (let near = m.criteria.max_difference_between_internal_rtc_and_input_time in
          near < difference input internal)
      → inner.write_date (to_date_time input) w ≡ (error', w')
      → update_internal input internal m error w ≡ (error', w')
  unfolding update_internal
  writes_inside internal error error' w w' far wrote = rw (lt→ltb _ _ far, managed) wrote

  writes_outside :
      (internal : ℕ) (outer : Rtc W) (date : DateTime) (error : ErrorType) (w w₁ w₂ : W)
      → m.external_rtc ≡ some outer
      → (let near = m.criteria.max_difference_between_internal_and_external_rtc in
          near < difference internal (to_unix_time m.last_external_rtc_time_queried))
      → outer.write_date (to_date_time input) w ≡ (success, w₁)
      → outer.read_date m.last_external_rtc_time_queried w₁ ≡ (success, date, w₂)
      → update_external input internal m error w
        ≡ (success, record m { last_external_rtc_time_queried = date }, w₂)
  unfolding update_external
  writes_outside internal outer date error w w₁ w₂ managed' far wrote read =
      simp (lt→ltb _ _ far, managed', wrote, read)

  -- The time is too far from the clock inside, which was close to the time last read of the clock outside:
  -- only the clock inside is written, and the two are not compared again.
  pub submit_input_time_drifts :
      (date : DateTime) (error : ErrorType) (w w₁ w₂ : W)
      → inner.read_date init w ≡ (success, date, w₁)
      → (let near = m.criteria.max_difference_between_internal_rtc_and_input_time in
          near < difference input (to_unix_time date))
      → (let near = m.criteria.max_difference_between_internal_and_external_rtc in
          difference (to_unix_time date) (to_unix_time m.last_external_rtc_time_queried) ≤ near)
      → inner.write_date (to_date_time input) w₁ ≡ (error, w₂)
      → submit_input_time input m w ≡ (error, m, w₂)
  unfolding submit_input_time update_external
  submit_input_time_drifts date error w w₁ w₂ read far near wrote =
      let e = reads date w w₁ read in
      let e' = writes_inside (to_unix_time date) success error w₁ w₂ far wrote in
      rw (e, e', le→ltb _ _ near) refl

  -- Both clocks are too far off, and the clock outside can be written and read: the error of the write to
  -- the clock inside is lost, whatever it is.
  pub submit_input_time_masks :
      (outer : Rtc W) (date date' : DateTime) (error : ErrorType) (w w₁ w₂ w₃ w₄ : W)
      → m.external_rtc ≡ some outer
      → inner.read_date init w ≡ (success, date, w₁)
      → (let near = m.criteria.max_difference_between_internal_rtc_and_input_time in
          near < difference input (to_unix_time date))
      → (let near = m.criteria.max_difference_between_internal_and_external_rtc in
          near < difference (to_unix_time date) (to_unix_time m.last_external_rtc_time_queried))
      → inner.write_date (to_date_time input) w₁ ≡ (error, w₂)
      → outer.write_date (to_date_time input) w₂ ≡ (success, w₃)
      → outer.read_date m.last_external_rtc_time_queried w₃ ≡ (success, date', w₄)
      → submit_input_time input m w
        ≡ (success, record m { last_external_rtc_time_queried = date' }, w₄)
  unfolding submit_input_time
  submit_input_time_masks outer date date' error w w₁ w₂ w₃ w₄ managed' read far far' wrote wrote'
        read' =
      let e = reads date w w₁ read in
      let e' = writes_inside (to_unix_time date) success error w₁ w₂ far wrote in
      let e'' =
        writes_outside (to_unix_time date) outer date' error w₂ w₃ w₄ managed' far' wrote' read' in
      rw (e, e', e'') refl
