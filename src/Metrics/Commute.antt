-- ===== src/Metrics/Commute.antt =====
-- Updates of two series of one family of internal/metrics/metrics.go, in either order. What a
-- scraper is shown is a function on the map that forgets the order in which a `range` gives it.
use mathlib.Core.Quot
use mathlib.Core.Quot.{Quot}
use go_webapp_template.Base.{
  ◌≡◌, ◌≢◌, refl, sym, ap, false, Option, none, some, List, Bool-cases, inl, inr, All, length, ◌==◌,
  if◌then◌else◌, ◌>>=◌, arith,
}
use go_webapp_template.Base.Text.{Text, same, same_iff}
use go_webapp_template.Base.Dict.{lookup, insert, HasDistinctKeys, lookup-insert}
use go_webapp_template.Base.GoMap.{Distinct, GoMap, put, put-put_comm}
use go_webapp_template.Metrics.{
  Float64, Series, Family, join, label_count, or_fresh, series_for, store, observe_series, add,
  set_value, observe,
}
use go_webapp_template.Metrics.Keys.{IsJoinable, keys_differ}
use go_webapp_template.Metrics.Order.{render_family-lookup}
use go_webapp_template.Metrics.Render.{render_family}

-- The calls that change a series.
pub data Update (F : Type 0) : Type 0 where
  add_by set_to observe_one : F → Update F

other_way : (s t : Text) → same s t ≡ false → same t s ≡ false
other_way s t h = ground (arith, same_iff s t, same_iff t s)

module _ {F : Type 0} ⦃fl : Float64 F⦄ where
  unfoldable pub update : Family F → Update F → List Text → Option (Family F)
  update f (add_by delta) values = add f delta values
  update f (set_to v) values = set_value f v values
  update f (observe_one v) values = observe f v values

  unfoldable change : List F → Update F → Series F → Series F
  change bounds (add_by delta) s = record s { value = fl.plus s.value delta }
  change bounds (set_to v) s = record s { value = v }
  change bounds (observe_one v) s = observe_series bounds v s

  abbrev changed : Family F → Update F → List Text → Family F
  changed f u values =
      store f values (change f.bounds u (or_fresh f values (lookup (join values) f.series)))

  update-changed :
      (f : Family F) (u : Update F) (values : List Text)
      → update f u values
        ≡ (if length values == length f.label_names then some (changed f u values) else none)
  unfolding update add set_value observe label_count series_for change
  update-changed f (add_by delta) values = ground arith
  update-changed f (set_to v) values = ground arith
  update-changed f (observe_one v) values = ground arith

  render_map : Family F → GoMap (Series F) → Option Text
  render_map f =
      Quot.lift (hlevel) (λ (a : Distinct (Series F)). render_family (record f { series = a.0 }))
        (λ a b h. render_family-lookup (record f { series = b.0 }) a.0 b.1 a.1 h)

  changed-changed :
      (f : Family F) (u w : Update F) (vs ws : List Text)
      → same (join vs) (join ws) ≡ false
      → changed (changed f u vs) w ws ≡ (record f {
        series = insert (join ws) (change f.bounds w (or_fresh f ws (lookup (join ws) f.series))) (
            insert
              (join vs)
              (change f.bounds u (or_fresh f vs (lookup (join vs) f.series)))
              f.series);
      })
  changed-changed f u w vs ws other =
      rw
        (
          lookup-insert (join vs) (join ws)
              (change f.bounds u (or_fresh f vs (lookup (join vs) f.series))) f.series,
          other,
        )
        refl

  render_family-changed_comm :
      (f : Family F) (u w : Update F) (vs ws : List Text)
      → HasDistinctKeys f.series
      → same (join vs) (join ws) ≡ false
      → render_family (changed (changed f u vs) w ws)
        ≡ render_family (changed (changed f w ws) u vs)
  unfolding render_map put
  render_family-changed_comm f u w vs ws d other =
      let a = change f.bounds u (or_fresh f vs (lookup (join vs) f.series)) in
      let b = change f.bounds w (or_fresh f ws (lookup (join ws) f.series)) in
      rw
        (
          changed-changed f u w vs ws other,
          changed-changed f w u ws vs (other_way (join vs) (join ws) other),
        )
        (ap (render_map f)
          (sym (put-put_comm (join vs) (join ws) a b (Quot.mk (f.series, d)) other)))

  both_orders :
      (f : Family F) (u w : Update F) (vs ws : List Text)
      → (update f u vs >>= λ f'. update f' w ws >>= render_family) ≡ (
          if length vs == length f.label_names
          then if length ws == length f.label_names
            then render_family (changed (changed f u vs) w ws)
            else none
          else none)
  both_orders f u w vs ws = elim (Bool-cases (length vs == length f.label_names)) [
    | inr panics ↦ rw (update-changed f u vs, panics) refl
    | inl taken ↦
        rw (update-changed f u vs, taken, update-changed (changed f u vs) w ws)
          (elim (Bool-cases (length ws == length f.label_names)) [
            | inr panics ↦ rw panics refl
            | inl fits ↦ rw fits refl
          ])
  ]

  -- Two calls of `add`, `set` and `observe` on one family, under different label values without the
  -- byte 0xff, can come in either order: a scraper is then shown the same text, or both orders
  -- panic.
  pub update-render_comm :
      (f : Family F) (u w : Update F) (vs ws : List Text)
      → HasDistinctKeys f.series
      → All IsJoinable vs
      → All IsJoinable ws
      → vs ≢ ws
      → (update f u vs >>= λ f'. update f' w ws >>= render_family)
        ≡ (update f w ws >>= λ f'. update f' u vs >>= render_family)
  update-render_comm f u w vs ws d hv hw other =
      rw (both_orders f u w vs ws, both_orders f w u ws vs)
        (elim (Bool-cases (length vs == length f.label_names)) [
          | inr panics ↦ rw panics (ground arith)
          | inl fits ↦ elim (Bool-cases (length ws == length f.label_names)) [
            | inr panics ↦ rw (fits, panics) refl
            | inl fits' ↦
                let differs = keys_differ vs ws (ground arith) hv hw other in
                rw (fits, fits') (render_family-changed_comm f u w vs ws d differs)
          ]
        ])
