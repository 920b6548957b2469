-- ===== src/Analytics/Notify.antt =====
-- src/planter_telemetry/analytics/notify.py and service.py: a push, its title and its message, and what
-- its delivery answers. The formats of a float and of a datetime are parameters.
use planter_telemetry.Analytics.Model.{Forecast}
use planter_telemetry.Ingestion.Core.{PyText}
use planter_telemetry.Prelude.Floats.{Floats, lit}
use planter_telemetry.Prelude.{
  refl, true, ◌↔◌, ℕ, Text, text, text_eq, Option, none, some, if◌then◌else◌, ◌++◌, ◌/◌, ◌==◌, ◌≡◌,
  ◌≤◌, ◌<◌, arith, inl, inr, Bool-cases,
}

-- What the POST comes to: a response's status, or an exception, by the name of its type.
pub data Delivery : Type 0 where
  responded : ℕ → Delivery
  raised_as : Text → Delivery

-- post_ntfy: the error description, or none
unfoldable post_ntfy : PyText → Delivery → Option Text
post_ntfy py (responded status) =
    if status / 100 == 2 then none else some (text "ntfy returned HTTP " ++ py.str_int status)
post_ntfy py (raised_as name) = some name

-- _alert_title
unfoldable alert_title : Text → Text → Text
alert_title device_id kind =
    text "planter " ++ (device_id ++ (text ": " ++ (kind ++ text " attention needed")))

-- f"{x:.1f}", and strftime("%Y-%m-%d %H:%M UTC") of an instant
pub record Formats (F : Type 0) : Type 0 where
  pub one_decimal : F → Text
  pub utc_minute : ℕ → Text

module _ {F : Type 0} ⦃fl : Floats F⦄ (formats : Formats F) where
  abbrev crosses_text : Option ℕ → Text
  crosses_text none = text "now"
  crosses_text (some crosses_at) = formats.utc_minute crosses_at

  -- _alert_message
  unfoldable alert_message : Forecast F → F → Text
  alert_message fc horizon_seconds =
      let days = fl.div horizon_seconds (lit 86400) in
      let noun =
        if text_eq fc.kind (text "water") then text "empty" else text "below charge threshold" in
      fc.kind
      ++ (text " "
          ++ (noun
              ++ (text " in "
                  ++ (formats.one_decimal days
                      ++ (text " days of device time ("
                          ++ (crosses_text fc.crosses_at ++ text ")"))))))

-- A delivery has no error exactly when the response's status is one of 200 to 299.
post_ntfy-delivers :
    (py : PyText) (status : ℕ)
    → (post_ntfy py (responded status) ≡ none) ↔ (200 ≤ status × status < 300)
unfolding post_ntfy
post_ntfy-delivers py status = (
  λ h. elim (Bool-cases (status / 100 == 2)) [
    | inl e ↦ (ground arith, ground arith)
    | inr e ↦ let h' = (rw e at h) in cc
  ],
  λ h. let e : (status / 100 == 2) ≡ true = ground (arith, h) in rw (e) refl,
)
