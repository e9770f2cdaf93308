-- ===== src/Incidents/Events.antt =====
-- `CheckEvent` of src/platform_ops/incidents/ingest.py and its order. Times are natural numbers of
-- seconds.
use data_platform_ops.Prelude.{
  ℕ, String, Bool, true, false, if◌then◌else◌, str_ltb, leb, List, [], ◌∷◌,
}

pub record CheckEvent : Type 0 where
  pub run_id : String
  pub check_id : String
  pub check_type : String
  pub subject : String
  pub status : String
  pub message : String
  pub detected_at : ℕ

-- Compares by the first text field that differs.
text_leb : List (String × String) → Bool → Bool
text_leb [] last = last
text_leb ((a, b) ∷ rest) last =
    let later = text_leb rest last in
    if str_ltb a b then true else if str_ltb b a then false else later

-- `@dataclass(order=True)`: the fields in their order.
unfoldable pub event_leb : CheckEvent → CheckEvent → Bool
unfolding text_leb
event_leb a b =
    text_leb
      ((a.run_id, b.run_id)
        ∷ (a.check_id, b.check_id)
        ∷ (a.check_type, b.check_type)
        ∷ (a.subject, b.subject)
        ∷ (a.status, b.status)
        ∷ (a.message, b.message)
        ∷ [])
      (leb a.detected_at b.detected_at)
