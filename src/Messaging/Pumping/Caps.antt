-- ===== src/Messaging/Pumping/Caps.antt =====
-- What a firm that sends only what is allowed can come to.
use mortar.Prelude.{
  ℕ, ◌+◌, ◌≤◌, ◌<◌, ◌⊎◌, ◌≡◌, true, false, inl, inr, Option, List, [], ◌∷◌, any, if◌then◌else◌,
  arith, Bool-cases,
}
use mortar.Messaging.Pumping.{
  SmsRiskInput, SmsRisk, assess_sms_risk, assessed, has_country, distinct, starts_with,
  never_a_client, bare, country_code_of, or_default,
}

-- A message that is tried: to whom, and of how many segments.
pub record Message : Type 0 where
  pub phone : List ℕ
  pub segments : ℕ

-- The caps of a firm, what it has sent, and where to.
pub record Firm : Type 0 where
  pub hourly_cap : Option ℕ
  pub country_cap : Option ℕ
  pub sent : ℕ
  pub countries : List (List ℕ)
  pub phones : List (List ℕ)

abbrev pub input_of : Firm → Message → SmsRiskInput
input_of f m = record {
  phone = m.phone;
  sent_this_hour = f.sent;
  countries_today = f.countries;
  segments = m.segments;
  hourly_cap = f.hourly_cap;
  country_cap = f.country_cap;
}

abbrev pub sent_if : Firm → Message → SmsRisk → Firm
sent_if f m risk =
    if risk.allowed
    then record f {
      sent = f.sent + m.segments;
      countries = risk.country ∷ f.countries;
      phones = bare m.phone ∷ f.phones;
    }
    else f

-- Within an hour, the messages that are tried, of which those allowed are sent.
unfoldable pub send_all : Firm → List Message → Firm
unfolding assess_sms_risk
send_all f [] = f
send_all f (m ∷ ms) = send_all (sent_if f m (assess_sms_risk (input_of f m))) ms

-- Neither cap is passed, and no number is in a range that is never a client's.
pub record IsWithin (f : Firm) : Type 0 where
  pub volume : f.sent ≤ or_default f.hourly_cap 50
  pub spread : distinct f.countries ≤ or_default f.country_cap 3
  pub ranges : any (λ phone. any (starts_with phone) never_a_client) f.phones ≡ false

-- What an assessment that allows has found.
record Found (input : SmsRiskInput) (phone country : List ℕ) (risk : SmsRisk) : Type 0 where
  field_country : risk.country ≡ country
  volume : input.sent_this_hour + input.segments ≤ or_default input.hourly_cap 50
  spread :
      (has_country input.countries_today country ≡ true)
      ⊎ (distinct input.countries_today < or_default input.country_cap 3)
  ranges : any (starts_with phone) never_a_client ≡ false

assessed-Found :
    (input : SmsRiskInput) (phone country : List ℕ)
    → (assessed input phone country).allowed ≡ true
    → Found input phone country (assessed input phone country)
assessed-Found input phone country e = record {
  field_country = ground (arith, e);
  volume = ground (arith, e);
  spread = ground (arith, e);
  ranges = ground (arith, e);
}

sent_if-IsWithin :
    (f : Firm) (m : Message) → IsWithin f → IsWithin (sent_if f m (assess_sms_risk (input_of f m)))
unfolding assess_sms_risk
sent_if-IsWithin f m w = elim (Bool-cases risk.allowed) [
  | inl t ↦
      let k = assessed-Found (input_of f m) (bare m.phone) (country_code_of (bare m.phone)) t in
      rw t (record {
        volume = k.volume;
        spread = ground (arith, k.field_country, k.spread, w.spread);
        ranges = ground (arith, k.ranges, w.ranges);
      })
  | inr n ↦ rw n w
]
  where
    risk : SmsRisk
    risk = assessed (input_of f m) (bare m.phone) (country_code_of (bare m.phone))

-- A firm that stands within its caps, and that sends of any messages tried only those allowed,
-- counting each that it sends, stays within them: the segments of the hour, the distinct countries
-- of the day, and no number sent to in a range that is never a client of anybody.
pub send_all-IsWithin : (f : Firm) (ms : List Message) → IsWithin f → IsWithin (send_all f ms)
unfolding send_all
send_all-IsWithin f [] w = w
send_all-IsWithin f (m ∷ ms) w =
    send_all-IsWithin (sent_if f m (assess_sms_risk (input_of f m))) ms (sent_if-IsWithin f m w)
