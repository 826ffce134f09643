-- ===== src/Messaging/Tests.antt =====
-- Texts and numbers to try the theorems of packages/messaging on.
use mortar.Prelude.{ℕ, ◌+◌, ◌/◌, ◌%◌, ◌≤◌, ◌≡◌, refl, none, some, List, [], ◌∷◌, arith}
use mortar.Messaging.Segments.{capacity, count_segments}
use mortar.Messaging.Segments.Bounds.{needed, cost, count_segments_lem}
use mortar.Messaging.Pumping.{assess_sms_risk, never_a_client, bare, country_code_of}
use mortar.Messaging.Pumping.Caps.{Message, Firm, IsWithin, send_all}
use mortar.Messaging.Quiet.{default_quiet_hours, next_allowed}

-- 'ș{a'
abbrev text : List ℕ
text = 537 ∷ 123 ∷ 97 ∷ []

count_segments_lem_example :
    ((count_segments text).encoding ≡ needed text)
    × (cost text + (count_segments text).remaining
        ≡ capacity (needed text) (count_segments text).segments)
    × ((k : ℕ) → 1 ≤ k → cost text ≤ capacity (needed text) k → (count_segments text).segments ≤ k)
count_segments_lem_example = count_segments_lem 537 (123 ∷ 97 ∷ [])

-- '+40 722' with more digits, and a satellite number.
abbrev mobile : List ℕ
mobile = 43 ∷ 52 ∷ 48 ∷ 32 ∷ 55 ∷ 50 ∷ 50 ∷ 49 ∷ 50 ∷ 51 ∷ []

abbrev satellite : List ℕ
satellite = 43 ∷ 56 ∷ 56 ∷ 50 ∷ 49 ∷ 50 ∷ 51 ∷ 52 ∷ 53 ∷ []

abbrev firm : Firm
firm = record { hourly_cap = none; country_cap = some 1; sent = 48; countries = []; phones = [] }

firm-IsWithin : IsWithin firm
firm-IsWithin = record { volume = omega arith; spread = omega arith; ranges = refl }

abbrev tried : List Message
tried =
    record { phone = mobile; segments = 2 }
    ∷ record { phone = satellite; segments = 1 }
    ∷ record { phone = mobile; segments = 1 }
    ∷ []

send_all-tried : (send_all firm tried).sent ≡ 50
unfolding send_all assess_sms_risk never_a_client bare country_code_of
send_all-tried = refl

-- A zone two hours ahead; 20:30 there.
abbrev hour_at : ℕ → ℕ
hour_at at = (at / 3600000 + 2) % 24

next_allowed-morning : next_allowed hour_at 66600000 default_quiet_hours ≡ 111600000
unfolding next_allowed
next_allowed-morning = refl
