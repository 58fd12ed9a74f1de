-- ===== src/Parser/Dispatch/Kinds.antt =====
-- What kind of message an answer is, and its sender.
use nmea_parser.Common.{
  ℕ, ◌≡◌, refl, Bool, true, false, ◌&&◌, ◌||◌, leb, ◌==◌, if◌then◌else◌, Option, none, some,
  Outcome, ok, ◌>>=◌, bind-ok,
}
use nmea_parser.Message.{ParsedMessage}

module _ {F T G : Type 0} where
  -- The message types of ITU-R M.1371 that a kind of answer stands for.
  abbrev pub is_kind_of : ParsedMessage F T G → ℕ → Bool
  is_kind_of ParsedMessage.incomplete t = false
  is_kind_of (ParsedMessage.vessel_dynamic_data m) t =
      (leb 1 t && leb t 3) || t == 18 || t == 19 || t == 27
  is_kind_of (ParsedMessage.vessel_static_data m) t = t == 5 || t == 24
  is_kind_of (ParsedMessage.base_station_report m) t = t == 4
  is_kind_of (ParsedMessage.binary_addressed_message m) t = t == 6
  is_kind_of (ParsedMessage.standard_sar_aircraft_position_report m) t = t == 9
  is_kind_of (ParsedMessage.utc_date_inquiry m) t = t == 10
  is_kind_of (ParsedMessage.utc_date_response m) t = t == 11
  is_kind_of (ParsedMessage.addressed_safety_related_message m) t = t == 12
  is_kind_of (ParsedMessage.safety_related_acknowledgement m) t = t == 13
  is_kind_of (ParsedMessage.safety_related_broadcast_message m) t = t == 14
  is_kind_of (ParsedMessage.interrogation m) t = t == 15
  is_kind_of (ParsedMessage.assignment_mode_command m) t = t == 16
  is_kind_of (ParsedMessage.dgnss_broadcast_binary_message m) t = t == 17
  is_kind_of (ParsedMessage.data_link_management_message m) t = t == 20
  is_kind_of (ParsedMessage.aid_to_navigation_report m) t = t == 21
  is_kind_of (ParsedMessage.channel_management m) t = t == 22
  is_kind_of (ParsedMessage.group_assignment_command m) t = t == 23
  is_kind_of (ParsedMessage.single_slot_binary_message m) t = t == 25
  is_kind_of (ParsedMessage.multiple_slot_binary_message m) t = t == 26
  is_kind_of (ParsedMessage.gnss g) t = false

  -- Whether an AIS message is of the own vessel, and the MMSI of its sender.
  abbrev pub sender : ParsedMessage F T G → Option (Bool × ℕ)
  sender ParsedMessage.incomplete = none
  sender (ParsedMessage.vessel_dynamic_data m) = some (m.own_vessel, m.mmsi)
  sender (ParsedMessage.vessel_static_data m) = some (m.own_vessel, m.mmsi)
  sender (ParsedMessage.base_station_report m) = some (m.own_vessel, m.mmsi)
  sender (ParsedMessage.binary_addressed_message m) = some (m.own_vessel, m.mmsi)
  sender (ParsedMessage.standard_sar_aircraft_position_report m) = some (m.own_vessel, m.mmsi)
  sender (ParsedMessage.utc_date_inquiry m) = some (m.own_vessel, m.source_mmsi)
  sender (ParsedMessage.utc_date_response m) = some (m.own_vessel, m.mmsi)
  sender (ParsedMessage.addressed_safety_related_message m) = some (m.own_vessel, m.source_mmsi)
  sender (ParsedMessage.safety_related_acknowledgement m) = some (m.own_vessel, m.mmsi)
  sender (ParsedMessage.safety_related_broadcast_message m) = some (m.own_vessel, m.mmsi)
  sender (ParsedMessage.interrogation m) = some (m.own_vessel, m.mmsi)
  sender (ParsedMessage.assignment_mode_command m) = some (m.own_vessel, m.mmsi)
  sender (ParsedMessage.dgnss_broadcast_binary_message m) = some (m.own_vessel, m.mmsi)
  sender (ParsedMessage.data_link_management_message m) = some (m.own_vessel, m.mmsi)
  sender (ParsedMessage.aid_to_navigation_report m) = some (m.own_vessel, m.mmsi)
  sender (ParsedMessage.channel_management m) = some (m.own_vessel, m.mmsi)
  sender (ParsedMessage.group_assignment_command m) = some (m.own_vessel, m.mmsi)
  sender (ParsedMessage.single_slot_binary_message m) = some (m.own_vessel, m.mmsi)
  sender (ParsedMessage.multiple_slot_binary_message m) = some (m.own_vessel, m.mmsi)
  sender (ParsedMessage.gnss g) = none

  -- An answer that is a message is of the kind of type `t`, and from this sender.
  abbrev pub AnswersAs : ℕ → Bool × ℕ → Outcome (ParsedMessage F T G) → Type 0
  AnswersAs t from o =
      (m : ParsedMessage F T G) → o ≡ ok m → (is_kind_of m t ≡ true) × (sender m ≡ some from)

  pub AnswersAs-ok :
      (t : ℕ) (from : Bool × ℕ) (m : ParsedMessage F T G)
      → is_kind_of m t ≡ true
      → sender m ≡ some from
      → AnswersAs t from (ok m)
  AnswersAs-ok t from m k h m' e = let same : m ≡ m' = cc in rw (← same) (k, h)

  pub AnswersAs-bind :
      {A : Type 0} (t : ℕ) (from : Bool × ℕ) (o : Outcome A) (f : A → Outcome (ParsedMessage F T G))
      → ((a : A) → AnswersAs t from (f a))
      → AnswersAs t from (o >>= f)
  AnswersAs-bind t from o f h m e = let (a, _, e') = bind-ok o f e in h a m e'

  pub AnswersAs-if :
      (t : ℕ) (from : Bool × ℕ) (b : Bool) (x y : Outcome (ParsedMessage F T G))
      → (b ≡ true → AnswersAs t from x)
      → AnswersAs t from y
      → AnswersAs t from (if b then x else y)
  AnswersAs-if t from true x y h k = h refl
  AnswersAs-if t from false x y h k = k
