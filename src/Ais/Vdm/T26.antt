-- ===== src/Ais/Vdm/T26.antt =====
-- ais/vdm_t26.rs: type 26, multiple slot binary message.
use nmea_parser.Common.{
  ℕ, ◌+◌, ◌-◌, ◌%◌, ◌^◌, Bool, ◌&&◌, ltb, if◌then◌else◌, none, some, length, Outcome, ok, panic,
  ◌>>=◌,
}
use nmea_parser.Bits.{Bits}
use nmea_parser.Message.{ParsedMessage}
use nmea_parser.Ais.Types.{Station}
use nmea_parser.Ais.Vdm.T25.{slice_from, data_start}
use nmea_parser.Ais.Fields.{flag, pick_u16, pick_u32}

-- `bv.len() - 20` on a 64-bit usize: with overflow checks it panics below 20, else it wraps.
unfoldable pub before_radio : Bool → ℕ → Outcome ℕ
before_radio overflow_checks len =
    if ltb len 20 && overflow_checks then panic else ok ((len + 2 ^ 64 - 20) % 2 ^ 64)

unfoldable pub handle :
    {F T G : Type 0} → Bool → Bits → Station → Bool → Outcome (ParsedMessage F T G)
handle overflow_checks bv station own_vessel = do
  let addressed = flag bv 38
  let structured = flag bv 39
  end ← before_radio overflow_checks (length bv)
  data_bits ← slice_from bv (data_start addressed structured) end
  ok (
      ParsedMessage.multiple_slot_binary_message (record {
        own_vessel = own_vessel;
        station = station;
        mmsi = pick_u32 bv 8 30;
        dest_mmsi = if addressed then some (pick_u32 bv 40 30) else none;
        app_id = if addressed then none else if structured then some (pick_u16 bv 70 16) else none;
        data_bits = data_bits;
        radio = pick_u32 bv end 20;
      }))
