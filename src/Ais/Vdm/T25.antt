-- ===== src/Ais/Vdm/T25.antt =====
-- ais/vdm_t25.rs: type 25, single slot binary message.
use nmea_parser.Common.{
  ℕ, ◌-◌, max, Bool, leb, if◌then◌else◌, none, some, length, drop, take, Outcome, ok, panic, ◌>>=◌,
}
use nmea_parser.Bits.{Bits}
use nmea_parser.Message.{ParsedMessage}
use nmea_parser.Ais.Types.{Station}
use nmea_parser.Ais.Fields.{flag, pick_u16, pick_u32}

-- `&bv[start..max(start, end)]`: the slice panics where it ends past the vector.
unfoldable pub slice_from : Bits → ℕ → ℕ → Outcome Bits
slice_from bv start end =
    let stop = max start end in
    if leb stop (length bv) then ok (take (stop - start) (drop start bv)) else panic

abbrev pub data_start : Bool → Bool → ℕ
data_start addressed structured = if addressed then 70 else if structured then 86 else 40

unfoldable pub handle : {F T G : Type 0} → Bits → Station → Bool → Outcome (ParsedMessage F T G)
handle bv station own_vessel = do
  let addressed = flag bv 38
  let structured = flag bv 39
  data_bits ← slice_from bv (data_start addressed structured) (length bv)
  ok (
      ParsedMessage.single_slot_binary_message (record {
        own_vessel = own_vessel;
        station = station;
        mmsi = pick_u32 bv 8 30;
        dest_mmsi = if addressed then some (pick_u32 bv 40 30) else none;
        app_id = if addressed then none else if structured then some (pick_u16 bv 70 16) else none;
        data_bits = data_bits;
      }))
