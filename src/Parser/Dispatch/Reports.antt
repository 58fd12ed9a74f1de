-- ===== src/Parser/Dispatch/Reports.antt =====
-- A position report from its raw fields, through the text of its sentence, to its message.
use nmea_parser.Common.{Bool}
use nmea_parser.Text.{Text}
use nmea_parser.Bits.Packing.{pack}
use nmea_parser.Bits.Layout.{encode}
use nmea_parser.Chrono.{Chrono}
use nmea_parser.Ais.Vdm.T1t2t3.Layout.{PositionReport, layout}
use nmea_parser.Gnss.Libraries.{Libraries}
use nmea_parser.Parser.Dispatch.Single.{single}

-- The sentence of a report without its checksum.
abbrev pub report_sentence : Bool → Text → PositionReport → Text
report_sentence own channel r = single own channel (pack (encode (layout r)))
