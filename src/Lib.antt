-- ===== src/Lib.antt =====
-- The parser of NMEA 0183 sentences: GNSS sentences and AIS messages (`!xxVDM`, `!xxVDO`).
--
-- A sentence goes through the program in these steps, each a file here with the code's names:
--   * Parser/Frame: `parse_sentence` in src/lib.rs up to the sentence type: what stands in front of
--     `$` or `!` is shed, the checksum is split off and compared, the type is checked;
--   * Parser/Talker: the talker, as a navigation system (src/gnss/mod.rs) or a station
--     (src/ais/mod.rs), and the sentence type without it;
--   * Parser/Vdm: the fields of an AIS sentence and the assembly of a message that comes in two
--     sentences, through the store, with the keys of src/util.rs;
--   * Bits: the armored payload as bits, and the fields that are picked from them (src/util.rs);
--   * Parser/Dispatch: the handler by the type of the message, and `parse_sentence` from end to end.
--
-- The state is `NmeaParser` (Store): a map of fragments by key and a map of static data by MMSI,
-- both as association lists. An operation that changes it takes it as an argument and gives the new
-- one beside its result. An outcome (Common/Outcomes) is a value, an error of src/error.rs without
-- its text, or a panic; a panic stands for every slice, subtraction, `unwrap` and `unreachable!` of
-- the code that can fail at run time.
--
-- The AIS messages, and the GNSS ones:
--   * Ais/Types, Ais/Data, Ais/Messages: the enumerations and structures of src/ais;
--   * Ais/Codes: `new` and `to_value` of the enumerations; Ais/Country: `country` (src/ais/mod.rs);
--   * Ais/Fields: conversions that several handlers share;
--   * Ais/Vdm/T<n>: `handle` of src/ais/vdm_t<n>.rs, for every type that has a handler. T24 keeps
--     its first part in the store; T18 and T27 name the structure that they build `report`;
--   * Gnss/Data: the structures of src/gnss, and the GNSS variants of `ParsedMessage`; Gnss/Codes: `new`
--     of the enumerations;
--   * Gnss/Fields, Gnss/Times, Gnss/Coordinates: the field pickers of src/util.rs, its times, dates and
--     time zones, and its latitudes and longitudes as text;
--   * Gnss/<Type>: `handle` of src/gnss/<type>.rs, for every type of sentence; Gnss/Gsv is a message of
--     any number of sentences through the store. Gnss/Dispatch: the handler by the type;
--   * Ais/Display, Gnss/Display: `Display` and `Default` of the enumerations; LatLon: the trait;
--   * Eta, Chrono: the time of arrival and the dates (src/util.rs);
--   * Errors: the errors of src/error.rs with their texts, and their `Display`;
--   * Json: the adapters of src/json_date_time_utc.rs and src/json_fixed_offset.rs.
--
-- Numbers are natural numbers with the casts of the code as remainders (`% 2 ^ 8` for `as u8`); an
-- `i64` is an integer. Text is a list of code points with the byte lengths of UTF-8 (Text). The
-- number of digits of a printed number is bounded by 20, and every u64 is below 10 ^ 20. All other
-- loops are recursion on the list or on the count that the code goes through.
--
-- Parameters: the floating-point operations (Numbers), of which nothing is assumed; the calendar of
-- the chrono library (Chrono), of which the theorems on panics assume that the first seconds of
-- 2000 and 2020 exist, those on dates and RMC sentences the year of the latter, the one on GGA
-- sentences a time of day in 2000, and the one on voyage reports the first second of 2000; whether
-- the build checks for overflow; the parser of an `f32`, `from_str_radix` of num_traits and
-- `FixedOffset::east_opt` (Gnss/Libraries); the format of the serde library (Json) and the calls of
-- chrono that its adapters use. Text/Bytes and Text/Integers describe UTF-8 and the parser of an
-- `i32`.
--
-- Not modelled: the texts that the handlers give their errors, and logging; src/ais/vdm_t7.rs,
-- which holds no handler.
--
-- Theorems about a definition stand in the modules below its own (Bits/Pick, Bits/Signed,
-- Bits/Armor, Bits/Chars, Parser/Frame/Sealed, Parser/Frame/Cut, Gnss/Gsv/Order, Parser/Vdm/Keys,
-- Parser/Vdm/Fragments, Gnss/Coordinates/Values, Gnss/Times/Printed, Ais/Vdm/T24/Pairs, ...).
-- Text/Joined puts a sentence together from its fields, and Gnss/Fields/Printed reads numbers in
-- them. Bits/Layout describes a message as its fields, and Bits/Layout/Texts the texts among them,
-- for Ais/Vdm/T1t2t3/Layout, Ais/Vdm/T5/Layout and Ais/Vdm/T18/Layout; Bits/Packing takes the bits
-- as six-bit values. What each handler with the store leaves of the other map stands in
-- Parser/Vdm/Untouched, Gnss/Gsv/Untouched and Ais/Vdm/T24/Untouched.
--
-- Parser/Dispatch/States says what a sentence can do to the state at all (`parse_sentence-state`),
-- in terms of the sentences that carry an AIS message (`Carries`), and `run` is the state behind a
-- list of sentences. Upon it stand Parser/Dispatch/Histories, Growth, Interleaved (with the two
-- halves of a message from Parser/Vdm/Cases and Parser/Vdm/Interleaved), Vessels and Parts (with
-- Ais/Vdm/T24/Apart), and Others and Satellites (with Gnss/Gsv/Apart). Single and Halved write the
-- one or two sentences of a message, for Reports and Voyages; Printed writes a GNSS sentence, for
-- Fixes (GGA, with Gnss/Gga/Printed) and Minimums (RMC, with Gnss/Rmc/Printed); Kinds and Senders
-- tell the kind of message and its sender. Parser/Dispatch/Histories holds the states that a parser
-- can come to (`Reachable`), with what each part keeps of them from Parser/Vdm/Exclusive,
-- Gnss/Gsv/Exclusive and Ais/Vdm/T24/Stored; and Parser/Dispatch/Safety the panics, with the parts
-- that never panic from Ais/Vdm/Total, Gnss/Total, Gnss/Times/Total and Parser/Talker/Total. Runs
-- holds runs on concrete sentences and the theorems at concrete inputs.
pub mod Common
pub mod Text
pub mod Bits
pub mod Numbers
pub mod Chrono
pub mod Eta
pub mod Message
pub mod Store
pub mod Ais
pub mod Gnss
pub mod LatLon
pub mod Parser
pub mod Errors
pub mod Json
pub mod Runs
