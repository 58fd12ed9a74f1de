-- ===== src/Ais/Country.antt =====
-- ais/mod.rs: the country of a vessel, from the first three digits of its MMSI.
use nmea_parser.Common.{ℕ, ◌/◌, Option, none, some, List, [], ◌∷◌, ◌==◌, if◌then◌else◌}
use nmea_parser.Text.{Text, codes}
use nmea_parser.Ais.Data.{VesselStaticData}

-- The arms of the match, in their order.
abbrev pub countries : List (ℕ × Text)
countries =
    (201, codes "AL")
    ∷ (202, codes "AD")
    ∷ (203, codes "AT")
    ∷ (204, codes "PT")
    ∷ (205, codes "BE")
    ∷ (206, codes "BY")
    ∷ (207, codes "BG")
    ∷ (208, codes "VA")
    ∷ (209, codes "CY")
    ∷ (210, codes "CY")
    ∷ (211, codes "DE")
    ∷ (212, codes "CY")
    ∷ (213, codes "GE")
    ∷ (214, codes "MD")
    ∷ (215, codes "MT")
    ∷ (216, codes "AM")
    ∷ (218, codes "DE")
    ∷ (219, codes "DK")
    ∷ (220, codes "DK")
    ∷ (224, codes "ES")
    ∷ (225, codes "ES")
    ∷ (226, codes "FR")
    ∷ (227, codes "FR")
    ∷ (228, codes "FR")
    ∷ (229, codes "MT")
    ∷ (230, codes "FI")
    ∷ (231, codes "FO")
    ∷ (232, codes "GB")
    ∷ (233, codes "GB")
    ∷ (234, codes "GB")
    ∷ (235, codes "GB")
    ∷ (236, codes "GI")
    ∷ (237, codes "GR")
    ∷ (238, codes "HR")
    ∷ (239, codes "GR")
    ∷ (240, codes "GR")
    ∷ (241, codes "GR")
    ∷ (242, codes "MA")
    ∷ (243, codes "HU")
    ∷ (244, codes "NL")
    ∷ (245, codes "NL")
    ∷ (246, codes "NL")
    ∷ (247, codes "IT")
    ∷ (248, codes "MT")
    ∷ (249, codes "MT")
    ∷ (250, codes "IE")
    ∷ (251, codes "IS")
    ∷ (252, codes "LI")
    ∷ (253, codes "LU")
    ∷ (254, codes "MC")
    ∷ (255, codes "PT")
    ∷ (256, codes "MT")
    ∷ (257, codes "NO")
    ∷ (258, codes "NO")
    ∷ (259, codes "NO")
    ∷ (261, codes "PL")
    ∷ (262, codes "ME")
    ∷ (263, codes "PT")
    ∷ (264, codes "RO")
    ∷ (265, codes "SE")
    ∷ (266, codes "SE")
    ∷ (267, codes "SK")
    ∷ (268, codes "SM")
    ∷ (269, codes "CH")
    ∷ (270, codes "CZ")
    ∷ (271, codes "TR")
    ∷ (272, codes "UA")
    ∷ (273, codes "RU")
    ∷ (274, codes "MK")
    ∷ (275, codes "LV")
    ∷ (276, codes "EE")
    ∷ (277, codes "LT")
    ∷ (278, codes "SI")
    ∷ (279, codes "RS")
    ∷ (301, codes "AI")
    ∷ (303, codes "US")
    ∷ (304, codes "AG")
    ∷ (305, codes "AG")
    ∷ (306, codes "BQ")
    ∷ (307, codes "AW")
    ∷ (308, codes "BS")
    ∷ (309, codes "BS")
    ∷ (310, codes "BM")
    ∷ (311, codes "BS")
    ∷ (312, codes "BZ")
    ∷ (314, codes "BB")
    ∷ (316, codes "CA")
    ∷ (319, codes "KY")
    ∷ (321, codes "CR")
    ∷ (323, codes "CU")
    ∷ (325, codes "DM")
    ∷ (327, codes "DO")
    ∷ (329, codes "GP")
    ∷ (330, codes "GD")
    ∷ (331, codes "GL")
    ∷ (332, codes "GT")
    ∷ (334, codes "HN")
    ∷ (336, codes "HT")
    ∷ (338, codes "US")
    ∷ (339, codes "JM")
    ∷ (341, codes "KN")
    ∷ (343, codes "LC")
    ∷ (345, codes "MX")
    ∷ (347, codes "MQ")
    ∷ (348, codes "MS")
    ∷ (350, codes "NI")
    ∷ (351, codes "PA")
    ∷ (352, codes "PA")
    ∷ (353, codes "PA")
    ∷ (354, codes "PA")
    ∷ (355, codes "PA")
    ∷ (356, codes "PA")
    ∷ (357, codes "PA")
    ∷ (358, codes "PR")
    ∷ (359, codes "SV")
    ∷ (361, codes "PM")
    ∷ (362, codes "TT")
    ∷ (364, codes "TC")
    ∷ (366, codes "US")
    ∷ (367, codes "US")
    ∷ (368, codes "US")
    ∷ (369, codes "US")
    ∷ (370, codes "PA")
    ∷ (371, codes "PA")
    ∷ (372, codes "PA")
    ∷ (373, codes "PA")
    ∷ (374, codes "PA")
    ∷ (375, codes "VC")
    ∷ (376, codes "VC")
    ∷ (377, codes "VC")
    ∷ (378, codes "VG")
    ∷ (379, codes "VI")
    ∷ (401, codes "AF")
    ∷ (403, codes "SA")
    ∷ (405, codes "BD")
    ∷ (408, codes "BH")
    ∷ (410, codes "BT")
    ∷ (412, codes "CN")
    ∷ (413, codes "CN")
    ∷ (414, codes "CN")
    ∷ (416, codes "TW")
    ∷ (417, codes "LK")
    ∷ (419, codes "IN")
    ∷ (422, codes "IR")
    ∷ (423, codes "AZ")
    ∷ (425, codes "IQ")
    ∷ (428, codes "IL")
    ∷ (431, codes "JP")
    ∷ (432, codes "JP")
    ∷ (434, codes "TM")
    ∷ (436, codes "KZ")
    ∷ (437, codes "UZ")
    ∷ (438, codes "JO")
    ∷ (440, codes "KR")
    ∷ (441, codes "KR")
    ∷ (443, codes "PS")
    ∷ (445, codes "KR")
    ∷ (447, codes "KW")
    ∷ (450, codes "LB")
    ∷ (451, codes "KG")
    ∷ (453, codes "MO")
    ∷ (455, codes "MV")
    ∷ (457, codes "MN")
    ∷ (459, codes "NP")
    ∷ (461, codes "OM")
    ∷ (463, codes "PK")
    ∷ (466, codes "QA")
    ∷ (468, codes "SY")
    ∷ (470, codes "AE")
    ∷ (471, codes "AE")
    ∷ (472, codes "TJ")
    ∷ (473, codes "YE")
    ∷ (475, codes "YE")
    ∷ (477, codes "HK")
    ∷ (478, codes "BA")
    ∷ (501, codes "TF")
    ∷ (503, codes "AU")
    ∷ (506, codes "MM")
    ∷ (508, codes "BN")
    ∷ (510, codes "FM")
    ∷ (511, codes "PW")
    ∷ (512, codes "NZ")
    ∷ (514, codes "KH")
    ∷ (515, codes "KH")
    ∷ (516, codes "CX")
    ∷ (518, codes "CK")
    ∷ (520, codes "FJ")
    ∷ (523, codes "CC")
    ∷ (525, codes "ID")
    ∷ (529, codes "KI")
    ∷ (531, codes "LA")
    ∷ (533, codes "MY")
    ∷ (536, codes "MP")
    ∷ (538, codes "MH")
    ∷ (540, codes "NC")
    ∷ (542, codes "NU")
    ∷ (544, codes "NR")
    ∷ (546, codes "PF")
    ∷ (548, codes "PH")
    ∷ (550, codes "TL")
    ∷ (553, codes "PG")
    ∷ (555, codes "PN")
    ∷ (557, codes "SB")
    ∷ (559, codes "AS")
    ∷ (561, codes "WS")
    ∷ (563, codes "SG")
    ∷ (564, codes "SG")
    ∷ (565, codes "SG")
    ∷ (566, codes "SG")
    ∷ (567, codes "TH")
    ∷ (570, codes "TO")
    ∷ (572, codes "TV")
    ∷ (574, codes "VN")
    ∷ (576, codes "VU")
    ∷ (577, codes "VU")
    ∷ (578, codes "WF")
    ∷ (601, codes "ZA")
    ∷ (603, codes "AO")
    ∷ (605, codes "DZ")
    ∷ (607, codes "TF")
    ∷ (608, codes "SH")
    ∷ (609, codes "BI")
    ∷ (610, codes "BJ")
    ∷ (611, codes "BW")
    ∷ (612, codes "CF")
    ∷ (613, codes "CM")
    ∷ (615, codes "CG")
    ∷ (616, codes "KM")
    ∷ (617, codes "CV")
    ∷ (618, codes "TF")
    ∷ (619, codes "CI")
    ∷ (620, codes "KM")
    ∷ (621, codes "DJ")
    ∷ (622, codes "EG")
    ∷ (624, codes "ET")
    ∷ (625, codes "ER")
    ∷ (626, codes "GA")
    ∷ (627, codes "GH")
    ∷ (629, codes "GM")
    ∷ (630, codes "GW")
    ∷ (631, codes "GQ")
    ∷ (632, codes "GN")
    ∷ (633, codes "BF")
    ∷ (634, codes "KE")
    ∷ (635, codes "TF")
    ∷ (636, codes "LR")
    ∷ (637, codes "LR")
    ∷ (638, codes "SS")
    ∷ (642, codes "LY")
    ∷ (644, codes "LS")
    ∷ (645, codes "MU")
    ∷ (647, codes "MG")
    ∷ (649, codes "ML")
    ∷ (650, codes "MZ")
    ∷ (654, codes "MR")
    ∷ (655, codes "MW")
    ∷ (656, codes "NE")
    ∷ (657, codes "NG")
    ∷ (659, codes "NA")
    ∷ (660, codes "TF")
    ∷ (661, codes "RW")
    ∷ (662, codes "SD")
    ∷ (663, codes "SN")
    ∷ (664, codes "SC")
    ∷ (665, codes "SH")
    ∷ (666, codes "SO")
    ∷ (667, codes "SL")
    ∷ (668, codes "ST")
    ∷ (669, codes "SZ")
    ∷ (670, codes "TD")
    ∷ (671, codes "TG")
    ∷ (672, codes "TN")
    ∷ (674, codes "TZ")
    ∷ (675, codes "UG")
    ∷ (676, codes "CG")
    ∷ (677, codes "TZ")
    ∷ (678, codes "ZM")
    ∷ (679, codes "ZW")
    ∷ (701, codes "AR")
    ∷ (710, codes "BR")
    ∷ (720, codes "BO")
    ∷ (725, codes "CL")
    ∷ (730, codes "CO")
    ∷ (735, codes "EC")
    ∷ (740, codes "FK")
    ∷ (745, codes "GF")
    ∷ (750, codes "GY")
    ∷ (755, codes "PY")
    ∷ (760, codes "PE")
    ∷ (765, codes "SR")
    ∷ (770, codes "UY")
    ∷ (775, codes "VE")
    ∷ []

abbrev pub first_match : ℕ → List (ℕ × Text) → Option Text
first_match mid [] = none
first_match mid ((m, name) ∷ arms) = if mid == m then some name else first_match mid arms

unfoldable pub country : {T : Type 0} → VesselStaticData T → Option Text
country self = first_match (self.mmsi / 1000000) countries
