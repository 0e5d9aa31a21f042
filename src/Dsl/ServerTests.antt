-- ===== src/Dsl/ServerTests.antt =====
-- The language server at a small mission.
use steeleagle.Prelude.{ℕ, ◌≡◌, refl, true, none, some, List, [], ◌∷◌, map, codes, has_prefix}
use steeleagle.Dsl.Registry.{strip_left, strip_right}
use steeleagle.Dsl.Server.{data_section, detect_section, ident_prefix, is_value_position, heading}
use steeleagle.Dsl.Server.Places.{reading, detect_section-reading}

abbrev mission : List (List ℕ)
mission =
    map codes ("Data:" ∷ "    Location home(latitude = 4)" ∷ "Actions:" ∷ "    TakeOff take" ∷ [])

-- The cursor stands behind the equals sign, and then in the name of an action.
section_of_line : detect_section mission 1 ≡ some data_section
unfolding detect_section heading has_prefix strip_left strip_right
section_of_line = refl

word_at_cursor : ident_prefix (codes "x = Loca") ≡ codes "Loca"
unfolding ident_prefix
word_at_cursor = refl

value_at_cursor : is_value_position (codes "x = Loca") (codes "Loca") ≡ true
unfolding is_value_position
value_at_cursor = refl

detect_section-reading_example : detect_section mission 7 ≡ reading none mission 8
detect_section-reading_example = detect_section-reading mission 7
