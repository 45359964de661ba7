-- ===== src/AsciiGlob/Runs.antt =====
-- Runs of the matcher, and its theorems at concrete patterns.
use unity_common.Base.{
  ℕ, ◌≤◌, ◌≡◌, ◌↔◌, refl, Bool, true, false, some, List, [], ◌∷◌, arith, get_or,
}
use unity_common.Base.Words.{Bytes}
use unity_common.AsciiGlob.{Status, locate_end, star_row, byte_row, last_of, ascii_glob_match}
use unity_common.AsciiGlob.Rows.{Splits, locate_end-split, star_row-get}

-- "a*[b-d]?", "abcx", "abex" and "[b-"
abbrev pattern : Bytes
pattern = 0x61 ∷ 0x2a ∷ 0x5b ∷ 0x62 ∷ 0x2d ∷ 0x64 ∷ 0x5d ∷ 0x3f ∷ []

abbrev accepted_text : Bytes
accepted_text = 0x61 ∷ 0x62 ∷ 0x63 ∷ 0x78 ∷ []

abbrev other_text : Bytes
other_text = 0x61 ∷ 0x62 ∷ 0x65 ∷ 0x78 ∷ []

abbrev open_class : Bytes
open_class = 0x5b ∷ 0x62 ∷ 0x2d ∷ []

accepts : ascii_glob_match true (some pattern) (some accepted_text) ≡ some (Status.ok, true)
unfolding ascii_glob_match star_row byte_row last_of
accepts = refl

refuses : ascii_glob_match true (some pattern) (some other_text) ≡ some (Status.ok, false)
unfolding ascii_glob_match star_row byte_row last_of
refuses = refl

malformed :
    ascii_glob_match true (some open_class) (some other_text)
    ≡ some (Status.malformed_pattern, false)
unfolding ascii_glob_match
malformed = refl

abbrev class_text : Bytes
class_text = 0x62 ∷ 0x5c ∷ 0x5d ∷ 0x5d ∷ 0x3f ∷ []

located : locate_end false class_text ≡ some (0x62 ∷ 0x5c ∷ 0x5d ∷ [], 0x3f ∷ [])
unfolding locate_end
located = refl

locate_end-split_example :
    (locate_end false class_text ≡ some (0x62 ∷ 0x5c ∷ 0x5d ∷ [], 0x3f ∷ []))
    ↔ Splits class_text (0x62 ∷ 0x5c ∷ 0x5d ∷ []) (0x3f ∷ [])
locate_end-split_example = locate_end-split class_text (0x62 ∷ 0x5c ∷ 0x5d ∷ []) (0x3f ∷ [])

abbrev row : List Bool
row = false ∷ true ∷ false ∷ []

star_row-get_example :
    (get_or (star_row false row) 2 false ≡ true) ↔ ((j : ℕ) × (j ≤ 2) × (get_or row j false ≡ true))
star_row-get_example = star_row-get row 2 (omega arith)
