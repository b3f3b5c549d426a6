-- ===== src/Outfmt/Snapshot/Tables.antt =====
-- The byte tables of src/outfmt/gensnapshot.py: what a freshly started machine holds in the system
-- variables, the channel data, the area of the user defined graphics and the machine stack.
use zxbasic.Prelude.{ℕ, List, [], ◌∷◌, replicate}

-- KSTATE at 5C00h up to P_RAMT
abbrev pub system_variables : List ℕ
system_variables =
    0xFF ∷ 0x00 ∷ 0x00 ∷ 0x00 ∷ 0x0D ∷ 0x02 ∷ 0x20 ∷ 0x0D ∷ 0x0D ∷ 0x23 ∷ 0x05 ∷ 0x00 ∷ 0x00 ∷ 0x00
    ∷ 0x00 ∷ 0x00 ∷ 0x01 ∷ 0x00 ∷ 0x06 ∷ 0x00 ∷ 0x0B ∷ 0x00 ∷ 0x01 ∷ 0x00 ∷ 0x01 ∷ 0x00 ∷ 0x06
    ∷ 0x00 ∷ 0x10 ∷ 0x00 ∷ 0x00 ∷ 0x00 ∷ 0x00 ∷ 0x00 ∷ 0x00 ∷ 0x00 ∷ 0x00 ∷ 0x00 ∷ 0x00 ∷ 0x00
    ∷ 0x00 ∷ 0x00 ∷ 0x00 ∷ 0x00 ∷ 0x00 ∷ 0x00 ∷ 0x00 ∷ 0x00 ∷ 0x00 ∷ 0x00 ∷ 0x00 ∷ 0x00 ∷ 0x00
    ∷ 0x00 ∷ 0x00 ∷ 0x3C ∷ 0x40 ∷ 0x00 ∷ 0xFF ∷ 0xCC ∷ 0x00 ∷ 0x00 ∷ 0x00 ∷ 0x00 ∷ 0x00 ∷ 0x00
    ∷ 0x00 ∷ 0x00 ∷ 0x00 ∷ 0xFE ∷ 0xFF ∷ 0x01 ∷ 0x38 ∷ 0x00 ∷ 0x00 ∷ 0x00 ∷ 0x00 ∷ 0x00 ∷ 0x00
    ∷ 0xB6 ∷ 0x5C ∷ 0xB6 ∷ 0x5C ∷ 0xCB ∷ 0x5C ∷ 0x00 ∷ 0x00 ∷ 0xCA ∷ 0x5C ∷ 0x00 ∷ 0x00 ∷ 0x00
    ∷ 0x00 ∷ 0x00 ∷ 0x00 ∷ 0x00 ∷ 0x00 ∷ 0x00 ∷ 0x00 ∷ 0x00 ∷ 0x00 ∷ 0x00 ∷ 0x00 ∷ 0x00 ∷ 0x92
    ∷ 0x5C ∷ 0x10 ∷ 0x02 ∷ 0x00 ∷ 0x00 ∷ 0x00 ∷ 0x00 ∷ 0x00 ∷ 0x00 ∷ 0x00 ∷ 0x00 ∷ 0x00 ∷ 0x00
    ∷ 0x00 ∷ 0x00 ∷ 0x00 ∷ 0x00 ∷ 0x00 ∷ 0x58 ∷ 0xFF ∷ 0x00 ∷ 0x00 ∷ 0x21 ∷ 0x00 ∷ 0x5B ∷ 0x21
    ∷ 0x17 ∷ 0x00 ∷ 0x40 ∷ 0xE0 ∷ 0x50 ∷ 0x21 ∷ 0x18 ∷ 0x21 ∷ 0x17 ∷ 0x01 ∷ 0x38 ∷ 0x00 ∷ 0x38
    ∷ 0x00 ∷ 0x00 ∷ 0x00 ∷ 0x00 ∷ 0x00 ∷ 0x00 ∷ 0x00 ∷ 0x00 ∷ 0x00 ∷ 0x00 ∷ 0x00 ∷ 0x00 ∷ 0x00
    ∷ 0x00 ∷ 0x00 ∷ 0x00 ∷ 0x00 ∷ 0x00 ∷ 0x00 ∷ 0x00 ∷ 0x00 ∷ 0x00 ∷ 0x00 ∷ 0x00 ∷ 0x00 ∷ 0x00
    ∷ 0x00 ∷ 0x00 ∷ 0x00 ∷ 0x00 ∷ 0x00 ∷ 0x00 ∷ 0x00 ∷ 0x00 ∷ 0x00 ∷ 0x00 ∷ 0xFF ∷ 0xFF ∷ []

abbrev pub chans_data : List ℕ
chans_data =
    0xF4 ∷ 0x09 ∷ 0xA8 ∷ 0x10 ∷ 0x4B ∷ 0xF4 ∷ 0x09 ∷ 0xC4 ∷ 0x15 ∷ 0x53 ∷ 0x81 ∷ 0x0F ∷ 0xC4 ∷ 0x15
    ∷ 0x52 ∷ 0xF4 ∷ 0x09 ∷ 0xC4 ∷ 0x15 ∷ 0x50 ∷ 0x80 ∷ []

-- The end of the variables area, the edit line with RUN, the calculator stack.
abbrev pub edit_line : List ℕ
edit_line = 0x80 ∷ 0xF7 ∷ 0x0D ∷ 0x80 ∷ []

-- MAIN_4 and the end marker of the GOSUB stack.
abbrev pub stack_bytes : List ℕ
stack_bytes = 0x03 ∷ 0x13 ∷ 0x00 ∷ 0x3E ∷ []

abbrev pub udg_bytes : List ℕ
udg_bytes =
    0x00 ∷ 0x3C ∷ 0x42 ∷ 0x42 ∷ 0x7E ∷ 0x42 ∷ 0x42 ∷ 0x00 ∷ 0x00 ∷ 0x7C ∷ 0x42 ∷ 0x7C ∷ 0x42 ∷ 0x42
    ∷ 0x7C ∷ 0x00 ∷ 0x00 ∷ 0x3C ∷ 0x42 ∷ 0x40 ∷ 0x40 ∷ 0x42 ∷ 0x3C ∷ 0x00 ∷ 0x00 ∷ 0x78 ∷ 0x44
    ∷ 0x42 ∷ 0x42 ∷ 0x44 ∷ 0x78 ∷ 0x00 ∷ 0x00 ∷ 0x7E ∷ 0x40 ∷ 0x7C ∷ 0x40 ∷ 0x40 ∷ 0x7E ∷ 0x00
    ∷ 0x00 ∷ 0x7E ∷ 0x40 ∷ 0x7C ∷ 0x40 ∷ 0x40 ∷ 0x40 ∷ 0x00 ∷ 0x00 ∷ 0x3C ∷ 0x42 ∷ 0x40 ∷ 0x4E
    ∷ 0x42 ∷ 0x3C ∷ 0x00 ∷ 0x00 ∷ 0x42 ∷ 0x42 ∷ 0x7E ∷ 0x42 ∷ 0x42 ∷ 0x42 ∷ 0x00 ∷ 0x00 ∷ 0x3E
    ∷ 0x08 ∷ 0x08 ∷ 0x08 ∷ 0x08 ∷ 0x3E ∷ 0x00 ∷ 0x00 ∷ 0x02 ∷ 0x02 ∷ 0x02 ∷ 0x42 ∷ 0x42 ∷ 0x3C
    ∷ 0x00 ∷ 0x00 ∷ 0x44 ∷ 0x48 ∷ 0x70 ∷ 0x48 ∷ 0x44 ∷ 0x42 ∷ 0x00 ∷ 0x00 ∷ 0x40 ∷ 0x40 ∷ 0x40
    ∷ 0x40 ∷ 0x40 ∷ 0x7E ∷ 0x00 ∷ 0x00 ∷ 0x42 ∷ 0x66 ∷ 0x5A ∷ 0x42 ∷ 0x42 ∷ 0x42 ∷ 0x00 ∷ 0x00
    ∷ 0x42 ∷ 0x62 ∷ 0x52 ∷ 0x4A ∷ 0x46 ∷ 0x42 ∷ 0x00 ∷ 0x00 ∷ 0x3C ∷ 0x42 ∷ 0x42 ∷ 0x42 ∷ 0x42
    ∷ 0x3C ∷ 0x00 ∷ 0x00 ∷ 0x7C ∷ 0x42 ∷ 0x42 ∷ 0x7C ∷ 0x40 ∷ 0x40 ∷ 0x00 ∷ 0x00 ∷ 0x3C ∷ 0x42
    ∷ 0x42 ∷ 0x52 ∷ 0x4A ∷ 0x3C ∷ 0x00 ∷ 0x00 ∷ 0x7C ∷ 0x42 ∷ 0x42 ∷ 0x7C ∷ 0x44 ∷ 0x42 ∷ 0x00
    ∷ 0x00 ∷ 0x3C ∷ 0x40 ∷ 0x3C ∷ 0x02 ∷ 0x42 ∷ 0x3C ∷ 0x00 ∷ 0x00 ∷ 0xFE ∷ 0x10 ∷ 0x10 ∷ 0x10
    ∷ 0x10 ∷ 0x10 ∷ 0x00 ∷ 0x00 ∷ 0x42 ∷ 0x42 ∷ 0x42 ∷ 0x42 ∷ 0x42 ∷ 0x3C ∷ 0x00 ∷ []

unfoldable pub zeros : ℕ → List ℕ
zeros n = replicate n 0

-- `b"\x38" * 768`, all paper 7 and ink 0
unfoldable pub attributes : List ℕ
attributes = replicate 768 0x38
