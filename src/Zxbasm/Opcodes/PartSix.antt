-- ===== src/Zxbasm/Opcodes/PartSix.antt =====
-- src/zxbasm/z80.py: lines 709 to 847 of the table `Z80SET`.
use zxbasic.Prelude.{List, [], ◌∷◌}
use zxbasic.Zxbasm.Opcodes.Entry.{Opcode, entry}

unfoldable pub part_six : List Opcode
part_six =
    entry "XOR B" "XOR B" 4 1 "A8"
    ∷ entry "XOR E" "XOR E" 4 1 "AB"
    ∷ entry "XOR D" "XOR D" 4 1 "AA"
    ∷ entry "XOR H" "XOR H" 4 1 "AC"
    ∷ entry "XOR L" "XOR L" 4 1 "AD"
    ∷ entry "XOR N" "XOR N" 7 2 "EE XX"
    ∷ entry "SLL A" "SLL A" 8 2 "CB 37"
    ∷ entry "SLL C" "SLL C" 8 2 "CB 31"
    ∷ entry "SLL B" "SLL B" 8 2 "CB 30"
    ∷ entry "SLL E" "SLL E" 8 2 "CB 33"
    ∷ entry "SLL D" "SLL D" 8 2 "CB 32"
    ∷ entry "SLL H" "SLL H" 8 2 "CB 34"
    ∷ entry "SLL L" "SLL L" 8 2 "CB 35"
    ∷ entry "SLL (HL)" "SLL (HL)" 15 2 "CB 36"
    ∷ entry "SLL (IX+N)" "SLL (IX+N)" 19 4 "DD CB XX 36"
    ∷ entry "SLL (IY+N)" "SLL (IY+N)" 19 4 "FD CB XX 36"
    ∷ entry "INC IXH" "INC IXH" 8 2 "DD 24"
    ∷ entry "DEC IXH" "DEC IXH" 8 2 "DD 25"
    ∷ entry "INC IXL" "INC IXL" 8 2 "DD 2C"
    ∷ entry "DEC IXL" "DEC IXL" 8 2 "DD 2D"
    ∷ entry "INC IYH" "INC IYH" 8 2 "FD 24"
    ∷ entry "DEC IYH" "DEC IYH" 8 2 "FD 25"
    ∷ entry "INC IYL" "INC IYL" 8 2 "FD 2C"
    ∷ entry "DEC IYL" "DEC IYL" 8 2 "FD 2D"
    ∷ entry "LD IXH,N" "LD IXH,N" 12 3 "DD 26 XX"
    ∷ entry "LD IXL,N" "LD IXL,N" 12 3 "DD 2E XX"
    ∷ entry "LD IYH,N" "LD IYH,N" 12 3 "FD 26 XX"
    ∷ entry "LD IYL,N" "LD IYL,N" 12 3 "FD 2E XX"
    ∷ entry "LD A,IXH" "LD A,IXH" 8 2 "DD 7C"
    ∷ entry "LD A,IXL" "LD A,IXL" 8 2 "DD 7D"
    ∷ entry "LD B,IXH" "LD B,IXH" 8 2 "DD 44"
    ∷ entry "LD B,IXL" "LD B,IXL" 8 2 "DD 45"
    ∷ entry "LD C,IXH" "LD C,IXH" 8 2 "DD 4C"
    ∷ entry "LD C,IXL" "LD C,IXL" 8 2 "DD 4D"
    ∷ entry "LD D,IXH" "LD D,IXH" 8 2 "DD 54"
    ∷ entry "LD D,IXL" "LD D,IXL" 8 2 "DD 55"
    ∷ entry "LD E,IXH" "LD E,IXH" 8 2 "DD 5C"
    ∷ entry "LD E,IXL" "LD E,IXL" 8 2 "DD 5D"
    ∷ entry "LD A,IYH" "LD A,IYH" 8 2 "FD 7C"
    ∷ entry "LD A,IYL" "LD A,IYL" 8 2 "FD 7D"
    ∷ entry "LD B,IYH" "LD B,IYH" 8 2 "FD 44"
    ∷ entry "LD B,IYL" "LD B,IYL" 8 2 "FD 45"
    ∷ entry "LD C,IYH" "LD C,IYH" 8 2 "FD 4C"
    ∷ entry "LD C,IYL" "LD C,IYL" 8 2 "FD 4D"
    ∷ entry "LD D,IYH" "LD D,IYH" 8 2 "FD 54"
    ∷ entry "LD D,IYL" "LD D,IYL" 8 2 "FD 55"
    ∷ entry "LD E,IYH" "LD E,IYH" 8 2 "FD 5C"
    ∷ entry "LD E,IYL" "LD E,IYL" 8 2 "FD 5D"
    ∷ entry "LD IXH,B" "LD IXH,B" 8 2 "DD 60"
    ∷ entry "LD IXH,C" "LD IXH,C" 8 2 "DD 61"
    ∷ entry "LD IXH,D" "LD IXH,D" 8 2 "DD 62"
    ∷ entry "LD IXH,E" "LD IXH,E" 8 2 "DD 63"
    ∷ entry "LD IXH,IXH" "LD IXH,IXH" 8 2 "DD 64"
    ∷ entry "LD IXH,IXL" "LD IXH,IXL" 8 2 "DD 65"
    ∷ entry "LD IXH,A" "LD IXH,A" 8 2 "DD 67"
    ∷ entry "LD IXL,B" "LD IXL,B" 8 2 "DD 68"
    ∷ entry "LD IXL,C" "LD IXL,C" 8 2 "DD 69"
    ∷ entry "LD IXL,D" "LD IXL,D" 8 2 "DD 6A"
    ∷ entry "LD IXL,E" "LD IXL,E" 8 2 "DD 6B"
    ∷ entry "LD IXL,IXH" "LD IXL,IXH" 8 2 "DD 6C"
    ∷ entry "LD IXL,IXL" "LD IXL,IXL" 8 2 "DD 6D"
    ∷ entry "LD IXL,A" "LD IXL,A" 8 2 "DD 6F"
    ∷ entry "LD IYH,B" "LD IYH,B" 8 2 "FD 60"
    ∷ entry "LD IYH,C" "LD IYH,C" 8 2 "FD 61"
    ∷ entry "LD IYH,D" "LD IYH,D" 8 2 "FD 62"
    ∷ entry "LD IYH,E" "LD IYH,E" 8 2 "FD 63"
    ∷ entry "LD IYH,IYH" "LD IYH,IYH" 8 2 "DD 64"
    ∷ entry "LD IYH,IYL" "LD IYH,IYL" 8 2 "DD 65"
    ∷ entry "LD IYH,A" "LD IYH,A" 8 2 "FD 67"
    ∷ entry "LD IYL,B" "LD IYL,B" 8 2 "FD 68"
    ∷ entry "LD IYL,C" "LD IYL,C" 8 2 "FD 69"
    ∷ entry "LD IYL,D" "LD IYL,D" 8 2 "FD 6A"
    ∷ entry "LD IYL,E" "LD IYL,E" 8 2 "FD 6B"
    ∷ entry "LD IYL,IYH" "LD IYL,IYH" 8 2 "FD 6C"
    ∷ entry "LD IYL,IYL" "LD IYL,IYL" 8 2 "FD 6D"
    ∷ entry "LD IYL,A" "LD IYL,A" 8 2 "FD 6F"
    ∷ entry "ADD A,IXH" "ADD A,IXH" 8 2 "DD 84"
    ∷ entry "ADD A,IXL" "ADD A,IXL" 8 2 "DD 85"
    ∷ entry "ADC A,IXH" "ADC A,IXH" 8 2 "DD 8C"
    ∷ entry "ADC A,IXL" "ADC A,IXL" 8 2 "DD 8D"
    ∷ entry "ADD A,IYH" "ADD A,IYH" 8 2 "FD 84"
    ∷ entry "ADD A,IYL" "ADD A,IYL" 8 2 "FD 85"
    ∷ entry "ADC A,IYH" "ADC A,IYH" 8 2 "FD 8C"
    ∷ entry "ADC A,IYL" "ADC A,IYL" 8 2 "FD 8D"
    ∷ entry "SUB IXH" "SUB IXH" 8 2 "DD 94"
    ∷ entry "SUB IXL" "SUB IXL" 8 2 "DD 95"
    ∷ entry "SBC A,IXH" "SBC A,IXH" 8 2 "DD 9C"
    ∷ entry "SBC A,IXL" "SBC A,IXL" 8 2 "DD 9D"
    ∷ entry "SUB IYH" "SUB IYH" 8 2 "FD 94"
    ∷ entry "SUB IYL" "SUB IYL" 8 2 "FD 95"
    ∷ entry "SBC A,IYH" "SBC A,IYH" 8 2 "FD 9C"
    ∷ entry "SBC A,IYL" "SBC A,IYL" 8 2 "FD 9D"
    ∷ entry "AND IXH" "AND IXH" 8 2 "DD A4"
    ∷ entry "AND IXL" "AND IXL" 8 2 "DD A5"
    ∷ entry "AND IYH" "AND IYH" 8 2 "FD A4"
    ∷ entry "AND IYL" "AND IYL" 8 2 "FD A5"
    ∷ entry "XOR IXH" "XOR IXH" 8 2 "DD AC"
    ∷ entry "XOR IXL" "XOR IXL" 8 2 "DD AD"
    ∷ entry "XOR IYH" "XOR IYH" 8 2 "FD AC"
    ∷ entry "XOR IYL" "XOR IYL" 8 2 "FD AD"
    ∷ entry "OR IXH" "OR IXH" 8 2 "DD B4"
    ∷ entry "OR IXL" "OR IXL" 8 2 "DD B5"
    ∷ entry "OR IYH" "OR IYH" 8 2 "FD B4"
    ∷ entry "OR IYL" "OR IYL" 8 2 "FD B5"
    ∷ entry "CP IXH" "CP IXH" 8 2 "DD BC"
    ∷ entry "CP IXL" "CP IXL" 8 2 "DD BD"
    ∷ entry "CP IYH" "CP IYH" 8 2 "FD BC"
    ∷ entry "CP IYL" "CP IYL" 8 2 "FD BD"
    ∷ entry "LDIX" "LDIX" 16 2 "ED A4"
    ∷ entry "LDWS" "LDWS" 14 2 "ED A5"
    ∷ entry "LDIRX" "LDIRX" 21 2 "ED B4"
    ∷ entry "LDDX" "LDDX" 16 2 "ED AC"
    ∷ entry "LDDRX" "LDDRX" 21 2 "ED BC"
    ∷ entry "LDPIRX" "LDPIRX" 21 2 "ED B7"
    ∷ entry "OUTINB" "OUTINB" 16 2 "ED 90"
    ∷ entry "MUL D,E" "MUL D,E" 8 2 "ED 30"
    ∷ entry "ADD HL,A" "ADD HL,A" 8 2 "ED 31"
    ∷ entry "ADD DE,A" "ADD DE,A" 8 2 "ED 32"
    ∷ entry "ADD BC,A" "ADD BC,A" 8 2 "ED 33"
    ∷ entry "ADD HL,NN" "ADD HL,NN" 16 4 "ED 34 XX XX"
    ∷ entry "ADD DE,NN" "ADD DE,NN" 16 4 "ED 35 XX XX"
    ∷ entry "ADD BC,NN" "ADD BC,NN" 16 4 "ED 36 XX XX"
    ∷ entry "SWAPNIB" "SWAPNIB" 8 2 "ED 23"
    ∷ entry "MIRROR" "MIRROR" 8 2 "ED 24"
    ∷ entry "PUSH NN" "PUSH NN" 23 4 "ED 8A XX XX"
    ∷ entry "NEXTREG N,N" "NEXTREG N,N" 20 4 "ED 91 XX XX"
    ∷ entry "NEXTREG N,A" "NEXTREG N,A" 17 3 "ED 92 XX"
    ∷ entry "PIXELDN" "PIXELDN" 8 2 "ED 93"
    ∷ entry "PIXELAD" "PIXELAD" 8 2 "ED 94"
    ∷ entry "SETAE" "SETAE" 8 2 "ED 95"
    ∷ entry "TEST N" "TEST N" 11 3 "ED 27 XX"
    ∷ entry "BSLA DE,B" "BSLA DE,B" 8 2 "ED 28"
    ∷ entry "BSRA DE,B" "BSRA DE,B" 8 2 "ED 29"
    ∷ entry "BSRL DE,B" "BSRL DE,B" 8 2 "ED 2A"
    ∷ entry "BSRF DE,B" "BSRF DE,B" 8 2 "ED 2B"
    ∷ entry "BRLC DE,B" "BRLC DE,B" 8 2 "ED 2C"
    ∷ entry "JP (C)" "JP (C)" 13 2 "ED 98"
    ∷ []
