-- ===== src/Zxbasm/Opcodes/PartThree.antt =====
-- src/zxbasm/z80.py: lines 295 to 432 of the table `Z80SET`.
use zxbasic.Prelude.{List, [], ◌∷◌}
use zxbasic.Zxbasm.Opcodes.Entry.{Opcode, entry}

unfoldable pub part_three : List Opcode
part_three =
    entry "LD A,I" "LD A,I" 9 2 "ED 57"
    ∷ entry "LD A,N" "LD A,N" 7 2 "3E XX"
    ∷ entry "LD A,R" "LD A,R" 4 2 "ED 5F"
    ∷ entry "LD B,(HL)" "LD B,(HL)" 7 1 "46"
    ∷ entry "LD B,(IX+N)" "LD B,(IX+N)" 19 3 "DD 46 XX"
    ∷ entry "LD B,(IY+N)" "LD B,(IY+N)" 19 3 "FD 46 XX"
    ∷ entry "LD B,A" "LD B,A" 4 1 "47"
    ∷ entry "LD B,C" "LD B,C" 4 1 "41"
    ∷ entry "LD B,B" "LD B,B" 4 1 "40"
    ∷ entry "LD B,E" "LD B,E" 4 1 "43"
    ∷ entry "LD B,D" "LD B,D" 4 1 "42"
    ∷ entry "LD B,H" "LD B,H" 4 1 "44"
    ∷ entry "LD B,L" "LD B,L" 4 1 "45"
    ∷ entry "LD B,N" "LD B,N" 7 2 "06 XX"
    ∷ entry "LD BC,(NN)" "LD BC,(NN)" 20 4 "ED 4B XX XX"
    ∷ entry "LD BC,NN" "LD BC,NN" 10 3 "01 XX XX"
    ∷ entry "LD C,(HL)" "LD C,(HL)" 7 1 "4E"
    ∷ entry "LD C,(IX+N)" "LD C,(IX+N)" 19 3 "DD 4E XX"
    ∷ entry "LD C,(IY+N)" "LD C,(IY+N)" 19 3 "FD 4E XX"
    ∷ entry "LD C,A" "LD C,A" 4 1 "4F"
    ∷ entry "LD C,C" "LD C,C" 4 1 "49"
    ∷ entry "LD C,B" "LD C,B" 4 1 "48"
    ∷ entry "LD C,E" "LD C,E" 4 1 "4B"
    ∷ entry "LD C,D" "LD C,D" 4 1 "4A"
    ∷ entry "LD C,H" "LD C,H" 4 1 "4C"
    ∷ entry "LD C,L" "LD C,L" 4 1 "4D"
    ∷ entry "LD C,N" "LD C,N" 7 2 "0E XX"
    ∷ entry "LD D,(HL)" "LD D,(HL)" 7 1 "56"
    ∷ entry "LD D,(IX+N)" "LD D,(IX+N)" 19 3 "DD 56 XX"
    ∷ entry "LD D,(IY+N)" "LD D,(IY+N)" 19 3 "FD 56 XX"
    ∷ entry "LD D,A" "LD D,A" 4 1 "57"
    ∷ entry "LD D,C" "LD D,C" 4 1 "51"
    ∷ entry "LD D,B" "LD D,B" 4 1 "50"
    ∷ entry "LD D,E" "LD D,E" 4 1 "53"
    ∷ entry "LD D,D" "LD D,D" 4 1 "52"
    ∷ entry "LD D,H" "LD D,H" 4 1 "54"
    ∷ entry "LD D,L" "LD D,L" 4 1 "55"
    ∷ entry "LD D,N" "LD D,N" 7 2 "16 XX"
    ∷ entry "LD DE,(NN)" "LD DE,(NN)" 20 4 "ED 5B XX XX"
    ∷ entry "LD DE,NN" "LD DE,NN" 10 3 "11 XX XX"
    ∷ entry "LD E,(HL)" "LD E,(HL)" 7 1 "5E"
    ∷ entry "LD E,(IX+N)" "LD E,(IX+N)" 19 3 "DD 5E XX"
    ∷ entry "LD E,(IY+N)" "LD E,(IY+N)" 19 3 "FD 5E XX"
    ∷ entry "LD E,A" "LD E,A" 4 1 "5F"
    ∷ entry "LD E,C" "LD E,C" 4 1 "59"
    ∷ entry "LD E,B" "LD E,B" 4 1 "58"
    ∷ entry "LD E,E" "LD E,E" 4 1 "5B"
    ∷ entry "LD E,D" "LD E,D" 4 1 "5A"
    ∷ entry "LD E,H" "LD E,H" 4 1 "5C"
    ∷ entry "LD E,L" "LD E,L" 4 1 "5D"
    ∷ entry "LD E,N" "LD E,N" 7 2 "1E XX"
    ∷ entry "LD H,(HL)" "LD H,(HL)" 7 1 "66"
    ∷ entry "LD H,(IX+N)" "LD H,(IX+N)" 19 3 "DD 66 XX"
    ∷ entry "LD H,(IY+N)" "LD H,(IY+N)" 19 3 "FD 66 XX"
    ∷ entry "LD H,A" "LD H,A" 4 1 "67"
    ∷ entry "LD H,C" "LD H,C" 4 1 "61"
    ∷ entry "LD H,B" "LD H,B" 4 1 "60"
    ∷ entry "LD H,E" "LD H,E" 4 1 "63"
    ∷ entry "LD H,D" "LD H,D" 4 1 "62"
    ∷ entry "LD H,H" "LD H,H" 4 1 "64"
    ∷ entry "LD H,L" "LD H,L" 4 1 "65"
    ∷ entry "LD H,N" "LD H,N" 7 2 "26 XX"
    ∷ entry "LD HL,(NN)" "LD HL,(NN)" 20 3 "2A XX XX"
    ∷ entry "LD HL,NN" "LD HL,NN" 10 3 "21 XX XX"
    ∷ entry "LD I,A" "LD I,A" 9 2 "ED 47"
    ∷ entry "LD IX,(NN)" "LD IX,(NN)" 20 4 "DD 2A XX XX"
    ∷ entry "LD IX,NN" "LD IX,NN" 14 4 "DD 21 XX XX"
    ∷ entry "LD IY,(NN)" "LD IY,(NN)" 20 4 "FD 2A XX XX"
    ∷ entry "LD IY,NN" "LD IY,NN" 14 4 "FD 21 XX XX"
    ∷ entry "LD L,(HL)" "LD L,(HL)" 7 1 "6E"
    ∷ entry "LD L,(IX+N)" "LD L,(IX+N)" 19 3 "DD 6E XX"
    ∷ entry "LD L,(IY+N)" "LD L,(IY+N)" 19 3 "FD 6E XX"
    ∷ entry "LD L,A" "LD L,A" 4 1 "6F"
    ∷ entry "LD L,C" "LD L,C" 4 1 "69"
    ∷ entry "LD L,B" "LD L,B" 4 1 "68"
    ∷ entry "LD L,E" "LD L,E" 4 1 "6B"
    ∷ entry "LD L,D" "LD L,D" 4 1 "6A"
    ∷ entry "LD L,H" "LD L,H" 4 1 "6C"
    ∷ entry "LD L,L" "LD L,L" 4 1 "6D"
    ∷ entry "LD L,N" "LD L,N" 7 2 "2E XX"
    ∷ entry "LD R,A" "LD R,A" 4 2 "ED 4F"
    ∷ entry "LD SP,(NN)" "LD SP,(NN)" 20 4 "ED 7B XX XX"
    ∷ entry "LD SP,HL" "LD SP,HL" 6 1 "F9"
    ∷ entry "LD SP,IX" "LD SP,IX" 10 2 "DD F9"
    ∷ entry "LD SP,IY" "LD SP,IY" 10 2 "FD F9"
    ∷ entry "LD SP,NN" "LD SP,NN" 10 3 "31 XX XX"
    ∷ entry "LDD" "LDD" 16 2 "ED A8"
    ∷ entry "LDDR" "LDDR" 21 2 "ED B8"
    ∷ entry "LDI" "LDI" 16 2 "ED A0"
    ∷ entry "LDIR" "LDIR" 21 2 "ED B0"
    ∷ entry "NEG" "NEG" 8 2 "ED 44"
    ∷ entry "NOP" "NOP" 4 1 "00"
    ∷ entry "OR (HL)" "OR (HL)" 7 1 "B6"
    ∷ entry "OR (IX+N)" "OR (IX+N)" 19 3 "DD B6 XX"
    ∷ entry "OR (IY+N)" "OR (IY+N)" 19 3 "FD B6 XX"
    ∷ entry "OR A" "OR A" 4 1 "B7"
    ∷ entry "OR C" "OR C" 4 1 "B1"
    ∷ entry "OR B" "OR B" 4 1 "B0"
    ∷ entry "OR E" "OR E" 4 1 "B3"
    ∷ entry "OR D" "OR D" 4 1 "B2"
    ∷ entry "OR H" "OR H" 4 1 "B4"
    ∷ entry "OR L" "OR L" 4 1 "B5"
    ∷ entry "OR N" "OR N" 7 2 "F6 XX"
    ∷ entry "OTDR" "OTDR" 21 2 "ED BB"
    ∷ entry "OTIR" "OTIR" 21 2 "ED B3"
    ∷ entry "OUT (C),A" "OUT (C),A" 12 2 "ED 79"
    ∷ entry "OUT (C),B" "OUT (C),B" 12 2 "ED 41"
    ∷ entry "OUT (C),C" "OUT (C),C" 12 2 "ED 49"
    ∷ entry "OUT (C),D" "OUT (C),D" 12 2 "ED 51"
    ∷ entry "OUT (C),E" "OUT (C),E" 12 2 "ED 59"
    ∷ entry "OUT (C),H" "OUT (C),H" 12 2 "ED 61"
    ∷ entry "OUT (C),L" "OUT (C),L" 12 2 "ED 69"
    ∷ entry "OUT (N),A" "OUT (N),A" 11 2 "D3 XX"
    ∷ entry "OUTD" "OUTD" 16 2 "ED AB"
    ∷ entry "OUTI" "OUTI" 16 2 "ED A3"
    ∷ entry "POP AF" "POP AF" 10 1 "F1"
    ∷ entry "POP BC" "POP BC" 10 1 "C1"
    ∷ entry "POP DE" "POP DE" 10 1 "D1"
    ∷ entry "POP HL" "POP HL" 10 1 "E1"
    ∷ entry "POP IX" "POP IX" 14 2 "DD E1"
    ∷ entry "POP IY" "POP IY" 14 2 "FD E1"
    ∷ entry "PUSH AF" "PUSH AF" 11 1 "F5"
    ∷ entry "PUSH BC" "PUSH BC" 11 1 "C5"
    ∷ entry "PUSH DE" "PUSH DE" 11 1 "D5"
    ∷ entry "PUSH HL" "PUSH HL" 11 1 "E5"
    ∷ entry "PUSH IX" "PUSH IX" 15 2 "DD E5"
    ∷ entry "PUSH IY" "PUSH IY" 15 2 "FD E5"
    ∷ entry "RES 0,(HL)" "RES 0,(HL)" 15 2 "CB 86"
    ∷ entry "RES 1,(HL)" "RES 1,(HL)" 15 2 "CB 8E"
    ∷ entry "RES 2,(HL)" "RES 2,(HL)" 15 2 "CB 96"
    ∷ entry "RES 3,(HL)" "RES 3,(HL)" 15 2 "CB 9E"
    ∷ entry "RES 4,(HL)" "RES 4,(HL)" 15 2 "CB A6"
    ∷ entry "RES 5,(HL)" "RES 5,(HL)" 15 2 "CB AE"
    ∷ entry "RES 6,(HL)" "RES 6,(HL)" 15 2 "CB B6"
    ∷ entry "RES 7,(HL)" "RES 7,(HL)" 15 2 "CB BE"
    ∷ entry "RES 0,(IX+N)" "RES 0,(IX+N)" 23 4 "DD CB XX 86"
    ∷ entry "RES 1,(IX+N)" "RES 1,(IX+N)" 23 4 "DD CB XX 8E"
    ∷ entry "RES 2,(IX+N)" "RES 2,(IX+N)" 23 4 "DD CB XX 96"
    ∷ []
