-- ===== src/Zxbasm/Opcodes/PartOne.antt =====
-- src/zxbasm/z80.py: lines 19 to 156 of the table `Z80SET`.
use zxbasic.Prelude.{List, [], ◌∷◌}
use zxbasic.Zxbasm.Opcodes.Entry.{Opcode, entry}

unfoldable pub part_one : List Opcode
part_one =
    entry "ADC A,(HL)" "ADC A,(HL)" 7 1 "8E"
    ∷ entry "ADC A,(IX+N)" "ADC A,(IX+N)" 19 3 "DD 8E XX"
    ∷ entry "ADC A,(IY+N)" "ADC A,(IY+N)" 19 3 "FD 8E XX"
    ∷ entry "ADC A,A" "ADC A,A" 4 1 "8F"
    ∷ entry "ADC A,C" "ADC A,C" 4 1 "89"
    ∷ entry "ADC A,B" "ADC A,B" 4 1 "88"
    ∷ entry "ADC A,E" "ADC A,E" 4 1 "8B"
    ∷ entry "ADC A,D" "ADC A,D" 4 1 "8A"
    ∷ entry "ADC A,H" "ADC A,H" 4 1 "8C"
    ∷ entry "ADC A,L" "ADC A,L" 4 1 "8D"
    ∷ entry "ADC A,N" "ADC A,N" 7 2 "CE XX"
    ∷ entry "ADC HL,BC" "ADC HL,BC" 15 2 "ED 4A"
    ∷ entry "ADC HL,DE" "ADC HL,DE" 15 2 "ED 5A"
    ∷ entry "ADC HL,HL" "ADC HL,HL" 15 2 "ED 6A"
    ∷ entry "ADC HL,SP" "ADC HL,SP" 15 2 "ED 7A"
    ∷ entry "ADD A,(HL)" "ADD A,(HL)" 7 1 "86"
    ∷ entry "ADD A,(IX+N)" "ADD A,(IX+N)" 19 3 "DD 86 XX"
    ∷ entry "ADD A,(IY+N)" "ADD A,(IY+N)" 19 3 "FD 86 XX"
    ∷ entry "ADD A,A" "ADD A,A" 4 1 "87"
    ∷ entry "ADD A,C" "ADD A,C" 4 1 "81"
    ∷ entry "ADD A,B" "ADD A,B" 4 1 "80"
    ∷ entry "ADD A,E" "ADD A,E" 4 1 "83"
    ∷ entry "ADD A,D" "ADD A,D" 4 1 "82"
    ∷ entry "ADD A,H" "ADD A,H" 4 1 "84"
    ∷ entry "ADD A,L" "ADD A,L" 4 1 "85"
    ∷ entry "ADD A,N" "ADD A,N" 7 2 "C6 XX"
    ∷ entry "ADD HL,BC" "ADD HL,BC" 11 1 "09"
    ∷ entry "ADD HL,DE" "ADD HL,DE" 11 1 "19"
    ∷ entry "ADD HL,HL" "ADD HL,HL" 11 1 "29"
    ∷ entry "ADD HL,SP" "ADD HL,SP" 11 1 "39"
    ∷ entry "ADD IX,BC" "ADD IX,BC" 15 2 "DD 09"
    ∷ entry "ADD IX,DE" "ADD IX,DE" 15 2 "DD 19"
    ∷ entry "ADD IX,IX" "ADD IX,IX" 15 2 "DD 29"
    ∷ entry "ADD IX,SP" "ADD IX,SP" 15 2 "DD 39"
    ∷ entry "ADD IY,BC" "ADD IY,BC" 15 2 "FD 09"
    ∷ entry "ADD IY,DE" "ADD IY,DE" 15 2 "FD 19"
    ∷ entry "ADD IY,IY" "ADD IY,IY" 15 2 "FD 29"
    ∷ entry "ADD IY,SP" "ADD IY,SP" 15 2 "FD 39"
    ∷ entry "AND (HL)" "AND (HL)" 7 1 "A6"
    ∷ entry "AND (IX+N)" "AND (IX+N)" 19 3 "DD A6 XX"
    ∷ entry "AND (IY+N)" "AND (IY+N)" 19 3 "FD A6 XX"
    ∷ entry "AND A" "AND A" 4 1 "A7"
    ∷ entry "AND C" "AND C" 4 1 "A1"
    ∷ entry "AND B" "AND B" 4 1 "A0"
    ∷ entry "AND E" "AND E" 4 1 "A3"
    ∷ entry "AND D" "AND D" 4 1 "A2"
    ∷ entry "AND H" "AND H" 4 1 "A4"
    ∷ entry "AND L" "AND L" 4 1 "A5"
    ∷ entry "AND N" "AND N" 7 2 "E6 XX"
    ∷ entry "BIT 0,(HL)" "BIT 0,(HL)" 12 2 "CB 46"
    ∷ entry "BIT 1,(HL)" "BIT 1,(HL)" 12 2 "CB 4E"
    ∷ entry "BIT 2,(HL)" "BIT 2,(HL)" 12 2 "CB 56"
    ∷ entry "BIT 3,(HL)" "BIT 3,(HL)" 12 2 "CB 5E"
    ∷ entry "BIT 4,(HL)" "BIT 4,(HL)" 12 2 "CB 66"
    ∷ entry "BIT 5,(HL)" "BIT 5,(HL)" 12 2 "CB 6E"
    ∷ entry "BIT 6,(HL)" "BIT 6,(HL)" 12 2 "CB 76"
    ∷ entry "BIT 7,(HL)" "BIT 7,(HL)" 12 2 "CB 7E"
    ∷ entry "BIT 0,(IX+N)" "BIT 0,(IX+N)" 20 4 "DD CB XX 46"
    ∷ entry "BIT 1,(IX+N)" "BIT 1,(IX+N)" 20 4 "DD CB XX 4E"
    ∷ entry "BIT 2,(IX+N)" "BIT 2,(IX+N)" 20 4 "DD CB XX 56"
    ∷ entry "BIT 3,(IX+N)" "BIT 3,(IX+N)" 20 4 "DD CB XX 5E"
    ∷ entry "BIT 4,(IX+N)" "BIT 4,(IX+N)" 20 4 "DD CB XX 66"
    ∷ entry "BIT 5,(IX+N)" "BIT 5,(IX+N)" 20 4 "DD CB XX 6E"
    ∷ entry "BIT 6,(IX+N)" "BIT 6,(IX+N)" 20 4 "DD CB XX 76"
    ∷ entry "BIT 7,(IX+N)" "BIT 7,(IX+N)" 20 4 "DD CB XX 7E"
    ∷ entry "BIT 0,(IY+N)" "BIT 0,(IY+N)" 20 4 "FD CB XX 46"
    ∷ entry "BIT 1,(IY+N)" "BIT 1,(IY+N)" 20 4 "FD CB XX 4E"
    ∷ entry "BIT 2,(IY+N)" "BIT 2,(IY+N)" 20 4 "FD CB XX 56"
    ∷ entry "BIT 3,(IY+N)" "BIT 3,(IY+N)" 20 4 "FD CB XX 5E"
    ∷ entry "BIT 4,(IY+N)" "BIT 4,(IY+N)" 20 4 "FD CB XX 66"
    ∷ entry "BIT 5,(IY+N)" "BIT 5,(IY+N)" 20 4 "FD CB XX 6E"
    ∷ entry "BIT 6,(IY+N)" "BIT 6,(IY+N)" 20 4 "FD CB XX 76"
    ∷ entry "BIT 7,(IY+N)" "BIT 7,(IY+N)" 20 4 "FD CB XX 7E"
    ∷ entry "BIT 0,A" "BIT 0,A" 8 2 "CB 47"
    ∷ entry "BIT 1,A" "BIT 1,A" 8 2 "CB 4F"
    ∷ entry "BIT 2,A" "BIT 2,A" 8 2 "CB 57"
    ∷ entry "BIT 3,A" "BIT 3,A" 8 2 "CB 5F"
    ∷ entry "BIT 4,A" "BIT 4,A" 8 2 "CB 67"
    ∷ entry "BIT 5,A" "BIT 5,A" 8 2 "CB 6F"
    ∷ entry "BIT 6,A" "BIT 6,A" 8 2 "CB 77"
    ∷ entry "BIT 7,A" "BIT 7,A" 8 2 "CB 7F"
    ∷ entry "BIT 0,C" "BIT 0,C" 8 2 "CB 41"
    ∷ entry "BIT 1,C" "BIT 1,C" 8 2 "CB 49"
    ∷ entry "BIT 2,C" "BIT 2,C" 8 2 "CB 51"
    ∷ entry "BIT 3,C" "BIT 3,C" 8 2 "CB 59"
    ∷ entry "BIT 4,C" "BIT 4,C" 8 2 "CB 61"
    ∷ entry "BIT 5,C" "BIT 5,C" 8 2 "CB 69"
    ∷ entry "BIT 6,C" "BIT 6,C" 8 2 "CB 71"
    ∷ entry "BIT 7,C" "BIT 7,C" 8 2 "CB 79"
    ∷ entry "BIT 0,B" "BIT 0,B" 8 2 "CB 40"
    ∷ entry "BIT 1,B" "BIT 1,B" 8 2 "CB 48"
    ∷ entry "BIT 2,B" "BIT 2,B" 8 2 "CB 50"
    ∷ entry "BIT 3,B" "BIT 3,B" 8 2 "CB 58"
    ∷ entry "BIT 4,B" "BIT 4,B" 8 2 "CB 60"
    ∷ entry "BIT 5,B" "BIT 5,B" 8 2 "CB 68"
    ∷ entry "BIT 6,B" "BIT 6,B" 8 2 "CB 70"
    ∷ entry "BIT 7,B" "BIT 7,B" 8 2 "CB 78"
    ∷ entry "BIT 0,E" "BIT 0,E" 8 2 "CB 43"
    ∷ entry "BIT 1,E" "BIT 1,E" 8 2 "CB 4B"
    ∷ entry "BIT 2,E" "BIT 2,E" 8 2 "CB 53"
    ∷ entry "BIT 3,E" "BIT 3,E" 8 2 "CB 5B"
    ∷ entry "BIT 4,E" "BIT 4,E" 8 2 "CB 63"
    ∷ entry "BIT 5,E" "BIT 5,E" 8 2 "CB 6B"
    ∷ entry "BIT 6,E" "BIT 6,E" 8 2 "CB 73"
    ∷ entry "BIT 7,E" "BIT 7,E" 8 2 "CB 7B"
    ∷ entry "BIT 0,D" "BIT 0,D" 8 2 "CB 42"
    ∷ entry "BIT 1,D" "BIT 1,D" 8 2 "CB 4A"
    ∷ entry "BIT 2,D" "BIT 2,D" 8 2 "CB 52"
    ∷ entry "BIT 3,D" "BIT 3,D" 8 2 "CB 5A"
    ∷ entry "BIT 4,D" "BIT 4,D" 8 2 "CB 62"
    ∷ entry "BIT 5,D" "BIT 5,D" 8 2 "CB 6A"
    ∷ entry "BIT 6,D" "BIT 6,D" 8 2 "CB 72"
    ∷ entry "BIT 7,D" "BIT 7,D" 8 2 "CB 7A"
    ∷ entry "BIT 0,H" "BIT 0,H" 8 2 "CB 44"
    ∷ entry "BIT 1,H" "BIT 1,H" 8 2 "CB 4C"
    ∷ entry "BIT 2,H" "BIT 2,H" 8 2 "CB 54"
    ∷ entry "BIT 3,H" "BIT 3,H" 8 2 "CB 5C"
    ∷ entry "BIT 4,H" "BIT 4,H" 8 2 "CB 64"
    ∷ entry "BIT 5,H" "BIT 5,H" 8 2 "CB 6C"
    ∷ entry "BIT 6,H" "BIT 6,H" 8 2 "CB 74"
    ∷ entry "BIT 7,H" "BIT 7,H" 8 2 "CB 7C"
    ∷ entry "BIT 0,L" "BIT 0,L" 8 2 "CB 45"
    ∷ entry "BIT 1,L" "BIT 1,L" 8 2 "CB 4D"
    ∷ entry "BIT 2,L" "BIT 2,L" 8 2 "CB 55"
    ∷ entry "BIT 3,L" "BIT 3,L" 8 2 "CB 5D"
    ∷ entry "BIT 4,L" "BIT 4,L" 8 2 "CB 65"
    ∷ entry "BIT 5,L" "BIT 5,L" 8 2 "CB 6D"
    ∷ entry "BIT 6,L" "BIT 6,L" 8 2 "CB 75"
    ∷ entry "BIT 7,L" "BIT 7,L" 8 2 "CB 7D"
    ∷ entry "CALL C,NN" "CALL C,NN" 17 3 "DC XX XX"
    ∷ entry "CALL M,NN" "CALL M,NN" 17 3 "FC XX XX"
    ∷ entry "CALL NC,NN" "CALL NC,NN" 17 3 "D4 XX XX"
    ∷ entry "CALL NN" "CALL NN" 17 3 "CD XX XX"
    ∷ entry "CALL NZ,NN" "CALL NZ,NN" 17 3 "C4 XX XX"
    ∷ entry "CALL P,NN" "CALL P,NN" 17 3 "F4 XX XX"
    ∷ entry "CALL PE,NN" "CALL PE,NN" 17 3 "EC XX XX"
    ∷ entry "CALL PO,NN" "CALL PO,NN" 17 3 "E4 XX XX"
    ∷ entry "CALL Z,NN" "CALL Z,NN" 17 3 "CC XX XX"
    ∷ []
