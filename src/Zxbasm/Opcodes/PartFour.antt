-- ===== src/Zxbasm/Opcodes/PartFour.antt =====
-- src/zxbasm/z80.py: lines 433 to 570 of the table `Z80SET`.
use zxbasic.Prelude.{List, [], ◌∷◌}
use zxbasic.Zxbasm.Opcodes.Entry.{Opcode, entry}

unfoldable pub part_four : List Opcode
part_four =
    entry "RES 3,(IX+N)" "RES 3,(IX+N)" 23 4 "DD CB XX 9E"
    ∷ entry "RES 4,(IX+N)" "RES 4,(IX+N)" 23 4 "DD CB XX A6"
    ∷ entry "RES 5,(IX+N)" "RES 5,(IX+N)" 23 4 "DD CB XX AE"
    ∷ entry "RES 6,(IX+N)" "RES 6,(IX+N)" 23 4 "DD CB XX B6"
    ∷ entry "RES 7,(IX+N)" "RES 7,(IX+N)" 23 4 "DD CB XX BE"
    ∷ entry "RES 0,(IY+N)" "RES 0,(IY+N)" 23 4 "FD CB XX 86"
    ∷ entry "RES 1,(IY+N)" "RES 1,(IY+N)" 23 4 "FD CB XX 8E"
    ∷ entry "RES 2,(IY+N)" "RES 2,(IY+N)" 23 4 "FD CB XX 96"
    ∷ entry "RES 3,(IY+N)" "RES 3,(IY+N)" 23 4 "FD CB XX 9E"
    ∷ entry "RES 4,(IY+N)" "RES 4,(IY+N)" 23 4 "FD CB XX A6"
    ∷ entry "RES 5,(IY+N)" "RES 5,(IY+N)" 23 4 "FD CB XX AE"
    ∷ entry "RES 6,(IY+N)" "RES 6,(IY+N)" 23 4 "FD CB XX B6"
    ∷ entry "RES 7,(IY+N)" "RES 7,(IY+N)" 23 4 "FD CB XX BE"
    ∷ entry "RES 0,A" "RES 0,A" 8 2 "CB 87"
    ∷ entry "RES 1,A" "RES 1,A" 8 2 "CB 8F"
    ∷ entry "RES 2,A" "RES 2,A" 8 2 "CB 97"
    ∷ entry "RES 3,A" "RES 3,A" 8 2 "CB 9F"
    ∷ entry "RES 4,A" "RES 4,A" 8 2 "CB A7"
    ∷ entry "RES 5,A" "RES 5,A" 8 2 "CB AF"
    ∷ entry "RES 6,A" "RES 6,A" 8 2 "CB B7"
    ∷ entry "RES 7,A" "RES 7,A" 8 2 "CB BF"
    ∷ entry "RES 0,C" "RES 0,C" 8 2 "CB 81"
    ∷ entry "RES 1,C" "RES 1,C" 8 2 "CB 89"
    ∷ entry "RES 2,C" "RES 2,C" 8 2 "CB 91"
    ∷ entry "RES 3,C" "RES 3,C" 8 2 "CB 99"
    ∷ entry "RES 4,C" "RES 4,C" 8 2 "CB A1"
    ∷ entry "RES 5,C" "RES 5,C" 8 2 "CB A9"
    ∷ entry "RES 6,C" "RES 6,C" 8 2 "CB B1"
    ∷ entry "RES 7,C" "RES 7,C" 8 2 "CB B9"
    ∷ entry "RES 0,B" "RES 0,B" 8 2 "CB 80"
    ∷ entry "RES 1,B" "RES 1,B" 8 2 "CB 88"
    ∷ entry "RES 2,B" "RES 2,B" 8 2 "CB 90"
    ∷ entry "RES 3,B" "RES 3,B" 8 2 "CB 98"
    ∷ entry "RES 4,B" "RES 4,B" 8 2 "CB A0"
    ∷ entry "RES 5,B" "RES 5,B" 8 2 "CB A8"
    ∷ entry "RES 6,B" "RES 6,B" 8 2 "CB B0"
    ∷ entry "RES 7,B" "RES 7,B" 8 2 "CB B8"
    ∷ entry "RES 0,E" "RES 0,E" 8 2 "CB 83"
    ∷ entry "RES 1,E" "RES 1,E" 8 2 "CB 8B"
    ∷ entry "RES 2,E" "RES 2,E" 8 2 "CB 93"
    ∷ entry "RES 3,E" "RES 3,E" 8 2 "CB 9B"
    ∷ entry "RES 4,E" "RES 4,E" 8 2 "CB A3"
    ∷ entry "RES 5,E" "RES 5,E" 8 2 "CB AB"
    ∷ entry "RES 6,E" "RES 6,E" 8 2 "CB B3"
    ∷ entry "RES 7,E" "RES 7,E" 8 2 "CB BB"
    ∷ entry "RES 0,D" "RES 0,D" 8 2 "CB 82"
    ∷ entry "RES 1,D" "RES 1,D" 8 2 "CB 8A"
    ∷ entry "RES 2,D" "RES 2,D" 8 2 "CB 92"
    ∷ entry "RES 3,D" "RES 3,D" 8 2 "CB 9A"
    ∷ entry "RES 4,D" "RES 4,D" 8 2 "CB A2"
    ∷ entry "RES 5,D" "RES 5,D" 8 2 "CB AA"
    ∷ entry "RES 6,D" "RES 6,D" 8 2 "CB B2"
    ∷ entry "RES 7,D" "RES 7,D" 8 2 "CB BA"
    ∷ entry "RES 0,H" "RES 0,H" 8 2 "CB 84"
    ∷ entry "RES 1,H" "RES 1,H" 8 2 "CB 8C"
    ∷ entry "RES 2,H" "RES 2,H" 8 2 "CB 94"
    ∷ entry "RES 3,H" "RES 3,H" 8 2 "CB 9C"
    ∷ entry "RES 4,H" "RES 4,H" 8 2 "CB A4"
    ∷ entry "RES 5,H" "RES 5,H" 8 2 "CB AC"
    ∷ entry "RES 6,H" "RES 6,H" 8 2 "CB B4"
    ∷ entry "RES 7,H" "RES 7,H" 8 2 "CB BC"
    ∷ entry "RES 0,L" "RES 0,L" 8 2 "CB 85"
    ∷ entry "RES 1,L" "RES 1,L" 8 2 "CB 8D"
    ∷ entry "RES 2,L" "RES 2,L" 8 2 "CB 95"
    ∷ entry "RES 3,L" "RES 3,L" 8 2 "CB 9D"
    ∷ entry "RES 4,L" "RES 4,L" 8 2 "CB A5"
    ∷ entry "RES 5,L" "RES 5,L" 8 2 "CB AD"
    ∷ entry "RES 6,L" "RES 6,L" 8 2 "CB B5"
    ∷ entry "RES 7,L" "RES 7,L" 8 2 "CB BD"
    ∷ entry "RET" "RET" 10 1 "C9"
    ∷ entry "RET C" "RET C" 11 1 "D8"
    ∷ entry "RET M" "RET M" 11 1 "F8"
    ∷ entry "RET NC" "RET NC" 11 1 "D0"
    ∷ entry "RET NZ" "RET NZ" 11 1 "C0"
    ∷ entry "RET P" "RET P" 11 1 "F0"
    ∷ entry "RET PE" "RET PE" 11 1 "E8"
    ∷ entry "RET PO" "RET PO" 11 1 "E0"
    ∷ entry "RET Z" "RET Z" 11 1 "C8"
    ∷ entry "RETI" "RETI" 14 2 "ED 4D"
    ∷ entry "RETN" "RETN" 14 2 "ED 45"
    ∷ entry "RL (HL)" "RL (HL)" 15 2 "CB 16"
    ∷ entry "RL A" "RL A" 8 2 "CB 17"
    ∷ entry "RL C" "RL C" 8 2 "CB 11"
    ∷ entry "RL B" "RL B" 8 2 "CB 10"
    ∷ entry "RL E" "RL E" 8 2 "CB 13"
    ∷ entry "RL D" "RL D" 8 2 "CB 12"
    ∷ entry "RL H" "RL H" 8 2 "CB 14"
    ∷ entry "RL L" "RL L" 8 2 "CB 15"
    ∷ entry "RL (IX+N)" "RL (IX+N)" 23 4 "DD CB XX 16"
    ∷ entry "RL (IY+N)" "RL (IY+N)" 23 4 "FD CB XX 16"
    ∷ entry "RLA" "RLA" 4 1 "17"
    ∷ entry "RLC (HL)" "RLC (HL)" 15 2 "CB 06"
    ∷ entry "RLC (IX+N)" "RLC (IX+N)" 23 4 "DD CB XX 06"
    ∷ entry "RLC (IY+N)" "RLC (IY+N)" 23 4 "FD CB XX 06"
    ∷ entry "RLC A" "RLC A" 8 2 "CB 07"
    ∷ entry "RLC C" "RLC C" 8 2 "CB 01"
    ∷ entry "RLC B" "RLC B" 8 2 "CB 00"
    ∷ entry "RLC E" "RLC E" 8 2 "CB 03"
    ∷ entry "RLC D" "RLC D" 8 2 "CB 02"
    ∷ entry "RLC H" "RLC H" 8 2 "CB 04"
    ∷ entry "RLC L" "RLC L" 8 2 "CB 05"
    ∷ entry "RLCA" "RLCA" 4 1 "07"
    ∷ entry "RLD" "RLD" 18 2 "ED 6F"
    ∷ entry "RR (HL)" "RR (HL)" 15 2 "CB 1E"
    ∷ entry "RR A" "RR A" 8 2 "CB 1F"
    ∷ entry "RR C" "RR C" 8 2 "CB 19"
    ∷ entry "RR B" "RR B" 8 2 "CB 18"
    ∷ entry "RR E" "RR E" 8 2 "CB 1B"
    ∷ entry "RR D" "RR D" 8 2 "CB 1A"
    ∷ entry "RR H" "RR H" 8 2 "CB 1C"
    ∷ entry "RR L" "RR L" 8 2 "CB 1D"
    ∷ entry "RR (IX+N)" "RR (IX+N)" 23 4 "DD CB XX 1E"
    ∷ entry "RR (IY+N)" "RR (IY+N)" 23 4 "FD CB XX 1E"
    ∷ entry "RRA" "RRA" 4 1 "1F"
    ∷ entry "RRC (HL)" "RRC (HL)" 15 2 "CB 0E"
    ∷ entry "RRC (IX+N)" "RRC (IX+N)" 23 4 "DD CB XX 0E"
    ∷ entry "RRC (IY+N)" "RRC (IY+N)" 23 4 "FD CB XX 0E"
    ∷ entry "RRC A" "RRC A" 8 2 "CB 0F"
    ∷ entry "RRC C" "RRC C" 8 2 "CB 09"
    ∷ entry "RRC B" "RRC B" 8 2 "CB 08"
    ∷ entry "RRC E" "RRC E" 8 2 "CB 0B"
    ∷ entry "RRC D" "RRC D" 8 2 "CB 0A"
    ∷ entry "RRC H" "RRC H" 8 2 "CB 0C"
    ∷ entry "RRC L" "RRC L" 8 2 "CB 0D"
    ∷ entry "RRCA" "RRCA" 4 1 "0F"
    ∷ entry "RRD" "RRD" 18 2 "ED 67"
    ∷ entry "RST 0H" "RST 0H" 11 1 "C7"
    ∷ entry "RST 8H" "RST 8H" 11 1 "CF"
    ∷ entry "RST 10H" "RST 10H" 11 1 "D7"
    ∷ entry "RST 18H" "RST 18H" 11 1 "DF"
    ∷ entry "RST 20H" "RST 20H" 11 1 "E7"
    ∷ entry "RST 28H" "RST 28H" 11 1 "EF"
    ∷ entry "RST 30H" "RST 30H" 11 1 "F7"
    ∷ entry "RST 38H" "RST 38H" 11 1 "FF"
    ∷ entry "SBC A,(HL)" "SBC (HL)" 7 1 "9E"
    ∷ entry "SBC A,(IX+N)" "SBC A,(IX+N)" 19 3 "DD 9E XX"
    ∷ entry "SBC A,(IY+N)" "SBC A,(IY+N)" 19 3 "FD 9E XX"
    ∷ entry "SBC A,N" "SBC A,N" 7 2 "DE XX"
    ∷ []
