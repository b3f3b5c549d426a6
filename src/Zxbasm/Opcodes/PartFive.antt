-- ===== src/Zxbasm/Opcodes/PartFive.antt =====
-- src/zxbasm/z80.py: lines 571 to 708 of the table `Z80SET`.
use zxbasic.Prelude.{List, [], ◌∷◌}
use zxbasic.Zxbasm.Opcodes.Entry.{Opcode, entry}

unfoldable pub part_five : List Opcode
part_five =
    entry "SBC A,A" "SBC A,A" 4 1 "9F"
    ∷ entry "SBC A,B" "SBC A,B" 4 1 "98"
    ∷ entry "SBC A,C" "SBC A,C" 4 1 "99"
    ∷ entry "SBC A,D" "SBC A,D" 4 1 "9A"
    ∷ entry "SBC A,E" "SBC A,E" 4 1 "9B"
    ∷ entry "SBC A,H" "SBC A,H" 4 1 "9C"
    ∷ entry "SBC A,L" "SBC A,L" 4 1 "9D"
    ∷ entry "SBC HL,BC" "SBC HL,BC" 15 2 "ED 42"
    ∷ entry "SBC HL,DE" "SBC HL,DE" 15 2 "ED 52"
    ∷ entry "SBC HL,HL" "SBC HL,HL" 15 2 "ED 62"
    ∷ entry "SBC HL,SP" "SBC HL,SP" 15 2 "ED 72"
    ∷ entry "SCF" "SCF" 4 1 "37"
    ∷ entry "SET 0,(HL)" "SET 0,(HL)" 15 2 "CB C6"
    ∷ entry "SET 1,(HL)" "SET 1,(HL)" 15 2 "CB CE"
    ∷ entry "SET 2,(HL)" "SET 2,(HL)" 15 2 "CB D6"
    ∷ entry "SET 3,(HL)" "SET 3,(HL)" 15 2 "CB DE"
    ∷ entry "SET 4,(HL)" "SET 4,(HL)" 15 2 "CB E6"
    ∷ entry "SET 5,(HL)" "SET 5,(HL)" 15 2 "CB EE"
    ∷ entry "SET 6,(HL)" "SET 6,(HL)" 15 2 "CB F6"
    ∷ entry "SET 7,(HL)" "SET 7,(HL)" 15 2 "CB FE"
    ∷ entry "SET 0,(IX+N)" "SET 0,(IX+N)" 23 4 "DD CB XX C6"
    ∷ entry "SET 1,(IX+N)" "SET 1,(IX+N)" 23 4 "DD CB XX CE"
    ∷ entry "SET 2,(IX+N)" "SET 2,(IX+N)" 23 4 "DD CB XX D6"
    ∷ entry "SET 3,(IX+N)" "SET 3,(IX+N)" 23 4 "DD CB XX DE"
    ∷ entry "SET 4,(IX+N)" "SET 4,(IX+N)" 23 4 "DD CB XX E6"
    ∷ entry "SET 5,(IX+N)" "SET 5,(IX+N)" 23 4 "DD CB XX EE"
    ∷ entry "SET 6,(IX+N)" "SET 6,(IX+N)" 23 4 "DD CB XX F6"
    ∷ entry "SET 7,(IX+N)" "SET 7,(IX+N)" 23 4 "DD CB XX FE"
    ∷ entry "SET 0,(IY+N)" "SET 0,(IY+N)" 23 4 "FD CB XX C6"
    ∷ entry "SET 1,(IY+N)" "SET 1,(IY+N)" 23 4 "FD CB XX CE"
    ∷ entry "SET 2,(IY+N)" "SET 2,(IY+N)" 23 4 "FD CB XX D6"
    ∷ entry "SET 3,(IY+N)" "SET 3,(IY+N)" 23 4 "FD CB XX DE"
    ∷ entry "SET 4,(IY+N)" "SET 4,(IY+N)" 23 4 "FD CB XX E6"
    ∷ entry "SET 5,(IY+N)" "SET 5,(IY+N)" 23 4 "FD CB XX EE"
    ∷ entry "SET 6,(IY+N)" "SET 6,(IY+N)" 23 4 "FD CB XX F6"
    ∷ entry "SET 7,(IY+N)" "SET 7,(IY+N)" 23 4 "FD CB XX FE"
    ∷ entry "SET 0,A" "SET 0,A" 8 2 "CB C7"
    ∷ entry "SET 1,A" "SET 1,A" 8 2 "CB CF"
    ∷ entry "SET 2,A" "SET 2,A" 8 2 "CB D7"
    ∷ entry "SET 3,A" "SET 3,A" 8 2 "CB DF"
    ∷ entry "SET 4,A" "SET 4,A" 8 2 "CB E7"
    ∷ entry "SET 5,A" "SET 5,A" 8 2 "CB EF"
    ∷ entry "SET 6,A" "SET 6,A" 8 2 "CB F7"
    ∷ entry "SET 7,A" "SET 7,A" 8 2 "CB FF"
    ∷ entry "SET 0,C" "SET 0,C" 8 2 "CB C1"
    ∷ entry "SET 1,C" "SET 1,C" 8 2 "CB C9"
    ∷ entry "SET 2,C" "SET 2,C" 8 2 "CB D1"
    ∷ entry "SET 3,C" "SET 3,C" 8 2 "CB D9"
    ∷ entry "SET 4,C" "SET 4,C" 8 2 "CB E1"
    ∷ entry "SET 5,C" "SET 5,C" 8 2 "CB E9"
    ∷ entry "SET 6,C" "SET 6,C" 8 2 "CB F1"
    ∷ entry "SET 7,C" "SET 7,C" 8 2 "CB F9"
    ∷ entry "SET 0,B" "SET 0,B" 8 2 "CB C0"
    ∷ entry "SET 1,B" "SET 1,B" 8 2 "CB C8"
    ∷ entry "SET 2,B" "SET 2,B" 8 2 "CB D0"
    ∷ entry "SET 3,B" "SET 3,B" 8 2 "CB D8"
    ∷ entry "SET 4,B" "SET 4,B" 8 2 "CB E0"
    ∷ entry "SET 5,B" "SET 5,B" 8 2 "CB E8"
    ∷ entry "SET 6,B" "SET 6,B" 8 2 "CB F0"
    ∷ entry "SET 7,B" "SET 7,B" 8 2 "CB F8"
    ∷ entry "SET 0,E" "SET 0,E" 8 2 "CB C3"
    ∷ entry "SET 1,E" "SET 1,E" 8 2 "CB CB"
    ∷ entry "SET 2,E" "SET 2,E" 8 2 "CB D3"
    ∷ entry "SET 3,E" "SET 3,E" 8 2 "CB DB"
    ∷ entry "SET 4,E" "SET 4,E" 8 2 "CB E3"
    ∷ entry "SET 5,E" "SET 5,E" 8 2 "CB EB"
    ∷ entry "SET 6,E" "SET 6,E" 8 2 "CB F3"
    ∷ entry "SET 7,E" "SET 7,E" 8 2 "CB FB"
    ∷ entry "SET 0,D" "SET 0,D" 8 2 "CB C2"
    ∷ entry "SET 1,D" "SET 1,D" 8 2 "CB CA"
    ∷ entry "SET 2,D" "SET 2,D" 8 2 "CB D2"
    ∷ entry "SET 3,D" "SET 3,D" 8 2 "CB DA"
    ∷ entry "SET 4,D" "SET 4,D" 8 2 "CB E2"
    ∷ entry "SET 5,D" "SET 5,D" 8 2 "CB EA"
    ∷ entry "SET 6,D" "SET 6,D" 8 2 "CB F2"
    ∷ entry "SET 7,D" "SET 7,D" 8 2 "CB FA"
    ∷ entry "SET 0,H" "SET 0,H" 8 2 "CB C4"
    ∷ entry "SET 1,H" "SET 1,H" 8 2 "CB CC"
    ∷ entry "SET 2,H" "SET 2,H" 8 2 "CB D4"
    ∷ entry "SET 3,H" "SET 3,H" 8 2 "CB DC"
    ∷ entry "SET 4,H" "SET 4,H" 8 2 "CB E4"
    ∷ entry "SET 5,H" "SET 5,H" 8 2 "CB EC"
    ∷ entry "SET 6,H" "SET 6,H" 8 2 "CB F4"
    ∷ entry "SET 7,H" "SET 7,H" 8 2 "CB FC"
    ∷ entry "SET 0,L" "SET 0,L" 8 2 "CB C5"
    ∷ entry "SET 1,L" "SET 1,L" 8 2 "CB CD"
    ∷ entry "SET 2,L" "SET 2,L" 8 2 "CB D5"
    ∷ entry "SET 3,L" "SET 3,L" 8 2 "CB DD"
    ∷ entry "SET 4,L" "SET 4,L" 8 2 "CB E5"
    ∷ entry "SET 5,L" "SET 5,L" 8 2 "CB ED"
    ∷ entry "SET 6,L" "SET 6,L" 8 2 "CB F5"
    ∷ entry "SET 7,L" "SET 7,L" 8 2 "CB FD"
    ∷ entry "SLA (HL)" "SLA (HL)" 15 2 "CB 26"
    ∷ entry "SLA (IX+N)" "SLA (IX+N)" 23 4 "DD CB XX 26"
    ∷ entry "SLA (IY+N)" "SLA (IY+N)" 23 4 "FD CB XX 26"
    ∷ entry "SLA A" "SLA A" 8 2 "CB 27"
    ∷ entry "SLA C" "SLA C" 8 2 "CB 21"
    ∷ entry "SLA B" "SLA B" 8 2 "CB 20"
    ∷ entry "SLA E" "SLA E" 8 2 "CB 23"
    ∷ entry "SLA D" "SLA D" 8 2 "CB 22"
    ∷ entry "SLA H" "SLA H" 8 2 "CB 24"
    ∷ entry "SLA L" "SLA L" 8 2 "CB 25"
    ∷ entry "SRA (HL)" "SRA (HL)" 15 2 "CB 2E"
    ∷ entry "SRA (IX+N)" "SRA (IX+N)" 23 4 "DD CB XX 2E"
    ∷ entry "SRA (IY+N)" "SRA (IY+N)" 23 4 "FD CB XX 2E"
    ∷ entry "SRA A" "SRA A" 8 2 "CB 2F"
    ∷ entry "SRA C" "SRA C" 8 2 "CB 29"
    ∷ entry "SRA B" "SRA B" 8 2 "CB 28"
    ∷ entry "SRA E" "SRA E" 8 2 "CB 2B"
    ∷ entry "SRA D" "SRA D" 8 2 "CB 2A"
    ∷ entry "SRA H" "SRA H" 8 2 "CB 2C"
    ∷ entry "SRA L" "SRA L" 8 2 "CB 2D"
    ∷ entry "SRL (HL)" "SRL (HL)" 15 2 "CB 3E"
    ∷ entry "SRL (IX+N)" "SRL (IX+N)" 23 4 "DD CB XX 3E"
    ∷ entry "SRL (IY+N)" "SRL (IY+N)" 23 4 "FD CB XX 3E"
    ∷ entry "SRL A" "SRL A" 8 2 "CB 3F"
    ∷ entry "SRL C" "SRL C" 8 2 "CB 39"
    ∷ entry "SRL B" "SRL B" 8 2 "CB 38"
    ∷ entry "SRL E" "SRL E" 8 2 "CB 3B"
    ∷ entry "SRL D" "SRL D" 8 2 "CB 3A"
    ∷ entry "SRL H" "SRL H" 8 2 "CB 3C"
    ∷ entry "SRL L" "SRL L" 8 2 "CB 3D"
    ∷ entry "SUB (HL)" "SUB (HL)" 7 1 "96"
    ∷ entry "SUB (IX+N)" "SUB (IX+N)" 19 3 "DD 96 XX"
    ∷ entry "SUB (IY+N)" "SUB (IY+N)" 19 3 "FD 96 XX"
    ∷ entry "SUB A" "SUB A" 4 1 "97"
    ∷ entry "SUB C" "SUB C" 4 1 "91"
    ∷ entry "SUB B" "SUB B" 4 1 "90"
    ∷ entry "SUB E" "SUB E" 4 1 "93"
    ∷ entry "SUB D" "SUB D" 4 1 "92"
    ∷ entry "SUB H" "SUB H" 4 1 "94"
    ∷ entry "SUB L" "SUB L" 4 1 "95"
    ∷ entry "SUB N" "SUB N" 7 2 "D6 XX"
    ∷ entry "XOR (HL)" "XOR (HL)" 7 1 "AE"
    ∷ entry "XOR (IX+N)" "XOR (IX+N)" 19 3 "DD AE XX"
    ∷ entry "XOR (IY+N)" "XOR (IY+N)" 19 3 "FD AE XX"
    ∷ entry "XOR A" "XOR A" 4 1 "AF"
    ∷ entry "XOR C" "XOR C" 4 1 "A9"
    ∷ []
