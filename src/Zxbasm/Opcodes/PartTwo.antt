-- ===== src/Zxbasm/Opcodes/PartTwo.antt =====
-- src/zxbasm/z80.py: lines 157 to 294 of the table `Z80SET`.
use zxbasic.Prelude.{List, [], ◌∷◌}
use zxbasic.Zxbasm.Opcodes.Entry.{Opcode, entry}

unfoldable pub part_two : List Opcode
part_two =
    entry "CCF" "CCF" 4 1 "3F"
    ∷ entry "CP (HL)" "CP (HL)" 7 1 "BE"
    ∷ entry "CP (IX+N)" "CP (IX+N)" 19 3 "DD BE XX"
    ∷ entry "CP (IY+N)" "CP (IY+N)" 19 3 "FD BE XX"
    ∷ entry "CP A" "CP A" 4 1 "BF"
    ∷ entry "CP C" "CP C" 4 1 "B9"
    ∷ entry "CP B" "CP B" 4 1 "B8"
    ∷ entry "CP E" "CP E" 4 1 "BB"
    ∷ entry "CP D" "CP D" 4 1 "BA"
    ∷ entry "CP H" "CP H" 4 1 "BC"
    ∷ entry "CP L" "CP L" 4 1 "BD"
    ∷ entry "CP N" "CP N" 7 2 "FE XX"
    ∷ entry "CPD" "CPD" 16 2 "ED A9"
    ∷ entry "CPDR" "CPDR" 21 2 "ED B9"
    ∷ entry "CPI" "CPI" 16 2 "ED A1"
    ∷ entry "CPIR" "CPIR" 21 2 "ED B1"
    ∷ entry "CPL" "CPL" 4 1 "2F"
    ∷ entry "DAA" "DAA" 4 1 "27"
    ∷ entry "DEC (HL)" "DEC (HL)" 11 1 "35"
    ∷ entry "DEC (IX+N)" "DEC (IX+N)" 23 3 "DD 35 XX"
    ∷ entry "DEC (IY+N)" "DEC (IY+N)" 23 3 "FD 35 XX"
    ∷ entry "DEC A" "DEC A" 4 1 "3D"
    ∷ entry "DEC B" "DEC B" 4 1 "05"
    ∷ entry "DEC BC" "DEC BC" 6 1 "0B"
    ∷ entry "DEC C" "DEC C" 4 1 "0D"
    ∷ entry "DEC D" "DEC D" 4 1 "15"
    ∷ entry "DEC DE" "DEC DE" 6 1 "1B"
    ∷ entry "DEC E" "DEC E" 4 1 "1D"
    ∷ entry "DEC H" "DEC H" 4 1 "25"
    ∷ entry "DEC HL" "DEC HL" 6 1 "2B"
    ∷ entry "DEC IX" "DEC IX" 10 2 "DD 2B"
    ∷ entry "DEC IY" "DEC IY" 10 2 "FD 2B"
    ∷ entry "DEC L" "DEC L" 4 1 "2D"
    ∷ entry "DEC SP" "DEC SP" 6 1 "3B"
    ∷ entry "DI" "DI" 4 1 "F3"
    ∷ entry "DJNZ N" "DJNZ N" 13 2 "10 XX"
    ∷ entry "EI" "EI" 4 1 "FB"
    ∷ entry "EX (SP),HL" "EX (SP),HL" 19 1 "E3"
    ∷ entry "EX (SP),IX" "EX (SP),IX" 23 2 "DD E3"
    ∷ entry "EX (SP),IY" "EX (SP),IY" 23 2 "FD E3"
    ∷ entry "EX AF,AF'" "EX AF,AF'" 4 1 "08"
    ∷ entry "EX DE,HL" "EX DE,HL" 4 1 "EB"
    ∷ entry "EXX" "EXX" 4 1 "D9"
    ∷ entry "HALT" "HALT" 4 1 "76"
    ∷ entry "IM 0" "IM 0" 8 2 "ED 46"
    ∷ entry "IM 1" "IM 1" 8 2 "ED 56"
    ∷ entry "IM 2" "IM 2" 8 2 "ED 5E"
    ∷ entry "IN A,(C)" "IN A,(C)" 12 2 "ED 78"
    ∷ entry "IN A,(N)" "IN A,(N)" 11 2 "DB XX"
    ∷ entry "IN B,(C)" "IN B,(C)" 12 2 "ED 40"
    ∷ entry "IN C,(C)" "IN C,(C)" 12 2 "ED 48"
    ∷ entry "IN D,(C)" "IN D,(C)" 12 2 "ED 50"
    ∷ entry "IN E,(C)" "IN E,(C)" 12 2 "ED 58"
    ∷ entry "IN H,(C)" "IN H,(C)" 12 2 "ED 60"
    ∷ entry "IN L,(C)" "IN L,(C)" 12 2 "ED 68"
    ∷ entry "INC (HL)" "INC (HL)" 11 1 "34"
    ∷ entry "INC (IX+N)" "INC (IX+N)" 23 3 "DD 34 XX"
    ∷ entry "INC (IY+N)" "INC (IY+N)" 23 3 "FD 34 XX"
    ∷ entry "INC A" "INC A" 4 1 "3C"
    ∷ entry "INC B" "INC B" 4 1 "04"
    ∷ entry "INC BC" "INC BC" 6 1 "03"
    ∷ entry "INC C" "INC C" 4 1 "0C"
    ∷ entry "INC D" "INC D" 4 1 "14"
    ∷ entry "INC DE" "INC DE" 6 1 "13"
    ∷ entry "INC E" "INC E" 4 1 "1C"
    ∷ entry "INC H" "INC H" 4 1 "24"
    ∷ entry "INC HL" "INC HL" 6 1 "23"
    ∷ entry "INC IX" "INC IX" 10 2 "DD 23"
    ∷ entry "INC IY" "INC IY" 10 2 "FD 23"
    ∷ entry "INC L" "INC L" 4 1 "2C"
    ∷ entry "INC SP" "INC SP" 6 1 "33"
    ∷ entry "IND" "IND" 16 2 "ED AA"
    ∷ entry "INDR" "INDR" 21 2 "ED BA"
    ∷ entry "INI" "INI" 16 2 "ED A2"
    ∷ entry "INIR" "INIR" 21 2 "ED B2"
    ∷ entry "JP NN" "JP NN" 10 3 "C3 XX XX"
    ∷ entry "JP (HL)" "JP (HL)" 4 1 "E9"
    ∷ entry "JP (IX)" "JP (IX)" 8 2 "DD E9"
    ∷ entry "JP (IY)" "JP (IY)" 8 2 "FD E9"
    ∷ entry "JP C,NN" "JP C,NN" 10 3 "DA XX XX"
    ∷ entry "JP M,NN" "JP M,NN" 10 3 "FA XX XX"
    ∷ entry "JP NC,NN" "JP NC,NN" 10 3 "D2 XX XX"
    ∷ entry "JP NZ,NN" "JP NZ,NN" 10 3 "C2 XX XX"
    ∷ entry "JP P,NN" "JP P,NN" 10 3 "F2 XX XX"
    ∷ entry "JP PE,NN" "JP PE,NN" 10 3 "EA XX XX"
    ∷ entry "JP PO,NN" "JP PO,NN" 10 3 "E2 XX XX"
    ∷ entry "JP Z,NN" "JP Z,NN" 10 3 "CA XX XX"
    ∷ entry "JR N" "JR N" 12 2 "18 XX"
    ∷ entry "JR C,N" "JR C,N" 12 2 "38 XX"
    ∷ entry "JR NC,N" "JR NC,N" 12 2 "30 XX"
    ∷ entry "JR NZ,N" "JR NZ,N" 12 2 "20 XX"
    ∷ entry "JR Z,N" "JR Z,N" 12 2 "28 XX"
    ∷ entry "LD (BC),A" "LD (BC),A" 7 1 "02"
    ∷ entry "LD (DE),A" "LD (DE),A" 7 1 "12"
    ∷ entry "LD (HL),A" "LD (HL),A" 7 1 "77"
    ∷ entry "LD (HL),C" "LD (HL),C" 7 1 "71"
    ∷ entry "LD (HL),B" "LD (HL),B" 7 1 "70"
    ∷ entry "LD (HL),E" "LD (HL),E" 7 1 "73"
    ∷ entry "LD (HL),D" "LD (HL),D" 7 1 "72"
    ∷ entry "LD (HL),H" "LD (HL),H" 7 1 "74"
    ∷ entry "LD (HL),L" "LD (HL),L" 7 1 "75"
    ∷ entry "LD (HL),N" "LD (HL),N" 10 2 "36 XX"
    ∷ entry "LD (IX+N),A" "LD (IX+N),A" 19 3 "DD 77 XX"
    ∷ entry "LD (IX+N),C" "LD (IX+N),C" 19 3 "DD 71 XX"
    ∷ entry "LD (IX+N),B" "LD (IX+N),B" 19 3 "DD 70 XX"
    ∷ entry "LD (IX+N),E" "LD (IX+N),E" 19 3 "DD 73 XX"
    ∷ entry "LD (IX+N),D" "LD (IX+N),D" 19 3 "DD 72 XX"
    ∷ entry "LD (IX+N),H" "LD (IX+N),H" 19 3 "DD 74 XX"
    ∷ entry "LD (IX+N),L" "LD (IX+N),L" 19 3 "DD 75 XX"
    ∷ entry "LD (IX+N),N" "LD (IX+N),N" 19 4 "DD 36 XX XX"
    ∷ entry "LD (IY+N),A" "LD (IY+N),A" 19 3 "FD 77 XX"
    ∷ entry "LD (IY+N),C" "LD (IY+N),C" 19 3 "FD 71 XX"
    ∷ entry "LD (IY+N),B" "LD (IY+N),B" 19 3 "FD 70 XX"
    ∷ entry "LD (IY+N),E" "LD (IY+N),E" 19 3 "FD 73 XX"
    ∷ entry "LD (IY+N),D" "LD (IY+N),D" 19 3 "FD 72 XX"
    ∷ entry "LD (IY+N),H" "LD (IY+N),H" 19 3 "FD 74 XX"
    ∷ entry "LD (IY+N),L" "LD (IY+N),L" 19 3 "FD 75 XX"
    ∷ entry "LD (IY+N),N" "LD (IY+N),N" 19 4 "FD 36 XX XX"
    ∷ entry "LD (NN),A" "LD (NN),A" 13 3 "32 XX XX"
    ∷ entry "LD (NN),BC" "LD (NN),BC" 20 4 "ED 43 XX XX"
    ∷ entry "LD (NN),DE" "LD (NN),DE" 20 4 "ED 53 XX XX"
    ∷ entry "LD (NN),HL" "LD (NN),HL" 16 3 "22 XX XX"
    ∷ entry "LD (NN),IX" "LD (NN),IX" 20 4 "DD 22 XX XX"
    ∷ entry "LD (NN),IY" "LD (NN),IY" 20 4 "FD 22 XX XX"
    ∷ entry "LD (NN),SP" "LD (NN),SP" 20 4 "ED 73 XX XX"
    ∷ entry "LD A,(BC)" "LD A,(BC)" 7 1 "0A"
    ∷ entry "LD A,(DE)" "LD A,(DE)" 7 1 "1A"
    ∷ entry "LD A,(HL)" "LD A,(HL)" 7 1 "7E"
    ∷ entry "LD A,(IX+N)" "LD A,(IX+N)" 19 3 "DD 7E XX"
    ∷ entry "LD A,(IY+N)" "LD A,(IY+N)" 19 3 "FD 7E XX"
    ∷ entry "LD A,(NN)" "LD A,(NN)" 13 3 "3A XX XX"
    ∷ entry "LD A,A" "LD A,A" 4 1 "7F"
    ∷ entry "LD A,C" "LD A,C" 4 1 "79"
    ∷ entry "LD A,B" "LD A,B" 4 1 "78"
    ∷ entry "LD A,E" "LD A,E" 4 1 "7B"
    ∷ entry "LD A,D" "LD A,D" 4 1 "7A"
    ∷ entry "LD A,H" "LD A,H" 4 1 "7C"
    ∷ entry "LD A,L" "LD A,L" 4 1 "7D"
    ∷ []
