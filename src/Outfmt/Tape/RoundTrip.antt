-- ===== src/Outfmt/Tape/RoundTrip.antt =====
-- The tapes of src/outfmt/tzx.py and src/outfmt/tap.py, read back block by block.
use zxbasic.Prelude.{
  ℕ, zero, suc, ◌+◌, ◌*◌, ◌/◌, ◌%◌, ◌<◌, ◌≤◌, false, List, [], ◌∷◌, ◌++◌, Option, none, some, map,
  ltb, bit_xor, length, All, IsBytes, append_assoc, append-nil, length-append, length-map,
  take-length_append, drop-length_append, ◌≡◌, refl, sym, ap, arith,
}
use zxbasic.Prelude.Xor.{bit_xor_self, bit_xor-lt}
use zxbasic.Outfmt.Tape.{
  Format, tzx, tap, lh, low_byte, out_bytes, init, standard_block, save_header,
  standard_bytes_header, standard_program_header, save_code, save_loader, save_program, save_aux,
  save_headless, emit, header_bytes, loader_title,
}
use zxbasic.Outfmt.Tape.Reader.{
  xor_all, payload, read_data, read_length, read_block, read_blocks, signature,
}

low_byte_idem : (bs : List ℕ) → map low_byte (map low_byte bs) ≡ map low_byte bs
low_byte_idem [] = refl
low_byte_idem (b ∷ bs) = ground (arith, low_byte_idem bs)

map-low_byte-IsBytes : (bs : List ℕ) → IsBytes (map low_byte bs)
map-low_byte-IsBytes [] = tt
map-low_byte-IsBytes (b ∷ bs) = (omega arith, map-low_byte-IsBytes bs)

out_bytes_lem :
    (bs o : List ℕ) (c : ℕ) → out_bytes c bs o ≡ (xor_all c (map low_byte bs), o ++ map low_byte bs)
unfolding out_bytes
out_bytes_lem [] o c = rw append-nil
out_bytes_lem (b ∷ bs) o c = rw (out_bytes_lem bs) (rw append_assoc)

abbrev prefix : Format → List ℕ
prefix tzx = 0x10 ∷ 0xE8 ∷ 3 ∷ []
prefix tap = []

-- A block on the tape: what stands behind its length, and all of it.
data_of : List ℕ → List ℕ
data_of bs = map low_byte bs ++ low_byte (xor_all 0 (map low_byte bs)) ∷ []

abbrev block : Format → List ℕ → List ℕ
block f bs = prefix f ++ (lh (length bs + 1) ++ data_of bs)

mod_mod : (n : ℕ) → n % 256 % 256 ≡ n % 256
mod_mod n = omega arith

standard_block_lem : (f : Format) (bs o : List ℕ) → standard_block f bs o ≡ o ++ block f bs
unfolding standard_block data_of
standard_block_lem tzx bs o = simp (out_bytes_lem bs, append_assoc, mod_mod)
standard_block_lem tap bs o = simp (out_bytes_lem bs, append_assoc, mod_mod)

xor_all-append : (xs ys : List ℕ) (c : ℕ) → xor_all c (xs ++ ys) ≡ xor_all (xor_all c xs) ys
xor_all-append [] ys c = refl
xor_all-append (x ∷ xs) ys c = xor_all-append xs ys (bit_xor c x)

xor_all-lt : (xs : List ℕ) (c : ℕ) → c < 256 → IsBytes xs → xor_all c xs < 256
xor_all-lt [] c h k = h
xor_all-lt (x ∷ xs) c h k = xor_all-lt xs (bit_xor c x) (bit_xor-lt 8 c x h k.0) k.1

payload_last : (xs : List ℕ) (c : ℕ) → payload (xs ++ c ∷ []) ≡ xs
payload_last [] c = refl
payload_last (x ∷ []) c = refl
payload_last (x ∷ y ∷ xs) c = ap (◌∷◌ x) (payload_last (y ∷ xs) c)

-- The checksum makes the sum of all bytes of the block zero.
xor_all_checksum : (bs : List ℕ) → IsBytes bs → xor_all 0 (bs ++ low_byte (xor_all 0 bs) ∷ []) ≡ 0
xor_all_checksum bs h = rw (xor_all-append bs) (
    let e : low_byte (xor_all 0 bs) ≡ xor_all 0 bs =
      omega (arith, xor_all-lt bs 0 (omega arith) h) in
    rw e (bit_xor_self (xor_all 0 bs)))

length-data_of : (bs : List ℕ) → length (data_of bs) ≡ length bs + 1
unfolding data_of
length-data_of bs = rw (length-append (map low_byte bs)) (rw (length-map bs))

xor_all-data_of : (bs : List ℕ) → xor_all 0 (data_of bs) ≡ 0
unfolding data_of
xor_all-data_of bs = xor_all_checksum (map low_byte bs) (map-low_byte-IsBytes bs)

payload-data_of : (bs : List ℕ) → payload (data_of bs) ≡ map low_byte bs
unfolding data_of
payload-data_of bs = payload_last (map low_byte bs) (low_byte (xor_all 0 (map low_byte bs)))

read_data-data_of :
    (bs rest : List ℕ)
    → read_data (length (data_of bs)) (data_of bs ++ rest) ≡ some (map low_byte bs, rest)
unfolding read_data
read_data-data_of bs rest =
    let long : ltb (length (data_of bs ++ rest)) (length (data_of bs)) ≡ false =
      ground (arith, length-append (data_of bs) rest) in
    rw (long, take-length_append (data_of bs), drop-length_append (data_of bs))
      (rw (xor_all-data_of bs, payload-data_of bs))

read_length-block :
    (bs rest : List ℕ)
    → length bs + 1 < 65536
    → read_length (lh (length bs + 1) ++ (data_of bs ++ rest)) ≡ some (map low_byte bs, rest)
unfolding read_length
read_length-block bs rest h =
    let n = length bs + 1 in
    let e : n % 256 + 256 * (n / 256 % 256) ≡ length (data_of bs) =
      omega (arith, length-data_of bs) in
    rw e (read_data-data_of bs rest)

read_block-block :
    (f : Format) (bs rest : List ℕ)
    → length bs + 1 < 65536
    → read_block f (block f bs ++ rest) ≡ some (map low_byte bs, rest)
unfolding read_block
read_block-block tap bs rest h = read_length-block bs rest h
read_block-block tzx bs rest h = read_length-block bs rest h

abbrev tape : Format → List (List ℕ) → List ℕ
tape f [] = []
tape f (bs ∷ blocks) = block f bs ++ tape f blocks

read_blocks-cons :
    (f : Format) (b fuel : ℕ) (s : List ℕ) {x rest : List ℕ} {xs : List (List ℕ)}
    → read_block f (b ∷ s) ≡ some (x, rest)
    → read_blocks f fuel rest ≡ some xs
    → read_blocks f (suc fuel) (b ∷ s) ≡ some (x ∷ xs)
unfolding read_blocks
read_blocks-cons f b fuel s p q = rw (p, read_blocks) (rw (q, read_blocks))

read_blocks-tape :
    (f : Format) (blocks : List (List ℕ)) (fuel : ℕ)
    → length blocks ≤ fuel
    → All (λ bs. length bs + 1 < 65536) blocks
    → read_blocks f fuel (tape f blocks) ≡ some (map (map low_byte) blocks)
unfolding read_blocks
read_blocks-tape f [] fuel h k = refl
read_blocks-tape f (bs ∷ blocks) zero h k = absurd (omega arith)
read_blocks-tape tzx (bs ∷ blocks) (suc fuel) h k =
    read_blocks-cons tzx _ fuel _ (read_block-block tzx bs (tape tzx blocks) k.0)
      (read_blocks-tape tzx blocks fuel (omega arith) k.1)
read_blocks-tape tap (bs ∷ blocks) (suc fuel) h k =
    read_blocks-cons tap _ fuel _ (read_block-block tap bs (tape tap blocks) k.0)
      (read_blocks-tape tap blocks fuel (omega arith) k.1)

tape-append : (f : Format) (xs ys : List (List ℕ)) → tape f (xs ++ ys) ≡ tape f xs ++ tape f ys
tape-append f [] ys = refl
tape-append f (x ∷ xs) ys =
    rw (tape-append f xs ys) (sym (append_assoc (block f x) (tape f xs) (tape f ys)))

-- The blocks that `emit` is to write, in order: each a list of bytes, its flag first.
abbrev pub code_blocks : List ℕ → ℕ → List ℕ → List (List ℕ)
code_blocks title addr bytes =
    header_bytes 3 title (length bytes) addr 32768 ∷ (0xFF ∷ map low_byte bytes) ∷ []

abbrev pub loader_blocks : Option (List ℕ) → List (List ℕ)
loader_blocks none = []
loader_blocks (some bytes) =
    header_bytes 0 loader_title (length bytes) 1 (length bytes) ∷ (0xFF ∷ map low_byte bytes) ∷ []

abbrev pub aux_blocks : List (List ℕ × List ℕ) → List (List ℕ)
aux_blocks [] = []
aux_blocks ((name, bytes) ∷ rest) = code_blocks name 0 bytes ++ aux_blocks rest

abbrev pub tape_blocks :
    List ℕ → Option (List ℕ) → ℕ → List ℕ → List (List ℕ × List ℕ) → List (List ℕ) → List (List ℕ)
tape_blocks name loader entry program aux headless =
    loader_blocks loader ++ (code_blocks name entry program ++ (aux_blocks aux ++ headless))

init_lem : (f : Format) → init f ≡ signature f
unfolding init
init_lem tzx = refl
init_lem tap = refl

save_code_lem :
    (f : Format) (title : List ℕ) (addr : ℕ) (bytes o : List ℕ)
    → save_code f title addr bytes o ≡ o ++ tape f (code_blocks title addr bytes)
unfolding save_code standard_bytes_header save_header
save_code_lem f title addr bytes o = simp (save_code, standard_block_lem, append_assoc, append-nil)

save_loader_lem :
    (f : Format) (loader : Option (List ℕ)) (o : List ℕ)
    → save_loader f loader o ≡ o ++ tape f (loader_blocks loader)
unfolding save_program standard_program_header save_header
save_loader_lem f none o = sym (append-nil o)
save_loader_lem f (some bytes) o = simp (save_program, standard_block_lem, append_assoc, append-nil)

save_aux_lem :
    (f : Format) (aux : List (List ℕ × List ℕ)) (o : List ℕ)
    → save_aux f aux o ≡ o ++ tape f (aux_blocks aux)
unfolding save_aux
save_aux_lem f [] o = sym (append-nil o)
save_aux_lem f ((name, bytes) ∷ rest) o = simp (save_aux_lem f rest, save_code_lem, append_assoc)

save_headless_lem :
    (f : Format) (blocks : List (List ℕ)) (o : List ℕ)
    → save_headless f blocks o ≡ o ++ tape f blocks
unfolding save_headless
save_headless_lem f [] o = sym (append-nil o)
save_headless_lem f (bs ∷ blocks) o =
    simp (save_headless_lem f blocks, standard_block_lem, append_assoc)

emit_lem :
    (f : Format) (name : List ℕ) (loader : Option (List ℕ)) (entry : ℕ) (program : List ℕ)
    (aux : List (List ℕ × List ℕ)) (headless : List (List ℕ))
    → emit f name loader entry program aux headless
      ≡ signature f ++ tape f (tape_blocks name loader entry program aux headless)
unfolding emit
emit_lem f name loader entry program aux headless = simp (
  save_headless_lem, save_aux_lem, save_code_lem, save_loader_lem, init_lem, append_assoc,
  tape-append,
)

-- Reading back a whole tape. For either format, if each block with its checksum is shorter than
-- 65536 bytes, the output of `emit` is the signature and a rest in which a reader that verifies
-- every checksum finds exactly the blocks that were asked for, in order: the loader's header and
-- program (if there is a loader), the program's, those of the named blocks, and the headless
-- blocks, each byte truncated to its low eight bits.
pub read_blocks-emit :
    (f : Format) (name : List ℕ) (loader : Option (List ℕ)) (entry : ℕ) (program : List ℕ)
    (aux : List (List ℕ × List ℕ)) (headless : List (List ℕ))
    → All (λ bs. length bs + 1 < 65536) (tape_blocks name loader entry program aux headless)
    → (rest : List ℕ) × (emit f name loader entry program aux headless ≡ signature f ++ rest)
      × (read_blocks f (length (tape_blocks name loader entry program aux headless)) rest
          ≡ some (map (map low_byte) (tape_blocks name loader entry program aux headless)))
read_blocks-emit f name loader entry program aux headless h =
    let blocks = tape_blocks name loader entry program aux headless in
    (
      tape f blocks,
      emit_lem f name loader entry program aux headless,
      read_blocks-tape f blocks (length blocks) (omega arith) h,
    )
