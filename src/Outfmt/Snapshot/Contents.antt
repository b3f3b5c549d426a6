-- ===== src/Outfmt/Snapshot/Contents.antt =====
-- What the snapshot of src/outfmt/gensnapshot.py holds for arguments that fit the machine.
use zxbasic.Prelude.{
  ℕ, ◌+◌, ◌-◌, ◌*◌, ◌/◌, ◌%◌, ◌≤◌, ◌<◌, true, List, [], ◌∷◌, Option, none, some, length,
  length-replicate, get_elem?, All, IsBytes, ltb, ◌≡◌, ◌⊎◌, inl, inr, refl, ◌∙◌, arith,
}
use zxbasic.Prelude.Int.{pos}
use zxbasic.Prelude.Monad.{Returns, Returns-some, Returns-bind}
use zxbasic.Outfmt.Snapshot.{
  patch_addr, ram_size, word, patch_word, patch_pointers, patch_contents, blank_memory, image,
  default_loader, loader_or_default, basic_start, Snapshot, gen_snapshot,
}
use zxbasic.Outfmt.Snapshot.Memory.{peek, Patched, patch_addr-Patched, pos-sub}
use zxbasic.Outfmt.Snapshot.Tables.{
  zeros, attributes, system_variables, chans_data, edit_line, stack_bytes, udg_bytes,
}

abbrev IsFull : List ℕ → Type 0
IsFull mem = length mem ≡ ram_size

-- Bytes that stand in the RAM from an address on, and the little endian word at an address.
abbrev pub Region : Type 0
Region = ℕ × List ℕ

abbrev pub HasBytes : List ℕ → Region → Type 0
HasBytes mem (a, bytes) = (k : ℕ) → k < length bytes → peek (a + k) mem ≡ get_elem? bytes k

abbrev pub word_at : ℕ → ℕ → Region
word_at a x = (a, x % 256 ∷ x / 256 ∷ [])

-- A full memory in which all the regions stand.
pub record Holds (regions : List Region) (mem : List ℕ) : Type 0 where
  pub size : IsFull mem
  pub bytes : All (HasBytes mem) regions

-- A patch of `n` bytes at `a` does not touch the region.
abbrev Apart : ℕ → ℕ → Region → Type 0
Apart a n (b, bytes) = (16384 ≤ b) × ((b + length bytes ≤ a) ⊎ (a + n ≤ b))

Patched-HasBytes :
    {a : ℕ} {new mem m : List ℕ} (r : Region)
    → Patched a new mem m
    → Apart a (length new) r
    → HasBytes mem r
    → HasBytes m r
Patched-HasBytes (b, bytes) p (low, inl side) h k less =
    p.outside (b + k) (omega arith) (inl (omega arith)) ∙ h k less
Patched-HasBytes (b, bytes) p (low, inr side) h k less =
    p.outside (b + k) (omega arith) (inr (omega arith)) ∙ h k less

Patched-regions :
    {a : ℕ} {new mem m : List ℕ} (regions : List Region)
    → Patched a new mem m
    → All (Apart a (length new)) regions
    → All (HasBytes mem) regions
    → All (HasBytes m) regions
Patched-regions [] p apart h = tt
Patched-regions (r ∷ rs) p apart h =
    (Patched-HasBytes r p apart.0 h.0, Patched-regions rs p apart.1 h.1)

-- A patch of `n` bytes at `a` stays in the RAM and touches none of the regions.
abbrev Fits : ℕ → ℕ → List Region → Type 0
Fits a n regions = (16384 ≤ a) × (a + n ≤ 65536) × All (Apart a n) regions

-- A patch adds its region to those that it does not touch.
patch_addr-Holds :
    (a : ℕ) (new : List ℕ) {regions : List Region} (mem : List ℕ)
    → Holds regions mem
    → Fits a (length new) regions
    → Returns (Holds ((a, new) ∷ regions)) (patch_addr (pos a) new mem)
patch_addr-Holds a new {regions} mem h (low, high, apart) =
    let r = patch_addr-Patched a new mem h.size low high in
    record {
      value = r.value;
      returns = r.returns;
      holds = record {
        size = r.holds.size;
        bytes = (r.holds.inside, Patched-regions regions r.holds apart h.bytes);
      };
    }

patch_word-Holds :
    (a x : ℕ) {regions : List Region} (mem : List ℕ)
    → Holds regions mem
    → x < 65536
    → Fits a 2 regions
    → Returns (Holds (word_at a x ∷ regions)) (patch_word a (pos x) mem)
unfolding patch_word word
patch_word-Holds a x mem h small fits =
    let byte : ltb (x / 256) 256 ≡ true = ground arith in
    rw byte (patch_addr-Holds a (x % 256 ∷ x / 256 ∷ []) mem h fits)

Holds-tail : {r : Region} {rs : List Region} {mem : List ℕ} → Holds (r ∷ rs) mem → Holds rs mem
Holds-tail h = record { size = h.size; bytes = h.bytes.1 }

-- The seven system variables that depend on the arguments, and the channel data.
abbrev pub pointers : ℕ → ℕ → List Region
pointers clear_addr basic_end =
    word_at 23730 clear_addr
    ∷ word_at 23653 (basic_end + 4)
    ∷ word_at 23651 (basic_end + 4)
    ∷ word_at 23649 (basic_end + 4)
    ∷ word_at 23641 (basic_end + 1)
    ∷ word_at 23627 basic_end
    ∷ word_at 23613 (clear_addr - 3)
    ∷ (23734, chans_data)
    ∷ []

patch_pointers-Holds :
    (clear_addr basic_end : ℕ) (mem : List ℕ)
    → Holds ((23734, chans_data) ∷ []) mem
    → 3 ≤ clear_addr
    → clear_addr < 65536
    → basic_end + 4 < 65536
    → Returns
        (Holds (pointers clear_addr basic_end))
        (patch_pointers (pos clear_addr) basic_end mem)
unfolding patch_pointers
patch_pointers-Holds c e mem h low high fits = rw (pos-sub c 3 low) (
    Returns-bind _ _ _ _ (patch_word-Holds 23613 (c - 3) mem h (omega arith) (omega arith)) λ m h.
      Returns-bind _ _ _ _ (patch_word-Holds 23627 e m h (omega arith) (omega arith)) λ m h.
        Returns-bind _ _ _ _ (patch_word-Holds 23641 (e + 1) m h (omega arith) (omega arith)) λ m h.
          Returns-bind _ _ _ _ (patch_word-Holds 23649 (e + 4) m h (omega arith) (omega arith))
            λ m h.
              Returns-bind _ _ _ _ (patch_word-Holds 23651 (e + 4) m h (omega arith) (omega arith))
                λ m h.
                  Returns-bind _ _ _ _
                    (patch_word-Holds 23653 (e + 4) m h (omega arith) (omega arith))
                    λ m h. patch_word-Holds 23730 c m h (omega arith) (omega arith))

pub length-zeros : (n : ℕ) → length (zeros n) ≡ n
unfolding zeros
length-zeros n = length-replicate n 0

length-attributes : length attributes ≡ 768
unfolding attributes
length-attributes = length-replicate {A = ℕ} 768 0x38

full_zeros : Holds [] (zeros ram_size)
full_zeros = record { size = length-zeros ram_size; bytes = tt }

blank_memory-Holds : Returns (Holds ((23734, chans_data) ∷ [])) blank_memory
unfolding blank_memory
blank_memory-Holds =
    Returns-bind _ _ _ _
      (patch_addr-Holds 0x5800 attributes (zeros ram_size) full_zeros
        (omega (arith, length-attributes)))
      λ m h.
        Returns-bind _ _ _ _
          (patch_addr-Holds 0x5C00 system_variables m (Holds-tail h) (omega arith))
          λ m h. patch_addr-Holds 23734 chans_data m (Holds-tail h) (omega arith)

-- What the areas of the finished image hold.
abbrev pub final_regions : ℕ → List ℕ → ℕ → List ℕ → List Region
final_regions clear_addr loader mc_addr mc_bytes =
    (mc_addr, mc_bytes)
    ∷ (clear_addr - 3, stack_bytes)
    ∷ (basic_start + length loader, edit_line)
    ∷ (basic_start, loader)
    ∷ pointers clear_addr (basic_start + length loader)

-- The areas do not overlap and the program ends in the RAM.
pub record Layout (clear_addr : ℕ) (loader : List ℕ) (mc_addr : ℕ) (mc_bytes : List ℕ)
    : Type 0 where
  pub stack_above : basic_start + length loader + 4 ≤ clear_addr - 3
  pub stack_below : clear_addr + 1 ≤ mc_addr
  pub stack_below_udg : clear_addr + 1 ≤ 65368
  pub program_fits : mc_addr + length mc_bytes ≤ 65536

module _ (clear_addr : ℕ) (loader : List ℕ) (mc_addr : ℕ) (mc_bytes : List ℕ)
    (l : Layout clear_addr loader mc_addr mc_bytes) where
  open l use {stack_above, stack_below, stack_below_udg, program_fits}

  patch_contents-Holds :
      (mem : List ℕ)
      → Holds (pointers clear_addr (basic_start + length loader)) mem
      → Returns
          (Holds (final_regions clear_addr loader mc_addr mc_bytes))
          (patch_contents (pos clear_addr) loader mc_addr mc_bytes mem)
  unfolding patch_contents
  patch_contents-Holds mem h =
      let below : ltb (mc_addr + length mc_bytes) 65537 ≡ true = ground arith in
      rw (pos-sub clear_addr 3 (omega arith), below)
        (Returns-bind _ _ _ _ (patch_addr-Holds basic_start loader mem h (omega arith)) λ m h.
          Returns-bind _ _ _ _
            (patch_addr-Holds (basic_start + length loader) edit_line m h (omega arith))
            λ m h.
              Returns-bind _ _ _ _ (patch_addr-Holds (clear_addr - 3) stack_bytes m h (omega arith))
                λ m h.
                  Returns-bind _ _ _ _ (patch_addr-Holds 65368 udg_bytes m h (omega arith))
                    λ m h. patch_addr-Holds mc_addr mc_bytes m (Holds-tail h) (omega arith))

  image-Holds :
      (loader_bytes : Option (List ℕ))
      → loader_or_default loader_bytes mc_addr ≡ some loader
      → Returns
          (Holds (final_regions clear_addr loader mc_addr mc_bytes))
          (image loader_bytes (pos clear_addr) mc_addr mc_bytes)
  unfolding image
  image-Holds loader_bytes found = Returns-bind _ _ _ _ blank_memory-Holds λ m h. rw found (
      Returns-bind _ _ _ _
        (patch_addr-Holds basic_start (zeros 41613) m h (omega (arith, length-zeros 41613)))
        λ m h.
          Returns-bind _ _ _ _
            (patch_pointers-Holds clear_addr (basic_start + length loader) m (Holds-tail h)
              (omega arith) (omega arith) (omega arith))
            λ m h. patch_contents-Holds m h)

-- The fields of a snapshot that the .Z80 format stores in a byte each or in part
abbrev pub fields : Snapshot → List ℕ
fields s =
    s.a ∷ s.f ∷ s.c ∷ s.b ∷ s.l ∷ s.h ∷ s.pcl ∷ s.pch ∷ s.spl ∷ s.sph ∷ s.i ∷ s.r ∷ s.out_fe ∷ s.e
    ∷ s.d ∷ s.c2 ∷ s.b2 ∷ s.e2 ∷ s.d2 ∷ s.l2 ∷ s.h2 ∷ s.a2 ∷ s.f2 ∷ s.iyl ∷ s.iyh ∷ s.ixl ∷ s.ixh
    ∷ s.im ∷ []

-- A snapshot whose memory holds the regions, ready to run: the stack pointer, the program counter
-- at LINE_NEW (1B9Eh), interrupt mode 1 and interrupts enabled.
pub record IsReady (regions : List Region) (sp : ℕ) (s : Snapshot) : Type 0 where
  pub memory : Holds regions s.mem
  pub stack_pointer : s.sph * 256 + s.spl ≡ sp
  pub stack_bytes_fit : (s.sph < 256) × (s.spl < 256)
  pub program_counter : s.pch * 256 + s.pcl ≡ 0x1B9E
  pub fields_fit : IsBytes (fields s)
  pub interrupts : (s.im ≡ 1) × (s.iff1 ≡ 1) × (s.iff2 ≡ 1)

-- For arguments whose areas do not overlap, the constructor of src/outfmt/gensnapshot.py returns
-- a snapshot of 49152 bytes of memory that holds, all at once, the compiled program at its
-- address, the GOSUB stack at CLEAR - 3 with SP pointing to it, the edit line behind the BASIC
-- program, the BASIC program, the channel data, and the seven pointers RAMTOP, STKEND, STKBOT,
-- WORKSP, E_LINE, VARS and ERR_SP; PC is 1B9Eh.
pub gen_snapshot-IsReady :
    (loader_bytes : Option (List ℕ)) (clear_addr : ℕ) (loader : List ℕ) (mc_addr : ℕ)
    (mc_bytes : List ℕ)
    → loader_or_default loader_bytes mc_addr ≡ some loader
    → Layout clear_addr loader mc_addr mc_bytes
    → Returns
        (IsReady (final_regions clear_addr loader mc_addr mc_bytes) (clear_addr - 3))
        (gen_snapshot loader_bytes (pos clear_addr) mc_addr mc_bytes)
unfolding gen_snapshot
gen_snapshot-IsReady loader_bytes c loader a bytes found l =
    let low : 3 ≤ c = omega (arith, l.stack_above) in
    let high : c < 65536 = omega (arith, l.stack_below_udg) in
    Returns-bind _ _ _ _ (image-Holds c loader a bytes l loader_bytes found) λ m h.
      rw (pos-sub c 3 low) (
        Returns-some _ _ (record {
          memory = h;
          stack_pointer = omega arith;
          stack_bytes_fit = (omega arith, omega arith);
          program_counter = refl;
          fields_fit = omega arith;
          interrupts = (refl, refl, refl);
        }))

default_loader_lem : (a : ℕ) → a < 65536 → Returns (λ l. length l ≡ 19) (default_loader a)
unfolding default_loader word
default_loader_lem a h =
    let byte : ltb (a / 256) 256 ≡ true = ground arith in rw byte (Returns-some _ _ refl)

-- As the emitters call it, with no loader and CLEAR just below the entry point: the constructor
-- succeeds, and the snapshot is ready as above, for every program that starts at an address from
-- 23782 to 65368 and ends in the RAM; the BASIC program is the 19 bytes of the default line.
pub gen_snapshot-default :
    (entry : ℕ) (program : List ℕ)
    → 23782 ≤ entry
    → entry ≤ 65368
    → entry + length program ≤ 65536
    → (loader : List ℕ) × (default_loader entry ≡ some loader)
      × (length loader ≡ 19)
      × Returns
          (IsReady (final_regions (entry - 1) loader entry program) (entry - 1 - 3))
          (gen_snapshot none (pos (entry - 1)) entry program)
unfolding loader_or_default
gen_snapshot-default entry program low high fits =
    let r = default_loader_lem entry (omega arith) in
    (
      r.value,
      r.returns,
      r.holds,
      gen_snapshot-IsReady none (entry - 1) r.value entry program r.returns (record {
        stack_above = omega (arith, r.holds);
        stack_below = omega arith;
        stack_below_udg = omega arith;
        program_fits = fits;
      }),
    )
