-- ===== src/Outfmt/Sna/ReadBack.antt =====
-- The .SNA file of src/outfmt/sna.py, read back by the layout that its docstring documents.
use zxbasic.Prelude.{
  ℕ, ◌+◌, ◌-◌, ◌*◌, ◌/◌, ◌%◌, ◌≤◌, ◌<◌, List, [], ◌∷◌, ◌++◌, some, length, drop, set, get_elem?,
  All, true, false, ltb, length-append, length-set, get_elem?-set_self, get_elem?-set_ne,
  get_elem?-drop, get_elem?-append_left, ◌≡◌, ◌≢◌, refl, sym, ◌∙◌, arith,
}
use zxbasic.Prelude.Int.{pos, ◌+ℤ◌, ◌-ℤ◌}
use zxbasic.Prelude.Monad.{◌>>=◌, Returns}
use zxbasic.Outfmt.Snapshot.{Snapshot, default_loader, ram_size}
use zxbasic.Outfmt.Snapshot.Contents.{IsReady, final_regions, gen_snapshot-default}
use zxbasic.Outfmt.Snapshot.Memory.{pos-sub, pos-add}
use zxbasic.Outfmt.Sna.{header, header_len, set_item, pushed_sp, write, generate, emit}

-- The offsets of the registers in the documented header, with what they are to hold.
abbrev pub registers : Snapshot → ℕ → List (ℕ × ℕ)
registers s sp =
    (0, s.i)
    ∷ (1, s.l2)
    ∷ (2, s.h2)
    ∷ (3, s.e2)
    ∷ (4, s.d2)
    ∷ (5, s.c2)
    ∷ (6, s.b2)
    ∷ (7, s.f2)
    ∷ (8, s.a2)
    ∷ (9, s.l)
    ∷ (10, s.h)
    ∷ (11, s.e)
    ∷ (12, s.d)
    ∷ (13, s.c)
    ∷ (14, s.b)
    ∷ (15, s.iyl)
    ∷ (16, s.iyh)
    ∷ (17, s.ixl)
    ∷ (18, s.ixh)
    ∷ (20, s.r)
    ∷ (21, s.f)
    ∷ (22, s.a)
    ∷ (23, sp % 256)
    ∷ (24, sp / 256)
    ∷ (25, s.im)
    ∷ []

-- What a loader gets from the file for a snapshot whose stack pointer is `sp + 2`: the registers,
-- the program counter on the stack, and all other bytes of the memory.
pub record Restores (s : Snapshot) (sp : ℕ) (file : List ℕ) : Type 0 where
  pub size : length file ≡ 49179
  pub fields : All (λ f. get_elem? file f.0 ≡ some f.1) (registers s sp)
  pub pushed_low : get_elem? (drop 27 file) (sp - 16384) ≡ some s.pcl
  pub pushed_high : get_elem? (drop 27 file) (sp - 16384 + 1) ≡ some s.pch
  pub memory :
      (x : ℕ) → x ≢ sp - 16384 → x ≢ sp - 16384 + 1 → get_elem? (drop 27 file) x ≡ get_elem? s.mem x

module _ (s : Snapshot) (sp : ℕ) (full : length s.mem ≡ ram_size) (low_sp : 16384 ≤ sp)
    (high_sp : sp + 1 < 65536) where
  abbrev at : ℕ
  at = sp - 16384 + 27

  raw : List ℕ
  raw = header s sp ++ s.mem

  length-raw : length raw ≡ 49179
  unfolding raw
  length-raw = omega (arith, length-append (header s sp) s.mem, full)

  file : List ℕ
  file = set (set raw at s.pcl) (at + 1) s.pch

  length-file : length file ≡ 49179
  unfolding file
  length-file = length-set (set raw at s.pcl) (at + 1) s.pch ∙ length-set raw at s.pcl ∙ length-raw

  file-others : (x : ℕ) → x ≢ at → x ≢ at + 1 → get_elem? file x ≡ get_elem? raw x
  unfolding file
  file-others x p q =
      get_elem?-set_ne (set raw at s.pcl) s.pch (λ e. q (sym e))
      ∙ get_elem?-set_ne raw s.pcl (λ e. p (sym e))

  file-low : get_elem? file at ≡ some s.pcl
  unfolding file
  file-low =
      get_elem?-set_ne (set raw at s.pcl) s.pch (omega arith)
      ∙ get_elem?-set_self raw at s.pcl (omega (arith, length-raw))

  file-high : get_elem? file (at + 1) ≡ some s.pch
  unfolding file
  file-high =
      get_elem?-set_self (set raw at s.pcl) (at + 1) s.pch
        (omega (arith, length-raw, length-set raw at s.pcl))

  raw-memory : (x : ℕ) → get_elem? (drop 27 raw) x ≡ get_elem? s.mem x
  unfolding raw
  raw-memory x = refl

  raw-header : (k : ℕ) → k < 27 → get_elem? raw k ≡ get_elem? (header s sp) k
  unfolding raw
  raw-header k h = get_elem?-append_left k (header s sp) s.mem h

  low : (k : ℕ) → k < 27 → get_elem? file k ≡ get_elem? (header s sp) k
  low k h = file-others k (omega arith) (omega arith) ∙ raw-header k h

  registers-file :
      (fs : List (ℕ × ℕ))
      → All (λ f. (f.0 < 27) × (get_elem? (header s sp) f.0 ≡ some f.1)) fs
      → All (λ f. get_elem? file f.0 ≡ some f.1) fs
  registers-file [] h = tt
  registers-file (f ∷ fs) h = (low f.0 h.0.0 ∙ h.0.1, registers-file fs h.1)

  file-Restores : Restores s sp file
  file-Restores = record {
    size = length-file;
    fields = registers-file (registers s sp) (ground arith);
    pushed_low =
        get_elem?-drop 27 (sp - 16384) file
        ∙ (let e : 27 + (sp - 16384) ≡ at = omega arith in rw e file-low);
    pushed_high =
        get_elem?-drop 27 (sp - 16384 + 1) file
        ∙ (let e : 27 + (sp - 16384 + 1) ≡ at + 1 = omega arith in rw e file-high);
    memory = λ x p q.
        get_elem?-drop 27 x file
        ∙ file-others (27 + x) (λ e. p (omega arith)) (λ e. q (omega arith))
        ∙ sym (get_elem?-drop 27 x raw)
        ∙ raw-memory x;
  }

  index : (k : ℕ) → pos sp -ℤ pos 16384 +ℤ pos k +ℤ pos header_len ≡ pos (sp - 16384 + k + 27)
  index k = rw (pos-sub sp 16384 low_sp) (rw pos-add (rw pos-add))

  set_items :
      (set_item raw (pos sp -ℤ pos 16384 +ℤ pos 0 +ℤ pos header_len) s.pcl >>= λ bytes.
      set_item bytes (pos sp -ℤ pos 16384 +ℤ pos 1 +ℤ pos header_len) s.pch)
      ≡ some file
  unfolding set_item file
  set_items =
      let e₀ : sp - 16384 + 0 + 27 ≡ at = omega arith in
      let e₁ : sp - 16384 + 1 + 27 ≡ at + 1 = omega arith in
      let t₀ : ltb at (length raw) ≡ true = ground (arith, length-raw) in
      let t₁ : ltb (at + 1) (length (set raw at s.pcl)) ≡ true =
        ground (arith, length-raw, length-set raw at s.pcl) in
      rw (index 0, index 1) (rw (e₀, e₁) (rw t₀ (rw t₁)))

-- The file for a snapshot of 49152 bytes whose stack lies in the RAM with room for two more bytes
-- is written, and it holds every register at its documented offset, the stack pointer less two,
-- the program counter at that address of the memory, and the memory as it was everywhere else.
pub write-Restores :
    (s : Snapshot)
    → length s.mem ≡ ram_size
    → 16386 ≤ s.sph * 256 + s.spl
    → s.sph * 256 + s.spl < 65536
    → Returns (Restores s (s.sph * 256 + s.spl - 2)) (write s)
unfolding write pushed_sp raw
write-Restores s full low high =
    let sp = s.sph * 256 + s.spl in
    let room : ltb sp 2 ≡ false = ground arith in
    let p : 16384 ≤ sp - 2 = omega arith in
    let q : sp - 2 + 1 < 65536 = omega arith in
    rw room (record {
      value = file s (sp - 2) full p q;
      returns = set_items s (sp - 2) full p q;
      holds = file-Restores s (sp - 2) full p q;
    })

-- The whole path of `emit`. A program that starts at an address from 23782 to 65368 and ends in
-- the RAM is written to a .SNA file for a snapshot that is ready to run it. In the file, the two
-- bytes that hold the program counter lie below the program, which is stored unharmed.
pub emit-Restores :
    (entry : ℕ) (program : List ℕ)
    → 23782 ≤ entry
    → entry ≤ 65368
    → entry + length program ≤ 65536
    → (loader : List ℕ) × (default_loader entry ≡ some loader)
      × (length loader ≡ 19)
      × (s : Snapshot) × IsReady (final_regions (entry - 1) loader entry program) (entry - 1 - 3) s
      × Returns
          (λ file.
            Restores s (s.sph * 256 + s.spl - 2) file
            × ((k : ℕ)
                → k < length program
                → get_elem? (drop 27 file) (entry + k - 16384) ≡ get_elem? program k))
          (emit entry program)
unfolding emit generate
emit-Restores entry program low high fits =
    let (loader, made, nineteen, r) = gen_snapshot-default entry program low high fits in
    let s = r.value in
    let ready = r.holds in
    let sp = ready.stack_pointer in
    let minus : pos entry -ℤ pos 1 ≡ pos (entry - 1) = pos-sub entry 1 (omega arith) in
    let w = write-Restores s ready.memory.size (omega (arith, sp)) (omega (arith, sp)) in
    (
      loader,
      made,
      nineteen,
      s,
      ready,
      rw minus (
          rw r.returns (record {
            value = w.value;
            returns = w.returns;
            holds = (
              w.holds,
              λ k h.
                  w.holds.memory (entry + k - 16384) (omega (arith, sp)) (omega (arith, sp))
                  ∙ ready.memory.bytes.0 k h,
            );
          })),
    )
