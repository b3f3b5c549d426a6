-- ===== src/Outfmt/Snapshot/Memory.antt =====
-- `patchAddr` of src/outfmt/gensnapshot.py: what a patch that fits writes, and what it leaves.
use zxbasic.Prelude.{
  ℕ, ◌+◌, ◌-◌, ◌≤◌, ◌<◌, true, List, ◌++◌, Option, some, length, take, drop, get_elem?,
  length-append, length-take, length-drop, get_elem?-take, get_elem?-drop, get_elem?-append_left,
  get_elem?-append_right, ◌==◌, ◌≡◌, ◌⊎◌, inl, inr, ◌∙◌, arith,
}
use Prim.Native.Nat.{min, max}
use zxbasic.Prelude.Int.{pos, ◌+ℤ◌, ◌-ℤ◌}
use zxbasic.Prelude.Monad.{Returns, Returns-some}
use zxbasic.Outfmt.Snapshot.{set_slice, patch_addr, ram_size}

-- The byte at an address of the RAM.
abbrev pub peek : ℕ → List ℕ → Option ℕ
peek addr mem = get_elem? mem (addr - 16384)

-- `m` is `mem` with `bytes` written at the address `a`.
pub record Patched (a : ℕ) (bytes mem m : List ℕ) : Type 0 where
  pub size : length m ≡ ram_size
  pub inside : (k : ℕ) → k < length bytes → peek (a + k) m ≡ get_elem? bytes k
  pub outside : (x : ℕ) → 16384 ≤ x → (x < a) ⊎ (a + length bytes ≤ x) → peek x m ≡ peek x mem

module _ (mem bytes : List ℕ) (i : ℕ) (fits : i + length bytes ≤ length mem) where
  length-set_slice : length (set_slice mem i (i + length bytes) bytes) ≡ length mem
  unfolding set_slice
  length-set_slice =
      let j = max i (i + length bytes) in
      omega (
        arith,
        length-append (take i mem) (bytes ++ drop j mem),
        length-append bytes (drop j mem),
        length-take i mem,
        length-drop j mem,
      )

  set_slice-inside :
      (k : ℕ)
      → k < length bytes
      → get_elem? (set_slice mem i (i + length bytes) bytes) (i + k) ≡ get_elem? bytes k
  unfolding set_slice
  set_slice-inside k h =
      let j = max i (i + length bytes) in
      let n : length (take i mem) ≡ i = omega (arith, length-take i mem) in
      get_elem?-append_right (i + k) (take i mem) (bytes ++ drop j mem) (omega (arith, n))
      ∙ (let e : i + k - length (take i mem) ≡ k = omega (arith, n) in
          rw e (get_elem?-append_left k bytes (drop j mem) h))

  set_slice-left :
      (x : ℕ) → x < i → get_elem? (set_slice mem i (i + length bytes) bytes) x ≡ get_elem? mem x
  unfolding set_slice
  set_slice-left x h =
      get_elem?-append_left x (take i mem) _ (omega (arith, length-take i mem))
      ∙ get_elem?-take i x mem h

  set_slice-right :
      (x : ℕ)
      → i + length bytes ≤ x
      → get_elem? (set_slice mem i (i + length bytes) bytes) x ≡ get_elem? mem x
  unfolding set_slice
  set_slice-right x h =
      let j = max i (i + length bytes) in
      let n : length (take i mem) ≡ i = omega (arith, length-take i mem) in
      get_elem?-append_right x (take i mem) (bytes ++ drop j mem) (omega (arith, n))
      ∙ get_elem?-append_right (x - length (take i mem)) bytes (drop j mem) (omega (arith, n))
      ∙ get_elem?-drop j (x - length (take i mem) - length bytes) mem
      ∙ (let e : j + (x - length (take i mem) - length bytes) ≡ x = omega (arith, n) in rw e)

pub pos-sub : (a b : ℕ) → b ≤ a → pos a -ℤ pos b ≡ pos (a - b)
unfolding ◌-ℤ◌
pos-sub a b h = ground arith

pub pos-add : (a b : ℕ) → pos a +ℤ pos b ≡ pos (a + b)
unfolding ◌+ℤ◌
pos-add a b = ground arith

module _ (a : ℕ) (bytes mem : List ℕ) (full : length mem ≡ ram_size) where
  patch_addr-set_slice :
      16384 ≤ a
      → a + length bytes ≤ 65536
      → patch_addr (pos a) bytes mem
        ≡ some (set_slice mem (a - 16384) (a - 16384 + length bytes) bytes)
  unfolding patch_addr
  patch_addr-set_slice low high =
      let i = a - 16384 in
      let first : min i (length mem) ≡ i = omega (arith, full) in
      let last : min (i + length bytes) (length mem) ≡ i + length bytes = omega (arith, full) in
      let size = length-set_slice mem bytes i (omega (arith, full)) in
      let same : (length (set_slice mem i (i + length bytes) bytes) == ram_size) ≡ true =
        ground (arith, size, full) in
      rw (pos-sub a 16384 low) (rw (pos-add i (length bytes)) (rw (first, last) (rw same)))

  -- A patch that lies inside the RAM succeeds, writes its bytes and changes nothing else.
  pub patch_addr-Patched :
      16384 ≤ a
      → a + length bytes ≤ 65536
      → Returns (Patched a bytes mem) (patch_addr (pos a) bytes mem)
  patch_addr-Patched low high =
      let i = a - 16384 in
      let fits : i + length bytes ≤ length mem = omega (arith, full) in
      rw (patch_addr-set_slice low high) (
        Returns-some (Patched a bytes mem) _ (record {
          size = length-set_slice mem bytes i fits ∙ full;
          inside = λ k h.
              let e : a + k - 16384 ≡ i + k = omega arith in
              rw e (set_slice-inside mem bytes i fits k h);
          outside = λ x h side. elim side [
            | inl left ↦ set_slice-left mem bytes i fits (x - 16384) (omega arith)
            | inr right ↦ set_slice-right mem bytes i fits (x - 16384) (omega arith)
          ];
        }))
