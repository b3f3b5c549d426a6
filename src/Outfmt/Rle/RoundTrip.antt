-- ===== src/Outfmt/Rle/RoundTrip.antt =====
-- The compressed stream of src/outfmt/z80.py, read back by the documented format.
use zxbasic.Prelude.{
  ℕ, zero, suc, ◌+◌, ◌≤◌, ◌<◌, Bool, true, false, not, ◌&&◌, List, [], ◌∷◌, ◌++◌, Option, some, ltb,
  ◌==◌, replicate, length, ◌≡◌, ◌≢◌, refl, arith, ap, sym, ◌∙◌, Bool-cases, inl, inr,
}
use zxbasic.Outfmt.Rle.{find_run, write_run, compress, end_marker}
use zxbasic.Outfmt.Rle.Expand.{expand}
use mathlib.Core.Option
use native.Mathlib.Numerals.{add-one}

-- Behind a zero byte, these bytes cannot be read as the rest of an end marker.
abbrev is_clean : List ℕ → Bool
is_clean (a ∷ b ∷ c ∷ rest) = not (a == 0xED && (b == 0xED && c == 0))
is_clean _ = false

expand_plain :
    (b : ℕ) (s : List ℕ)
    → b ≢ 0xED
    → is_clean s ≡ true
    → expand (b ∷ s) ≡ Option.map (λ out. b ∷ out) (expand s)
unfolding expand
expand_plain b [] h c = cc
expand_plain b (x ∷ []) h c = cc
expand_plain b (x ∷ y ∷ []) h c = cc
expand_plain b (x ∷ y ∷ z ∷ s) h c = ground arith

expand_pair :
    (x : ℕ) (s : List ℕ)
    → x ≢ 0xED
    → is_clean s ≡ true
    → expand (0xED ∷ x ∷ s) ≡ Option.map (λ out. 0xED ∷ out) (expand (x ∷ s))
unfolding expand
expand_pair x [] h c = cc
expand_pair x (y ∷ []) h c = cc
expand_pair x (y ∷ z ∷ s) h c = ground arith

is_clean-cons : (b : ℕ) (s : List ℕ) → b ≢ 0xED → is_clean s ≡ true → is_clean (b ∷ s) ≡ true
is_clean-cons b [] h c = cc
is_clean-cons b (x ∷ []) h c = cc
is_clean-cons b (x ∷ y ∷ s) h c = ground arith

is_clean_pair : (x : ℕ) (s : List ℕ) → x ≢ 0xED → is_clean s ≡ true → is_clean (0xED ∷ x ∷ s) ≡ true
is_clean_pair x [] h c = cc
is_clean_pair x (y ∷ s) h c = ground arith

record Encodes (out mem : List ℕ) : Type 0 where
  clean : is_clean (out ++ end_marker) ≡ true
  expands : expand (out ++ end_marker) ≡ some mem

Encodes-nil : Encodes [] []
unfolding expand
Encodes-nil = record { clean = refl; expands = refl }

Encodes-last : (b : ℕ) → Encodes (b ∷ []) (b ∷ [])
unfolding expand
Encodes-last b = record { clean = ground arith; expands = ground arith }

Encodes-single :
    {out mem : List ℕ} (b : ℕ) → b ≢ 0xED → Encodes out mem → Encodes (b ∷ out) (b ∷ mem)
Encodes-single {out} {mem} b h e = record {
  clean = is_clean-cons b (out ++ end_marker) h e.clean;
  expands = rw (expand_plain b (out ++ end_marker) h e.clean) (rw e.expands);
}

Encodes-pair :
    {out mem : List ℕ} (x : ℕ)
    → x ≢ 0xED
    → Encodes out mem
    → Encodes (0xED ∷ x ∷ out) (0xED ∷ x ∷ mem)
Encodes-pair {out} {mem} x h e = record {
  clean = is_clean_pair x (out ++ end_marker) h e.clean;
  expands =
      rw (expand_pair x (out ++ end_marker) h e.clean)
        (rw (expand_plain x (out ++ end_marker) h e.clean) (rw e.expands));
}

Encodes-replicate :
    {out mem : List ℕ} (n b : ℕ)
    → b ≢ 0xED
    → Encodes out mem
    → Encodes (replicate n b ++ out) (replicate n b ++ mem)
Encodes-replicate zero b h e = e
Encodes-replicate (suc n) b h e = Encodes-single b h (Encodes-replicate n b h e)

Encodes-block :
    {out mem : List ℕ} (n b : ℕ)
    → 2 ≤ n
    → Encodes out mem
    → Encodes (0xED ∷ 0xED ∷ n ∷ b ∷ out) (replicate n b ++ mem)
unfolding expand
Encodes-block n b h e = record { clean = ground arith; expands = rw e.expands }

-- `write_run` on either branch.
Encodes-write_run :
    {out mem : List ℕ} (n b : ℕ)
    → 2 ≤ n
    → Encodes out mem
    → Encodes (write_run n b ++ out) (replicate n b ++ mem)
unfolding write_run
Encodes-write_run n b h e = elim (Bool-cases (ltb n 5 && not (b == 0xED))) [
  | inl plain ↦ rw plain (Encodes-replicate n b (ground arith) e)
  | inr block ↦ rw block (Encodes-block n b h e)
]

-- The run and the memory behind it are the memory from the start of the run.
record IsRun (b runlength : ℕ) (mem : List ℕ) (run : ℕ × List ℕ) : Type 0 where
  splits : replicate run.0 b ++ run.1 ≡ replicate runlength b ++ mem
  grows : runlength ≤ run.0
  fits : run.0 ≤ 255
  shrinks : length run.1 ≤ length mem

replicate-append_cons :
    (n b : ℕ) (mem : List ℕ) → replicate n b ++ (b ∷ mem) ≡ replicate (suc n) b ++ mem
replicate-append_cons zero b mem = refl
replicate-append_cons (suc n) b mem = ap (◌∷◌ b) (replicate-append_cons n b mem)

IsRun-longer :
    {b r x : ℕ} {mem : List ℕ} {run : ℕ × List ℕ}
    → b ≡ x
    → IsRun b (r + 1) mem run
    → IsRun b r (x ∷ mem) run
IsRun-longer {b} {r} {x} {mem} e i = record {
  splits = i.splits ∙ rw (add-one, ← e) (sym (replicate-append_cons r b mem));
  grows = omega (arith, i.grows);
  fits = i.fits;
  shrinks = omega (arith, i.shrinks);
}

find_run-IsRun :
    (b runlength : ℕ) (mem : List ℕ)
    → runlength ≤ 255
    → IsRun b runlength mem (find_run b runlength mem)
unfolding find_run
find_run-IsRun b r [] h = record {
  splits = refl;
  grows = omega arith;
  fits = h;
  shrinks = omega arith;
}
find_run-IsRun b r (x ∷ mem) h =
    let stopped : IsRun b r (x ∷ mem) (r, x ∷ mem) = record {
      splits = refl;
      grows = omega arith;
      fits = h;
      shrinks = omega arith;
    } in
    elim (Bool-cases (r == 255)) [
      | inl full ↦ rw full stopped
      | inr more ↦ elim (Bool-cases (b == x)) [
        | inl same ↦
            rw (more, same)
              (IsRun-longer (ground arith) (find_run-IsRun b (r + 1) mem (ground arith)))
        | inr other ↦ rw (more, other) stopped
      ]
    ]

record Compressed (mem : List ℕ) (result : Option (List ℕ)) : Type 0 where
  pub out : List ℕ
  pub returns : result ≡ some out
  pub encodes : Encodes out mem

Compressed-map :
    {mem mem' : List ℕ} {r : Option (List ℕ)} (f : List ℕ → List ℕ)
    → ((out : List ℕ) → Encodes out mem → Encodes (f out) mem')
    → Compressed mem r
    → Compressed mem' (Option.map f r)
Compressed-map f step c = record {
  out = f c.out;
  returns = rw c.returns;
  encodes = step c.out c.encodes;
}

Compressed-run :
    {b : ℕ} {mem : List ℕ} {run : ℕ × List ℕ} {r : Option (List ℕ)}
    → IsRun b 2 mem run
    → Compressed run.1 r
    → Compressed (b ∷ b ∷ mem) (Option.map (λ out. write_run run.0 b ++ out) r)
Compressed-run {b} {mem} {run} i =
    Compressed-map (λ out. write_run run.0 b ++ out)
      λ out e. rw i.splits at (Encodes-write_run run.0 b i.grows e)

compress-Compressed :
    (fuel : ℕ) (mem : List ℕ) → length mem < fuel → Compressed mem (compress fuel mem)
unfolding compress
compress-Compressed zero mem h = absurd (omega arith)
compress-Compressed (suc f) [] h = record { out = []; returns = refl; encodes = Encodes-nil }
compress-Compressed (suc f) (b ∷ []) h = record {
  out = b ∷ [];
  returns = refl;
  encodes = Encodes-last b;
}
compress-Compressed (suc f) (b ∷ x ∷ mem) h = elim (Bool-cases (b == x)) [
  | inl same ↦
      let run = find_run-IsRun b 2 mem (omega arith) in
      let e : b ≡ x = ground arith in
      rw same (
        rw (← e) (
          Compressed-run run
            (compress-Compressed f (find_run b 2 mem).1 (omega (arith, run.shrinks)))))
  | inr other ↦ elim (Bool-cases (b == 0xED)) [
    | inl escape ↦
        let e : b ≡ 0xED = ground arith in
        rw (other, escape)
          (rw e (
            Compressed-map (λ out. 0xED ∷ x ∷ out) (λ out. Encodes-pair x (ground arith))
              (compress-Compressed f mem (omega arith))))
    | inr plain ↦
        rw (other, plain)
          (Compressed-map (◌∷◌ b) (λ out. Encodes-single b (ground arith))
            (compress-Compressed f (x ∷ mem) (omega arith)))
  ]
]

-- With a fuel above the memory's length the compression of src/outfmt/z80.py returns a stream,
-- and the documented format expands that stream and the end marker to exactly the memory.
pub expand-compress :
    (fuel : ℕ) (mem : List ℕ)
    → length mem < fuel
    → (out : List ℕ) × (compress fuel mem ≡ some out) × (expand (out ++ end_marker) ≡ some mem)
expand-compress fuel mem h =
    let c = compress-Compressed fuel mem h in (c.out, c.returns, c.encodes.expands)
