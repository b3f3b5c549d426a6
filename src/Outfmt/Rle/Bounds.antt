-- ===== src/Outfmt/Rle/Bounds.antt =====
-- src/outfmt/z80.py: the bytes and the length of the compressed stream.
use zxbasic.Prelude.{
  ℕ, zero, suc, ◌+◌, ◌*◌, ◌≤◌, ◌<◌, not, ◌&&◌, List, [], ◌∷◌, ◌++◌, Option, none, some, ltb, ◌==◌,
  replicate, length, length-append, ◌≡◌, refl, arith, Bool-cases, inl, inr, IsBytes,
}
use zxbasic.Outfmt.Rle.{find_run, write_run, compress}
use zxbasic.Outfmt.Rle.RoundTrip.{expand-compress}
use mathlib.Core.Option
use mathlib.Core.Path.{subst}

-- What a run is, from a length so far.
record IsRun (start : ℕ) (mem : List ℕ) (run : ℕ × List ℕ) : Type 0 where
  at_least : start ≤ run.0
  at_most : run.0 ≤ 255
  consumed : run.0 + length run.1 ≡ start + length mem
  bytes : IsBytes run.1

find_run-IsRun :
    (b start : ℕ) (mem : List ℕ)
    → start ≤ 255
    → IsBytes mem
    → IsRun start mem (find_run b start mem)
unfolding find_run
find_run-IsRun b start [] h m = record {
  at_least = omega arith;
  at_most = h;
  consumed = refl;
  bytes = tt;
}
find_run-IsRun b start (x ∷ mem) h m = elim (Bool-cases (start == 255)) [
  | inl full ↦ rw full (record { at_least = omega arith; at_most = h; consumed = refl; bytes = m })
  | inr more ↦ rw more (elim (Bool-cases (not (b == x))) [
    | inl other ↦
        rw other (record { at_least = omega arith; at_most = h; consumed = refl; bytes = m })
    | inr same ↦ rw same (
        let r = find_run-IsRun b (start + 1) mem (ground arith) m.1 in
        record {
          at_least = omega (arith, r.at_least);
          at_most = r.at_most;
          consumed = omega (arith, r.consumed);
          bytes = r.bytes;
        })
  ])
]

record Fits (n : ℕ) (out : List ℕ) : Type 0 where
  bytes : IsBytes out
  short : length out ≤ 2 * n

IsBytes-append : (xs ys : List ℕ) → IsBytes xs → IsBytes ys → IsBytes (xs ++ ys)
IsBytes-append [] ys a b = b
IsBytes-append (x ∷ xs) ys a b = (a.0, IsBytes-append xs ys a.1 b)

replicate-Fits : (n b : ℕ) → b < 256 → Fits n (replicate n b)
replicate-Fits zero b h = record { bytes = tt; short = omega arith }
replicate-Fits (suc n) b h =
    let r = replicate-Fits n b h in record { bytes = (h, r.bytes); short = omega (arith, r.short) }

write_run-Fits : (n b : ℕ) → 2 ≤ n → n ≤ 255 → b < 256 → Fits n (write_run n b)
unfolding write_run
write_run-Fits n b two n_byte h = elim (Bool-cases (ltb n 5 && not (b == 0xED))) [
  | inl short ↦ rw short (replicate-Fits n b h)
  | inr long ↦ rw long (record { bytes = omega arith; short = omega arith })
]

abbrev Fitting : ℕ → Option (List ℕ) → Type 0
Fitting n r = (out : List ℕ) → r ≡ some out → Fits n out

some-Fitting : (n : ℕ) (o : List ℕ) → Fits n o → Fitting n (some o)
some-Fitting n o f out e = let same : o ≡ out = cc e in subst (Fits n) same f

map-Fitting :
    (f : List ℕ → List ℕ) (k n : ℕ) (r : Option (List ℕ))
    → ((out : List ℕ) → Fits k out → Fits n (f out))
    → Fitting k r
    → Fitting n (Option.map f r)
map-Fitting f k n none step h out e = cc
map-Fitting f k n (some o) step h out e =
    let same : f o ≡ out = cc e in subst (Fits n) same (step o (h o refl))

cons-Fits : (n b : ℕ) (out : List ℕ) → b < 256 → Fits n out → Fits (suc n) (b ∷ out)
cons-Fits n b out h f = record { bytes = (h, f.bytes); short = omega (arith, f.short) }

-- A run behind the rest of the memory.
run-Fits :
    (n b : ℕ) (mem rest out : List ℕ)
    → 2 ≤ n
    → n ≤ 255
    → b < 256
    → n + length rest ≡ 2 + length mem
    → Fits (length rest) out
    → Fits (suc (suc (length mem))) (write_run n b ++ out)
run-Fits n b mem rest out two n_byte h total f =
    let r = write_run-Fits n b two n_byte h in
    record {
      bytes = IsBytes-append (write_run n b) out r.bytes f.bytes;
      short = omega (arith, length-append {0} (write_run n b) out, r.short, f.short, total);
    }

compress-Fitting :
    (fuel : ℕ) (mem : List ℕ) → IsBytes mem → Fitting (length mem) (compress fuel mem)
unfolding compress
compress-Fitting zero mem h = λ out e. cc
compress-Fitting (suc fuel) [] h = some-Fitting 0 [] (record { bytes = tt; short = omega arith })
compress-Fitting (suc fuel) (b ∷ []) h =
    some-Fitting 1 (b ∷ []) (record { bytes = h; short = omega arith })
compress-Fitting (suc fuel) (b ∷ x ∷ mem) h = elim (Bool-cases (b == x)) [
  | inl same ↦
      let r = find_run-IsRun b 2 mem (omega arith) h.1.1 in
      rw same (
        map-Fitting (λ out. write_run (find_run b 2 mem).0 b ++ out) (length (find_run b 2 mem).1)
          (suc (suc (length mem))) (compress fuel (find_run b 2 mem).1)
          (λ out f.
            run-Fits (find_run b 2 mem).0 b mem (find_run b 2 mem).1 out r.at_least r.at_most h.0
              r.consumed f)
          (compress-Fitting fuel (find_run b 2 mem).1 r.bytes))
  | inr other ↦ elim (Bool-cases (b == 0xED)) [
    | inl escape ↦
        rw (other, escape)
          (map-Fitting (λ out. b ∷ x ∷ out) (length mem) (suc (suc (length mem)))
            (compress fuel mem)
            (λ out f.
              cons-Fits (suc (length mem)) b (x ∷ out) h.0 (cons-Fits (length mem) x out h.1.0 f))
            (compress-Fitting fuel mem h.1.1))
    | inr plain ↦
        rw (other, plain)
          (map-Fitting (◌∷◌ b) (suc (length mem)) (suc (suc (length mem))) (compress fuel (x ∷ mem))
            (λ out f. cons-Fits (suc (length mem)) b out h.0 f)
            (compress-Fitting fuel (x ∷ mem) h.1))
  ]
]

-- With a fuel above the memory's length the compression returns a stream, and if the memory
-- consists of bytes, so does the stream, with at most two for each: no count of a run is out of range.
pub compress_bounds :
    (fuel : ℕ) (mem : List ℕ)
    → length mem < fuel
    → IsBytes mem
    → (out : List ℕ) × (compress fuel mem ≡ some out) × IsBytes out × (length out ≤ 2 * length mem)
compress_bounds fuel mem enough h =
    let (out, e, expands) = expand-compress fuel mem enough in
    let f = compress-Fitting fuel mem h out e in (out, e, f.bytes, f.short)
