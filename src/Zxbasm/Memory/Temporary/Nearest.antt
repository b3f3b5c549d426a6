-- ===== src/Zxbasm/Memory/Temporary/Nearest.antt =====
-- src/zxbasm/memory.py: a temporary label stands for the nearest declaration in its direction.
use mathlib.Core.List.{reverse, reverse-append}
use zxbasic.Prelude.Int.{pos, negsuc}
use zxbasic.Prelude.{
  ℕ, ◌≤◌, ◌<◌, false, leb, ltb, List, [], ◌∷◌, ◌++◌, Option, none, some, get_elem?, set,
  append_assoc, ◌≡◌, refl, ◌∙◌, arith, All, inl, inr, leb→le, Bool-cases,
}
use zxbasic.Zxbasm.Label.{Label, direction}
use zxbasic.Zxbasm.Memory.Access.{load-Holds}
use zxbasic.Zxbasm.Memory.Declare.{lines_of}
use zxbasic.Zxbasm.Memory.Store.{Memory, ◌>>=◌, store}
use zxbasic.Zxbasm.Memory.Temporary.{
  declared_on, lines_until, lines_from, first_match, or_label, search_in, resolve_to,
  resolve_temporary_label,
}

first_match-append :
    (f : ℕ → Option Label) (xs ys : List ℕ)
    → All (λ x. f x ≡ none) xs
    → first_match f (xs ++ ys) ≡ first_match f ys
unfolding first_match
first_match-append f [] ys h = refl
first_match-append f (x ∷ xs) ys h = rw (h.0, or_label) (first_match-append f xs ys h.1)

first_match-here :
    (f : ℕ → Option Label) (x : ℕ) (xs : List ℕ) (w : Label)
    → f x ≡ some w
    → first_match f (x ∷ xs) ≡ some w
unfolding first_match
first_match-here f x xs w h = rw (h, or_label) refl

lines_until-append :
    (n : ℕ) (xs ys : List ℕ)
    → All (λ x. x ≤ n) xs
    → lines_until n (xs ++ ys) ≡ xs ++ lines_until n ys
unfolding lines_until
lines_until-append n [] ys h = refl
lines_until-append n (x ∷ xs) ys h = ground (arith, lines_until-append n xs ys)

lines_from-append :
    (n : ℕ) (xs ys : List ℕ) → All (λ x. x < n) xs → lines_from n (xs ++ ys) ≡ lines_from n ys
unfolding lines_from
lines_from-append n [] ys h = refl
lines_from-append n (x ∷ xs) ys h = ground (arith, lines_from-append n xs ys)

-- Of the lines behind, those that the split keeps declare nothing equal.
lines_until-All :
    (f : ℕ → Option Label) (n : ℕ) (xs : List ℕ)
    → All (λ x. x ≤ n → f x ≡ none) xs
    → All (λ x. f x ≡ none) (lines_until n xs)
unfolding lines_until
lines_until-All f n [] h = tt
lines_until-All f n (x ∷ xs) h = elim (Bool-cases (leb x n)) [
  | inl le ↦ rw le (h.0 (leb→le x n le), lines_until-All f n xs h.1)
  | inr gt ↦ rw gt tt
]

All-append : (P : ℕ → Type 0) (xs ys : List ℕ) → All P xs → All P ys → All P (xs ++ ys)
All-append P [] ys a b = b
All-append P (x ∷ xs) ys a b = (a.0, All-append P xs ys a.1 b)

All-reverse : (P : ℕ → Type 0) (xs : List ℕ) → All P xs → All P (reverse xs)
All-reverse P [] a = tt
All-reverse P (x ∷ xs) a =
    rw (reverse-append (x ∷ []) xs)
      (All-append P (reverse xs) (x ∷ []) (All-reverse P xs a.1) (a.0, tt))

-- Lines in ascending order.
abbrev pub Ascending : List ℕ → Type 0
Ascending [] = Unit
Ascending (x ∷ xs) = All (λ y. x ≤ y) xs × Ascending xs

All-prefix : (P : ℕ → Type 0) (xs ys : List ℕ) → All P (xs ++ ys) → All P xs
All-prefix P [] ys a = tt
All-prefix P (x ∷ xs) ys a = (a.0, All-prefix P xs ys a.1)

All-middle : (P : ℕ → Type 0) (xs ys : List ℕ) (y : ℕ) → All P (xs ++ y ∷ ys) → P y
All-middle P [] ys y a = a.0
All-middle P (x ∷ xs) ys y a = All-middle P xs ys y a.1

-- What stands before a line is not behind it.
Ascending-before :
    (xs ys : List ℕ) (y : ℕ) → Ascending (xs ++ y ∷ ys) → Ascending xs × All (λ x. x ≤ y) xs
Ascending-before [] ys y a = (tt, tt)
Ascending-before (x ∷ xs) ys y a =
    let (ordered, below) = Ascending-before xs ys y a.1 in
    (
      (All-prefix (λ z. x ≤ z) xs (y ∷ ys) a.0, ordered),
      (All-middle (λ z. x ≤ z) xs ys y a.0, below),
    )

All-le : (xs : List ℕ) (y n : ℕ) → y ≤ n → All (λ x. x ≤ y) xs → All (λ x. x ≤ n) xs
All-le [] y n h a = tt
All-le (x ∷ xs) y n h a = (omega arith, All-le xs y n h a.1)

All-apply :
    (f : ℕ → Option Label) (n k : ℕ) (xs : List ℕ)
    → n ≤ k
    → All (λ x. k ≤ x) xs
    → All (λ x. n ≤ x → f x ≡ none) xs
    → All (λ x. f x ≡ none) xs
All-apply f n k [] h a b = tt
All-apply f n k (x ∷ xs) h a b = (b.0 (omega arith), All-apply f n k xs h a.1 b.1)

first_match-reverse :
    (f : ℕ → Option Label) (xs : List ℕ) (x : ℕ) (ys : List ℕ) (w : Label)
    → All (λ y. f y ≡ none) ys
    → f x ≡ some w
    → first_match f (reverse (xs ++ x ∷ ys)) ≡ some w
first_match-reverse f xs x ys w free hit =
    rw
      (
        reverse-append xs (x ∷ ys),
        reverse-append (x ∷ []) ys,
        append_assoc (reverse ys) (x ∷ []) (reverse xs),
      )
      (first_match-append f (reverse ys) (x ∷ reverse xs) (All-reverse (λ y. f y ≡ none) ys free)
        ∙ first_match-here f x (reverse xs) w hit)

lines_until-here : (n x : ℕ) (xs : List ℕ) → x ≤ n → lines_until n (x ∷ xs) ≡ x ∷ lines_until n xs
unfolding lines_until
lines_until-here n x xs h = ground arith

not_below : (a b : ℕ) → b ≤ a → ltb a b ≡ false
not_below a b h = ground arith

le_of_not_below : (a b : ℕ) → ltb a b ≡ false → b ≤ a
le_of_not_below a b h = ground arith

first_match-behind :
    (f : ℕ → Option Label) (n : ℕ) (before after : List ℕ) (line : ℕ) (w : Label)
    → Ascending (before ++ line ∷ after)
    → line ≤ n
    → All (λ x. x ≤ n → f x ≡ none) after
    → f line ≡ some w
    → first_match f (reverse (lines_until n (before ++ line ∷ after))) ≡ some w
first_match-behind f n before after line w order le free hit =
    rw
      (
        lines_until-append n before (line ∷ after)
            (All-le before line n le (Ascending-before before after line order).1),
        lines_until-here n line after le,
      )
      (first_match-reverse f before line (lines_until n after) w (lines_until-All f n after free)
        hit)

first_match-ahead :
    (f : ℕ → Option Label) (n : ℕ) (before after : List ℕ) (line : ℕ) (w : Label)
    → Ascending before
    → n ≤ line
    → All (λ x. n ≤ x → f x ≡ none) before
    → f line ≡ some w
    → first_match f (lines_from n (before ++ line ∷ after)) ≡ some w
unfolding lines_from
first_match-ahead f n [] after line w order le free hit =
    rw (not_below line n le) (first_match-here f line after w hit)
first_match-ahead f n (x ∷ before) after line w order le free hit = elim (Bool-cases (ltb x n)) [
  | inl lt ↦ rw lt (first_match-ahead f n before after line w order.1 le free.1 hit)
  | inr ge ↦ rw ge (
      first_match-append f (x ∷ before) (line ∷ after) (
        free.0 (le_of_not_below x n ge),
        All-apply f n x before (le_of_not_below x n ge) order.0 free.1,
      )
      ∙ first_match-here f line after w hit)
]

-- A reference backwards (`1B`) to a temporary label, in a file whose lines with such labels are in
-- ascending order: it gets the value of the label on the last line, up to its own one, that
-- declares a label equal to it; nothing else changes.
pub resolve_temporary_label-behind :
    (fname : List ℕ) (p : ℕ) (l w : Label) (before after : List ℕ) (line : ℕ) (m : Memory)
    → get_elem? m.labels p ≡ some l
    → direction l ≡ negsuc 0
    → lines_of fname m ≡ before ++ line ∷ after
    → Ascending (before ++ line ∷ after)
    → line ≤ l.lineno
    → declared_on fname l m line ≡ some w
    → All (λ x. x ≤ l.lineno → declared_on fname l m x ≡ none) after
    → resolve_temporary_label fname p m
      ≡ some (tt, record m { labels = set m.labels p (record l { value = w.value }) })
unfolding resolve_temporary_label search_in resolve_to store
resolve_temporary_label-behind fname p l w before after line m e d lines order le hit free =
    rw (load-Holds p l m e, ◌>>=◌)
      (rw
        (
          d,
          lines,
          first_match-behind (declared_on fname l m) l.lineno before after line w order le free hit,
        )
        refl)

-- A reference forwards (`1F`), in such a file: it gets the value of the label on the first line,
-- from its own one on, that declares a label equal to it; nothing else changes.
pub resolve_temporary_label-ahead :
    (fname : List ℕ) (p : ℕ) (l w : Label) (before after : List ℕ) (line : ℕ) (m : Memory)
    → get_elem? m.labels p ≡ some l
    → direction l ≡ pos 1
    → lines_of fname m ≡ before ++ line ∷ after
    → Ascending (before ++ line ∷ after)
    → l.lineno ≤ line
    → declared_on fname l m line ≡ some w
    → All (λ x. l.lineno ≤ x → declared_on fname l m x ≡ none) before
    → resolve_temporary_label fname p m
      ≡ some (tt, record m { labels = set m.labels p (record l { value = w.value }) })
unfolding resolve_temporary_label search_in resolve_to store
resolve_temporary_label-ahead fname p l w before after line m e d lines order le hit free =
    rw (load-Holds p l m e, ◌>>=◌)
      (rw
        (
          d,
          lines,
          first_match-ahead (declared_on fname l m) l.lineno before after line w
              (Ascending-before before after line order).0 le free hit,
        )
        refl)
