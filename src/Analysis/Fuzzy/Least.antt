-- ===== src/Analysis/Fuzzy/Least.antt =====
-- The distance that is computed is the least cost of an edit.
use axonops_schema_registry.Common.{
  ℕ, suc, ◌+◌, ◌≤◌, List, [], ◌∷◌, length, arith, ◌≡◌, refl, sym, subst, ◌⊎◌, inl, inr,
}
use axonops_schema_registry.Context.{Bytes}
use axonops_schema_registry.Analysis.Fuzzy.{
  cost, count_from, fill, next_row, rows, row_entry, levenshtein_distance,
}
use Prim.Native.Nat.{min}

-- An edit of one text into the other: each byte is kept or replaced, deleted, or inserted.
pub data Edit : Bytes → Bytes → ℕ → Type 0 where
  nothing : Edit [] [] 0
  change : {a b : Bytes} {n : ℕ} (x y : ℕ) → Edit a b n → Edit (x ∷ a) (y ∷ b) (n + cost x y)
  drop_byte : {a b : Bytes} {n : ℕ} (x : ℕ) → Edit a b n → Edit (x ∷ a) b (suc n)
  add_byte : {a b : Bytes} {n : ℕ} (y : ℕ) → Edit a b n → Edit a (y ∷ b) (suc n)

abbrev Least : Bytes → Bytes → ℕ → Type 0
Least a b n = Edit a b n × ((m : ℕ) → Edit a b m → n ≤ m)

drop_all : (a : Bytes) → Edit a [] (length a)
drop_all [] = nothing
drop_all (x ∷ a) = drop_byte x (drop_all a)

add_all : (b : Bytes) → Edit [] b (length b)
add_all [] = nothing
add_all (y ∷ b) = add_byte y (add_all b)

drop_all-least : {a : Bytes} {m : ℕ} → Edit a [] m → length a ≤ m
drop_all-least nothing = omega arith
drop_all-least (drop_byte x e) = let h = drop_all-least e in omega arith

add_all-least : {b : Bytes} {m : ℕ} → Edit [] b m → length b ≤ m
add_all-least nothing = omega arith
add_all-least (add_byte y e) = let h = add_all-least e in omega arith

Least-drop : (a : Bytes) → Least a [] (length a)
Least-drop a = (drop_all a, λ m e. drop_all-least e)

Least-add : (b : Bytes) → Least [] b (length b)
Least-add b = (add_all b, λ m e. add_all-least e)

min-choice :
    (l u d : ℕ)
    → (min (l + 1) (min (u + 1) d) ≡ suc l)
      ⊎ ((min (l + 1) (min (u + 1) d) ≡ suc u) ⊎ (min (l + 1) (min (u + 1) d) ≡ d))
min-choice l u d = ground arith

-- One step of the inner loop.
abbrev here : ℕ → ℕ → ℕ → ℕ → ℕ → ℕ
here x y left up diagonal = min (left + 1) (min (up + 1) (diagonal + cost x y))

here-Edit :
    {a b : Bytes} (x y left up diagonal : ℕ)
    → Edit (x ∷ a) b left
    → Edit a (y ∷ b) up
    → Edit a b diagonal
    → Edit (x ∷ a) (y ∷ b) (here x y left up diagonal)
here-Edit {a} {b} x y left up diagonal l u d = elim (min-choice left up (diagonal + cost x y)) [
  | inl p ↦ subst (Edit (x ∷ a) (y ∷ b)) (sym p) (add_byte y l)
  | inr (inl p) ↦ subst (Edit (x ∷ a) (y ∷ b)) (sym p) (drop_byte x u)
  | inr (inr p) ↦ subst (Edit (x ∷ a) (y ∷ b)) (sym p) (change x y d)
]

here_bound :
    {a b : Bytes} (x y left up diagonal : ℕ)
    → Least (x ∷ a) b left
    → Least a (y ∷ b) up
    → Least a b diagonal
    → (m : ℕ) → Edit (x ∷ a) (y ∷ b) m
    → here x y left up diagonal ≤ m
here_bound x y left up diagonal l u d _ (change {n = n} _ _ e) = let h = d.1 n e in omega arith
here_bound x y left up diagonal l u d _ (drop_byte {n = n} _ e) = let h = u.1 n e in omega arith
here_bound x y left up diagonal l u d _ (add_byte {n = n} _ e) = let h = l.1 n e in omega arith

Least-here :
    {a b : Bytes} (x y left up diagonal : ℕ)
    → Least (x ∷ a) b left
    → Least a (y ∷ b) up
    → Least a b diagonal
    → Least (x ∷ a) (y ∷ b) (here x y left up diagonal)
Least-here x y left up diagonal l u d =
    (here-Edit x y left up diagonal l.0 u.0 d.0, here_bound x y left up diagonal l u d)

-- The bytes in front of the second text, last one first.
abbrev reverse_onto : Bytes → Bytes → Bytes
reverse_onto [] ys = ys
reverse_onto (x ∷ xs) ys = reverse_onto xs (x ∷ ys)

-- The entries are the least costs for a text `a` and the prefixes of a text: `b` is what is behind, last
-- byte first, and `ys` what is ahead. Both texts are read from their ends.
abbrev Row : Bytes → Bytes → Bytes → List ℕ → Type 0
Row a b ys [] = ⊥
Row a b [] (e ∷ es) = Least a b e
Row a b (y ∷ ys) (e ∷ es) = Least a b e × Row a (y ∷ b) ys es

Row-head : {a b : Bytes} (ys : Bytes) (e : ℕ) (es : List ℕ) → Row a b ys (e ∷ es) → Least a b e
Row-head [] e es r = r
Row-head (y ∷ ys) e es r = r.0

fill-Row :
    {a : Bytes} (x : ℕ) (ys b : Bytes) (left diagonal : ℕ) (prev : List ℕ)
    → Least (x ∷ a) b left
    → Row a b ys (diagonal ∷ prev)
    → Row (x ∷ a) b ys (left ∷ fill x ys left diagonal prev)
unfolding fill
fill-Row x [] b left diagonal prev l r = l
fill-Row x (y ∷ ys) b left diagonal [] l r = elim r.1 [ ]
fill-Row x (y ∷ ys) b left diagonal (up ∷ prev) l r =
    let h = Least-here x y left up diagonal l (Row-head ys up prev r.1) r.0 in
    (l, fill-Row x ys (y ∷ b) (here x y left up diagonal) up prev h r.1)

next_row-Row :
    (x : ℕ) (a b : Bytes) (es : List ℕ)
    → Row a [] b es
    → Row (x ∷ a) [] b (next_row (suc (length a)) x b es)
next_row-Row x a b [] r = elim r [ ]
next_row-Row x a b (e ∷ es) r = fill-Row x b [] (suc (length a)) e es (Least-drop (x ∷ a)) r

rows-Row :
    (xs a b : Bytes) (i : ℕ) (es : List ℕ)
    → i ≡ suc (length a)
    → Row a [] b es
    → Row (reverse_onto xs a) [] b (rows i xs b es)
unfolding rows
rows-Row [] a b i es h r = r
rows-Row (x ∷ xs) a b i es h r =
    rows-Row xs (x ∷ a) b (i + 1) (next_row i x b es) (omega arith)
      (subst (λ k. Row (x ∷ a) [] b (next_row k x b es)) (sym h) (next_row-Row x a b es r))

count_from-Row : (b ys : Bytes) → Row [] b ys (count_from (length b) ys)
count_from-Row b [] = Least-add b
count_from-Row b (y ∷ ys) = (Least-add b, count_from-Row (y ∷ b) ys)

row_entry-Row :
    {a : Bytes} (b ys : Bytes) (es : List ℕ)
    → Row a b ys es
    → Least a (reverse_onto ys b) (row_entry es (length ys))
row_entry-Row b ys [] r = elim r [ ]
row_entry-Row b [] (e ∷ es) r = r
row_entry-Row b (y ∷ ys) (e ∷ es) r = row_entry-Row (y ∷ b) ys es r.1

Edit-reverse :
    {a b : Bytes} {n : ℕ} (a' b' : Bytes) (m : ℕ)
    → Edit a b n
    → Edit a' b' m
    → Edit (reverse_onto a a') (reverse_onto b b') (n + m)
Edit-reverse a' b' m nothing e' = subst (Edit a' b') (omega arith) e'
Edit-reverse a' b' m (change {n = n} x y e) e' =
    subst (Edit _ _) (omega arith) (Edit-reverse (x ∷ a') (y ∷ b') (m + cost x y) e (change x y e'))
Edit-reverse a' b' m (drop_byte x e) e' =
    subst (Edit _ _) (omega arith) (Edit-reverse (x ∷ a') b' (suc m) e (drop_byte x e'))
Edit-reverse a' b' m (add_byte y e) e' =
    subst (Edit _ _) (omega arith) (Edit-reverse a' (y ∷ b') (suc m) e (add_byte y e'))

reverse_onto-twice : (xs ys : Bytes) → reverse_onto (reverse_onto xs ys) [] ≡ reverse_onto ys xs
reverse_onto-twice [] ys = refl
reverse_onto-twice (x ∷ xs) ys = reverse_onto-twice xs (x ∷ ys)

Edit-turned : {a b : Bytes} {n : ℕ} → Edit a b n → Edit (reverse_onto a []) (reverse_onto b []) n
Edit-turned e = subst (Edit _ _) (omega arith) (Edit-reverse [] [] 0 e nothing)

-- Texts may be read from their ends.
Least-turned : (a b : Bytes) (n : ℕ) → Least (reverse_onto a []) (reverse_onto b []) n → Least a b n
Least-turned a b n l =
    let same : (c : Bytes) → reverse_onto (reverse_onto c []) [] ≡ c =
      λ c. reverse_onto-twice c [] in
    (
      subst (λ c. Edit a c n) (same b)
          (subst (λ c. Edit c (reverse_onto (reverse_onto b []) []) n) (same a) (Edit-turned l.0)),
      λ m e. l.1 m (Edit-turned e),
    )

Least-levenshtein_distance : (a b : Bytes) → Least a b (levenshtein_distance a b)
unfolding levenshtein_distance
Least-levenshtein_distance [] b = Least-add b
Least-levenshtein_distance (x ∷ a) [] = Least-drop (x ∷ a)
Least-levenshtein_distance (x ∷ a) (y ∷ b) = Least-turned (x ∷ a) (y ∷ b) _ (
    row_entry-Row [] (y ∷ b) _
      (rows-Row (x ∷ a) [] (y ∷ b) 1 (count_from 0 (y ∷ b)) refl (count_from-Row [] (y ∷ b))))

-- Where some edit of one text into the other costs n, an edit exists that costs what
-- LevenshteinDistance answers, and that is at most n.
pub levenshtein_distance_least :
    (a b : Bytes) (n : ℕ)
    → Edit a b n
    → Edit a b (levenshtein_distance a b) × (levenshtein_distance a b ≤ n)
levenshtein_distance_least a b n e =
    ((Least-levenshtein_distance a b).0, (Least-levenshtein_distance a b).1 n e)
