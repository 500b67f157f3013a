-- ===== src/Parse/Cursor.antt =====
-- The cursor of parse.c seen as the list of bytes that it has not read yet.
use lsh.Prelude.{
  ℕ, zero, suc, ◌+◌, ◌<◌, ◌≤◌, ◌^◌, ◌≡◌, refl, ap, ◌∙◌, List, [], ◌∷◌, ◌++◌, Option, none, some,
  arith, length, get_or, take, drop, drop-drop, get_or-drop, append-nil, add32, sym, length-drop,
}
use lsh.Parse.{
  SimpleBuffer, Parsed, failed, parsed, Parser, ◌>>=◌, left, here, advance, bind,
  simple_buffer_init,
}

-- The buffer is at the bytes `r`: they stand at its position and end at its capacity.
pub record View (b : SimpleBuffer) (r : List ℕ) : Type 0 where
  pub beyond : List ℕ
  pub at : drop b.pos b.bytes ≡ r ++ beyond
  pub room : b.capacity ≡ b.pos + length r
  pub small : b.capacity < 2 ^ 32

-- A parser on lists of bytes; `none` refuses the input.
abbrev pub Spec : Type 0 → Type 0
Spec A = List ℕ → Option (A × List ℕ)

-- The cursor's outcome is the list's: the same value with the same bytes left, or a refusal.
abbrev pub Agrees : {A : Type 0} → Parsed A → Option (A × List ℕ) → Type 0
Agrees (parsed a b) (some (c, r)) = (a ≡ c) × View b r
Agrees (failed b) none = Unit {0}
Agrees _ _ = ⊥

-- A parser that does on every cursor what `q` does on the bytes left.
abbrev pub Refines : {A : Type 0} → Parser A → Spec A → Type 0
Refines p q = (b : SimpleBuffer) (r : List ℕ) → View b r → Agrees (p b) (q r)

pub take-front : (n : ℕ) (xs ys : List ℕ) → n ≤ length xs → take n (xs ++ ys) ≡ take n xs
take-front zero xs ys h = refl
take-front (suc n) [] ys h = absurd (omega arith)
take-front (suc n) (x ∷ xs) ys h = ap (◌∷◌ x) (take-front n xs ys (omega arith))

drop-front : (n : ℕ) (xs ys : List ℕ) → n ≤ length xs → drop n (xs ++ ys) ≡ drop n xs ++ ys
drop-front zero xs ys h = refl
drop-front (suc n) [] ys h = absurd (omega arith)
drop-front (suc n) (x ∷ xs) ys h = drop-front n xs ys (omega arith)

get_or-front : (xs ys : List ℕ) (i : ℕ) → i < length xs → get_or (xs ++ ys) i 0 ≡ get_or xs i 0
get_or-front [] ys i h = absurd (omega arith)
get_or-front (x ∷ xs) ys zero h = refl
get_or-front (x ∷ xs) ys (suc i) h = get_or-front xs ys i (omega arith)

pub left-View : {b : SimpleBuffer} {r : List ℕ} → View b r → left b ≡ length r
left-View v = let h = v.small in let e = v.room in omega arith

pub here-View :
    {b : SimpleBuffer} {r : List ℕ} → View b r → (i : ℕ) → i < length r → here b i ≡ get_or r i 0
here-View {b} {r} v i h =
    sym (get_or-drop b.pos i b.bytes 0) ∙ rw (v.at) (get_or-front r v.beyond i h)

pub take-View :
    {b : SimpleBuffer} {r : List ℕ}
    → View b r
    → (n : ℕ) → n ≤ length r
    → take n (drop b.pos b.bytes) ≡ take n r
take-View {b} {r} v n h = rw (v.at) (take-front n r v.beyond h)

pub advance-View :
    {b : SimpleBuffer} {r : List ℕ}
    → View b r
    → (n : ℕ) → n ≤ length r
    → View (advance n b) (drop n r)
advance-View {b} {r} v n h = record {
  beyond = v.beyond;
  at = rw (moved) (sym (drop-drop b.pos n b.bytes) ∙ rw (v.at) (drop-front n r v.beyond h));
  room = omega (arith, moved, length-drop n r, v.room);
  small = v.small;
}
  where
    moved : add32 b.pos n ≡ b.pos + n
    moved = let e = v.room in let k = v.small in omega arith

-- A fresh cursor is at all of its data.
pub simple_buffer_init-View :
    (r : List ℕ) → length r < 2 ^ 32 → View (simple_buffer_init (length r) r) r
unfolding simple_buffer_init
simple_buffer_init-View r h = record {
  beyond = [];
  at = sym (append-nil r);
  room = omega arith;
  small = h;
}

-- The bytes `s` stand at the cursor from index `i` on.
abbrev pub Sees : SimpleBuffer → ℕ → List ℕ → Type 0
Sees b i s = (j : ℕ) → j < length s → here b (i + j) ≡ get_or s j 0

pub Sees-head : (b : SimpleBuffer) (i x : ℕ) (s : List ℕ) → Sees b i (x ∷ s) → here b i ≡ x
Sees-head b i x s look =
    ap {A = ℕ} (here b) (let e : i ≡ i + 0 = omega arith in e) ∙ look 0 (omega arith)

pub Sees-tail : (b : SimpleBuffer) (i x : ℕ) (s : List ℕ) → Sees b i (x ∷ s) → Sees b (i + 1) s
Sees-tail b i x s look j h =
    ap {A = ℕ} (here b) (let e : i + 1 + j ≡ i + suc j = omega arith in e)
    ∙ look (suc j) (omega arith)

pub View-Sees : (b : SimpleBuffer) (r : List ℕ) → View b r → Sees b 0 r
View-Sees b r v j h = ap {A = ℕ} (here b) (let e : 0 + j ≡ j = omega arith in e) ∙ here-View v j h

-- Sequences of parsers refine sequences of specifications.
module _ {A B : Type 0} where
  abbrev pub and_then : Spec A → (A → Spec B) → Spec B
  and_then p f r = elim (p r) [ none ↦ none | some (a, s) ↦ f a s ]

  -- A sequence whose first part reads `a`.
  pub and_then-some :
      (p : Spec A) (f : A → Spec B) (r : List ℕ) (a : A) (s : List ℕ)
      → p r ≡ some (a, s)
      → and_then p f r ≡ f a s
  and_then-some p f r a s e =
      ap {A = Option (A × List ℕ)} (λ y. elim y [ none ↦ none | some (d, t) ↦ f d t ]) e

  bind-Agrees :
      (x : Parsed A) (y : Option (A × List ℕ)) (f : A → Parser B) (g : A → Spec B)
      → Agrees x y
      → ((a : A) → Refines (f a) (g a))
      → Agrees (bind x f) (elim y [ none ↦ none | some (a, s) ↦ g a s ])
  bind-Agrees (failed c) none f g h k = tt
  bind-Agrees (failed c) (some y) f g h k = absurd h
  bind-Agrees (parsed a c) none f g h k = absurd h
  bind-Agrees (parsed a c) (some (d, s)) f g (e, w) k = rw (← e) (k a c s w)

  pub >>=-Refines :
      (p : Parser A) (q : Spec A) (f : A → Parser B) (g : A → Spec B)
      → Refines p q
      → ((a : A) → Refines (f a) (g a))
      → Refines (p >>= f) (and_then q g)
  >>=-Refines p q f g hp hf b r v = bind-Agrees (p b) (q r) f g (hp b r v) hf
