-- ===== src/LinkedList/Seg.antt =====
-- Segments of the list: the elements that the pointers run through, each with its value.
use adventure.Base.{
  ℕ, ◌^◌, ◌<◌, ◌≡◌, ◌≢◌, refl, sym, ◌∙◌, ap, Option, none, some, List, [], ◌∷◌, ◌++◌, ==_refl,
  ne→==, length, ok,
}
use adventure.LinkedList.{Listelem, Cells, Lists, put, write_elem}

-- An address and the value of the element there.
abbrev pub Node : Type 0
Node = ℕ × ℕ

abbrev pub elem : (p n v : ℕ) → Listelem
elem p n v = record { prev = p; next = n; val = v }

-- The address that a segment begins with, `n` standing behind it.
abbrev pub head_of : List Node → (n : ℕ) → ℕ
head_of [] n = n
head_of (x ∷ xs) n = x.0

-- The address that it ends with, `p` standing before it.
abbrev pub last_of : (p : ℕ) → List Node → ℕ
last_of p [] = p
last_of p (x ∷ xs) = last_of x.0 xs

-- The elements of `xs` are linked both ways, `p` standing before them and `n` behind.
unfoldable pub Seg : Cells → (p : ℕ) → List Node → (n : ℕ) → Type 0
Seg h p [] n = Unit
Seg h p (x ∷ xs) n = (h x.0 ≡ some (elem p (head_of xs n) x.1)) × Seg h x.0 xs n

unfoldable pub NotIn : ℕ → List Node → Type 0
NotIn a [] = Unit
NotIn a (x ∷ xs) = (a ≢ x.0) × NotIn a xs

-- No address is NULL or stands twice.
unfoldable pub Apart : List Node → Type 0
Apart [] = Unit
Apart (x ∷ xs) = (x.0 ≢ 0) × NotIn x.0 xs × Apart xs

pub put_same : (a : ℕ) (e : Option Listelem) (h : Cells) → put a e h a ≡ e
unfolding put
put_same a e h = rw (==_refl a) refl

pub put_other : (a q : ℕ) (e : Option Listelem) (h : Cells) → q ≢ a → put a e h q ≡ h q
unfolding put
put_other a q e h ne = rw (ne→== q a ne) refl

-- A change of a cell that is not in the segment.
pub Seg-put :
    (h : Cells) (a : ℕ) (e : Option Listelem) (p : ℕ) (xs : List Node) (n : ℕ)
    → NotIn a xs
    → Seg h p xs n
    → Seg (put a e h) p xs n
unfolding Seg NotIn
Seg-put h a e p [] n out seg = tt
Seg-put h a e p (x ∷ xs) n out seg =
    (put_other a x.0 e h (λ same. out.0 (sym same)) ∙ seg.0, Seg-put h a e x.0 xs n out.1 seg.1)

pub last_of-ne : (a p : ℕ) (x : Node) (xs : List Node) → NotIn a (x ∷ xs) → a ≢ last_of p (x ∷ xs)
unfolding NotIn
last_of-ne a p x [] out = out.0
last_of-ne a p x (y ∷ xs) out = last_of-ne a x.0 y xs out.1

pub last_of-ne_null : (p : ℕ) (x : Node) (xs : List Node) → Apart (x ∷ xs) → last_of p (x ∷ xs) ≢ 0
unfolding Apart
last_of-ne_null p x [] apart = apart.0
last_of-ne_null p x (y ∷ xs) apart = last_of-ne_null x.0 y xs apart.2

-- The last element can be given another successor.
pub Seg-set_next :
    (h : Cells) (p : ℕ) (x : Node) (xs : List Node) (n : ℕ)
    → Apart (x ∷ xs)
    → Seg h p (x ∷ xs) n
    → (e : Listelem) × (h (last_of p (x ∷ xs)) ≡ some e)
      × ((m : ℕ) → Seg (put (last_of p (x ∷ xs)) (some (record e { next = m })) h) p (x ∷ xs) m)
unfolding Seg Apart
Seg-set_next h p x [] n apart seg = (_, seg.0, λ m. (put_same x.0 (some (elem p m x.1)) h, tt))
Seg-set_next h p x (y ∷ xs) n apart seg =
    let (e, at, new) = Seg-set_next h x.0 y xs n apart.2 seg.1 in
    (
      e,
      at,
      λ m. (
        put_other (last_of x.0 (y ∷ xs)) x.0 (some (record e { next = m })) h
              (last_of-ne x.0 x.0 y xs apart.1)
            ∙ seg.0,
        new m,
      ),
    )

-- The first element can be given another predecessor.
pub Seg-set_prev :
    (h : Cells) (p : ℕ) (x : Node) (xs : List Node) (n q : ℕ)
    → NotIn x.0 xs
    → Seg h p (x ∷ xs) n
    → Seg (put x.0 (some (elem q (head_of xs n) x.1)) h) q (x ∷ xs) n
unfolding Seg
Seg-set_prev h p x xs n q out seg = (put_same x.0 _ h, Seg-put h x.0 _ x.0 xs n out seg.1)

pub Seg-append :
    (h : Cells) (p : ℕ) (xs ys : List Node) (n : ℕ)
    → Seg h p xs (head_of ys n)
    → Seg h (last_of p xs) ys n
    → Seg h p (xs ++ ys) n
unfolding Seg
Seg-append h p [] ys n front back = back
Seg-append h p (x ∷ []) ys n front back = (front.0, back)
Seg-append h p (x ∷ y ∷ xs) ys n front back = (front.0, Seg-append h x.0 (y ∷ xs) ys n front.1 back)

pub Seg-split :
    (h : Cells) (p : ℕ) (xs ys : List Node) (n : ℕ)
    → Seg h p (xs ++ ys) n
    → Seg h p xs (head_of ys n) × Seg h (last_of p xs) ys n
unfolding Seg
Seg-split h p [] ys n seg = (tt, seg)
Seg-split h p (x ∷ []) ys n seg = ((seg.0, tt), seg.1)
Seg-split h p (x ∷ y ∷ xs) ys n seg =
    let (front, back) = Seg-split h x.0 (y ∷ xs) ys n seg.1 in ((seg.0, front), back)

-- The list stands for the nodes `xs`, in their order.
pub record Holds (s : Lists) (xs : List Node) : Type 0 where
  pub seg : Seg s.cells 0 xs 0
  pub apart : Apart xs
  pub first_is : s.list.first ≡ head_of xs 0
  pub last_is : s.list.last ≡ last_of 0 xs
  pub counted : s.list.count ≡ length xs
  pub small : length xs < 2 ^ 64

-- An address that is not in use is not in a segment.
pub unused-NotIn :
    (h : Cells) (a p : ℕ) (xs : List Node) (n : ℕ) → h a ≡ none → Seg h p xs n → NotIn a xs
unfolding Seg NotIn
unused-NotIn h a p [] n free seg = tt
unused-NotIn h a p (x ∷ xs) n free seg =
    ((λ same. none_some (sym free ∙ ap h same ∙ seg.0)), unused-NotIn h a x.0 xs n free seg.1)
  where
    none_some : {e : Listelem} → none ≡ some e → ⊥
    none_some e = (cc)

pub NotIn-append : (a : ℕ) (xs ys : List Node) → NotIn a xs → NotIn a ys → NotIn a (xs ++ ys)
unfolding NotIn
NotIn-append a [] ys front back = back
NotIn-append a (x ∷ xs) ys front back = (front.0, NotIn-append a xs ys front.1 back)

pub Apart-append_last :
    (xs : List Node) (a v : ℕ) → a ≢ 0 → NotIn a xs → Apart xs → Apart (xs ++ (a, v) ∷ [])
unfolding Apart NotIn
Apart-append_last [] a v ne out apart = (ne, tt, tt)
Apart-append_last (x ∷ xs) a v ne out apart = (
  apart.0,
  NotIn-append x.0 xs ((a, v) ∷ []) apart.1 ((λ same. out.0 (sym same)), tt),
  Apart-append_last xs a v ne out.1 apart.2,
)

pub last_of-append : (p : ℕ) (xs ys : List Node) → last_of p (xs ++ ys) ≡ last_of (last_of p xs) ys
last_of-append p [] ys = refl
last_of-append p (x ∷ xs) ys = last_of-append x.0 xs ys

-- A write through the pointer of an element that is there.
pub write_elem-ok :
    (a : ℕ) (f : Listelem → Listelem) (s : Lists) {e : Listelem}
    → s.cells a ≡ some e
    → write_elem a f (s.cells a) s ≡ ok tt (record s { cells = put a (some (f e)) s.cells })
unfolding write_elem
write_elem-ok a f s e = ap (λ o. write_elem a f o s) e
