-- ===== src/LinkedList/Split.antt =====
-- Segments without common addresses, and an element between two of them.
use adventure.Base.{ℕ, ◌≢◌, sym, List, [], ◌∷◌, ◌++◌}
use adventure.LinkedList.Seg.{Node, last_of, NotIn, NotIn-append, Apart}

-- No address of `xs` stands in `ys`.
unfoldable pub AllOut : (xs ys : List Node) → Type 0
AllOut [] ys = Unit
AllOut (x ∷ xs) ys = NotIn x.0 ys × AllOut xs ys

NotIn-split : (a : ℕ) (xs ys : List Node) → NotIn a (xs ++ ys) → NotIn a xs × NotIn a ys
unfolding NotIn
NotIn-split a [] ys out = (tt, out)
NotIn-split a (x ∷ xs) ys out =
    let (front, back) = NotIn-split a xs ys out.1 in ((out.0, front), back)

pub Apart-split : (xs ys : List Node) → Apart (xs ++ ys) → Apart xs × Apart ys × AllOut xs ys
unfolding Apart AllOut
Apart-split [] ys apart = (tt, apart, tt)
Apart-split (x ∷ xs) ys apart =
    let (front, back, out) = Apart-split xs ys apart.2 in
    let (here, there) = NotIn-split x.0 xs ys apart.1 in
    ((apart.0, here, front), back, (there, out))

pub Apart-join : (xs ys : List Node) → Apart xs → Apart ys → AllOut xs ys → Apart (xs ++ ys)
unfolding Apart AllOut
Apart-join [] ys front back out = back
Apart-join (x ∷ xs) ys front back out =
    (front.0, NotIn-append x.0 xs ys front.1 out.0, Apart-join xs ys front.2 back out.1)

pub AllOut-tail : (xs : List Node) (y : Node) (ys : List Node) → AllOut xs (y ∷ ys) → AllOut xs ys
unfolding AllOut NotIn
AllOut-tail [] y ys out = tt
AllOut-tail (x ∷ xs) y ys out = ((out.0).1, AllOut-tail xs y ys out.1)

pub NotIn-head : (xs : List Node) (y : Node) (ys : List Node) → AllOut xs (y ∷ ys) → NotIn y.0 xs
unfolding AllOut NotIn
NotIn-head [] y ys out = tt
NotIn-head (x ∷ xs) y ys out = ((λ same. (out.0).0 (sym same)), NotIn-head xs y ys out.1)

pub NotIn-last_of :
    (p : ℕ) (x : Node) (xs ys : List Node) → AllOut (x ∷ xs) ys → NotIn (last_of p (x ∷ xs)) ys
unfolding AllOut
NotIn-last_of p x [] ys out = out.0
NotIn-last_of p x (z ∷ xs) ys out = NotIn-last_of x.0 z xs ys out.1

pub NotIn-first : {a : ℕ} (x : Node) (xs : List Node) → NotIn a (x ∷ xs) → a ≢ x.0
unfolding NotIn
NotIn-first x xs out = out.0

pub Apart-head : (a v : ℕ) (xs : List Node) → Apart ((a, v) ∷ xs) → NotIn a xs
unfolding Apart
Apart-head a v xs apart = apart.1

pub Apart-null : (x : Node) (xs : List Node) → Apart (x ∷ xs) → x.0 ≢ 0
unfolding Apart
Apart-null x xs apart = apart.0

pub Apart-tail : (x : Node) (xs : List Node) → Apart (x ∷ xs) → Apart xs
unfolding Apart
Apart-tail x xs apart = apart.2
