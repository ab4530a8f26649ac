-- ===== src/Memory.antt =====
-- Memory as bytes at addresses, and runs of bytes: what `memcpy` and the indexed writes of
-- src/db/store/store.h do to the mapped file.
pub mod Words
use adventure.Base.{
  ℕ, zero, suc, ◌+◌, ◌-◌, ◌≤◌, ◌<◌, ◌≡◌, refl, ◌∙◌, ap₂, ◌⊎◌, inl, inr, ◌≢◌, List, [], ◌∷◌, arith,
  ◌==◌, if◌then◌else◌, length, get_or, get_or_ext,
}

abbrev pub Bytes : Type 0
Bytes = ℕ → ℕ

-- `ptr[p] = b`.
unfoldable pub poke : Bytes → ℕ → ℕ → Bytes
poke m p b a = if a == p then b else m a

-- A run of bytes written from `p` on, lowest address first.
unfoldable pub pokes : Bytes → ℕ → List ℕ → Bytes
unfolding poke
pokes m p [] = m
pokes m p (b ∷ bs) = pokes (poke m p b) (p + 1) bs

-- The `n` bytes from `p` on.
unfoldable pub peeks : Bytes → ℕ → ℕ → List ℕ
peeks m p zero = []
peeks m p (suc n) = m p ∷ peeks m (p + 1) n

pub pokes_below : (m : Bytes) (p : ℕ) (bs : List ℕ) (a : ℕ) → a < p → pokes m p bs a ≡ m a
unfolding pokes
pokes_below m p [] a h = refl
pokes_below m p (b ∷ bs) a h = pokes_below (poke m p b) (p + 1) bs a (omega arith) ∙ ground arith

pub pokes_above :
    (m : Bytes) (p : ℕ) (bs : List ℕ) (a : ℕ) → p + length bs ≤ a → pokes m p bs a ≡ m a
unfolding pokes
pokes_above m p [] a h = refl
pokes_above m p (b ∷ bs) a h = pokes_above (poke m p b) (p + 1) bs a (omega arith) ∙ ground arith

pub pokes_outside :
    (m : Bytes) (p : ℕ) (bs : List ℕ) (a : ℕ) → (a < p) ⊎ (p + length bs ≤ a) → pokes m p bs a ≡ m a
pokes_outside m p bs a (inl h) = pokes_below m p bs a h
pokes_outside m p bs a (inr h) = pokes_above m p bs a h

pub pokes_inside :
    (m : Bytes) (p : ℕ) (bs : List ℕ) (i : ℕ) → i < length bs → pokes m p bs (p + i) ≡ get_or bs i 0
unfolding pokes
pokes_inside m p [] i h = absurd (omega arith)
pokes_inside m p (b ∷ bs) zero h =
    pokes_below (poke m p b) (p + 1) bs (p + 0) (omega arith) ∙ ground arith
pokes_inside m p (b ∷ bs) (suc i) h =
    ground (arith, pokes_inside (poke m p b) (p + 1) bs i (omega arith))

pub length-peeks : (m : Bytes) (p n : ℕ) → length (peeks m p n) ≡ n
unfolding peeks
length-peeks m p zero = refl
length-peeks m p (suc n) = omega (arith, length-peeks m (p + 1) n)

pub get_or-peeks : (m : Bytes) (p n i : ℕ) → i < n → get_or (peeks m p n) i 0 ≡ m (p + i)
unfolding peeks
get_or-peeks m p zero i h = absurd (omega arith)
get_or-peeks m p (suc n) zero h = ground arith
get_or-peeks m p (suc n) (suc i) h = ground (arith, get_or-peeks m (p + 1) n i)

-- A run copied from `q` to `p`: what stands at `p + i` afterwards.
pub pokes-peeks : (m : Bytes) (p q n i : ℕ) → i < n → pokes m p (peeks m q n) (p + i) ≡ m (q + i)
pokes-peeks m p q n i h =
    pokes_inside m p (peeks m q n) i (omega (arith, length-peeks m q n)) ∙ get_or-peeks m q n i h

pub pokes_first : (m : Bytes) (p b : ℕ) (bs : List ℕ) → pokes m p (b ∷ bs) p ≡ b
unfolding pokes
pokes_first m p b bs = pokes_below (poke m p b) (p + 1) bs p (omega arith) ∙ ground arith
