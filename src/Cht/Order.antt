-- ===== src/Cht/Order.antt =====
-- The order of the hashes: sorting, and which entry of the ring answers for a key.
use jubatus.Base.{
  ℕ, zero, suc, ◌%◌, ◌≡◌, ◌≤◌, refl, ◌⊎◌, inl, inr, true, false, List, [], ◌∷◌, some, length,
  get_elem?, All, Bool-cases, Mem, subst, dec_lt, arith,
}
use mathlib.Core.List.Perm
use mathlib.Core.List.{Perm, mem-cons_self, mem-cons_of_mem}
use native.Mathlib.Nat.{mod-eq_of_lt, mod_self}
use jubatus.Base.Text.{Text, text_lt}
use jubatus.Cht.{insert, sort, lower_bound}

text_lt_trans : (a b c : Text) → text_lt a b ≡ true → text_lt b c ≡ true → text_lt a c ≡ true
unfolding text_lt
text_lt_trans [] [] c h k = absurd (ground arith)
text_lt_trans [] (y ∷ b) [] h k = absurd (ground arith)
text_lt_trans [] (y ∷ b) (z ∷ c) h k = refl
text_lt_trans (x ∷ a) [] c h k = absurd (ground arith)
text_lt_trans (x ∷ a) (y ∷ b) [] h k = absurd (ground arith)
text_lt_trans (x ∷ a) (y ∷ b) (z ∷ c) h k = ground (arith, text_lt_trans a b c)

-- `h` does not come before `x`.
abbrev pub AtLeast : Text → Text → Type 0
AtLeast x h = text_lt h x ≡ false

abbrev pub IsSorted : List Text → Type 0
IsSorted [] = Unit {0}
IsSorted (x ∷ xs) = All (AtLeast x) xs × IsSorted xs

AtLeast-mono :
    (x y : Text) (hs : List Text) → text_lt x y ≡ true → All (AtLeast y) hs → All (AtLeast x) hs
AtLeast-mono x y [] e a = tt
AtLeast-mono x y (h ∷ hs) e a = (
  elim (Bool-cases (text_lt h x)) [
    | inl below ↦ absurd (ground (arith, text_lt_trans h x y))
    | inr above ↦ above
  ],
  AtLeast-mono x y hs e a.1,
)

insert-All : (P : Text → Type 0) (x : Text) (hs : List Text) → P x → All P hs → All P (insert x hs)
unfolding insert
insert-All P x [] p a = (p, tt)
insert-All P x (h ∷ hs) p a = elim (Bool-cases (text_lt x h)) [
  | inl e ↦ rw e (p, a)
  | inr e ↦ rw e (a.0, insert-All P x hs p a.1)
]

text_lt_asym : (a b : Text) → text_lt a b ≡ true → text_lt b a ≡ false
unfolding text_lt
text_lt_asym [] [] h = refl
text_lt_asym [] (y ∷ b) h = refl
text_lt_asym (x ∷ a) [] h = absurd (ground arith)
text_lt_asym (x ∷ a) (y ∷ b) h = ground (arith, text_lt_asym a b)

insert-IsSorted : (x : Text) (hs : List Text) → IsSorted hs → IsSorted (insert x hs)
unfolding insert
insert-IsSorted x [] s = (tt, tt)
insert-IsSorted x (h ∷ hs) s = elim (Bool-cases (text_lt x h)) [
  | inl e ↦ rw e ((text_lt_asym x h e, AtLeast-mono x h hs e s.0), s)
  | inr e ↦ rw e (insert-All (AtLeast h) x hs e s.0, insert-IsSorted x hs s.1)
]

sort-All : (P : Text → Type 0) (hs : List Text) → All P hs → All P (sort hs)
unfolding sort
sort-All P [] a = tt
sort-All P (h ∷ hs) a = insert-All P h (sort hs) a.0 (sort-All P hs a.1)

pub sort-IsSorted : (hs : List Text) → IsSorted (sort hs)
unfolding sort
sort-IsSorted [] = tt
sort-IsSorted (h ∷ hs) = insert-IsSorted h (sort hs) (sort-IsSorted hs)

pub lower_bound-le : (hash : Text) (hs : List Text) → lower_bound hash hs ≤ length hs
unfolding lower_bound
lower_bound-le hash [] = omega arith
lower_bound-le hash (h ∷ hs) = ground (arith, lower_bound-le hash hs)

-- The entry `c` of `hs` that answers for a hash: the least entry that is not below it, or the
-- least of all when every entry is below it.
abbrev pub Answers : Text → List Text → Text → Type 0
Answers hash hs c =
    (AtLeast hash c × All (λ h. AtLeast hash h → AtLeast c h) hs)
    ⊎ (All (λ h. text_lt h hash ≡ true) hs × All (AtLeast c) hs)

insert-All_back :
    (P : Text → Type 0) (x : Text) (hs : List Text) → All P (insert x hs) → P x × All P hs
unfolding insert
insert-All_back P x [] a = a
insert-All_back P x (h ∷ hs) a = elim (Bool-cases (text_lt x h)) [
  | inl e ↦ rw e at a
  | inr e ↦
      let b : P h × All P (insert x hs) = rw e at a in
      let c = insert-All_back P x hs b.1 in (c.0, (b.0, c.1))
]

sort-All_back : (P : Text → Type 0) (hs : List Text) → All P (sort hs) → All P hs
unfolding sort
sort-All_back P [] a = tt
sort-All_back P (h ∷ hs) a =
    let b = insert-All_back P h (sort hs) a in (b.0, sort-All_back P hs b.1)

All-mem : (P : Text → Type 0) (hs : List Text) → ((c : Text) → Mem c hs → P c) → All P hs
All-mem P [] f = tt
All-mem P (h ∷ hs) f = (f h mem-cons_self, All-mem P hs (λ c m. f c (mem-cons_of_mem h m)))

All-get :
    (P : Text → Type 0) (hs : List Text) (i : ℕ) (c : Text)
    → All P hs
    → get_elem? hs i ≡ some c
    → P c
All-get P [] i c a e = absurd (ground arith)
All-get P (h ∷ hs) zero c a e = let same : h ≡ c = cc in subst P same a.0
All-get P (h ∷ hs) (suc i) c a e = All-get P hs i c a.1 e

-- What holds of every entry of a listing holds of each entry of the sorted one.
pub sort-All-get :
    (P : Text → Type 0) (hs : List Text) (i : ℕ) (c : Text)
    → All P hs
    → get_elem? (sort hs) i ≡ some c
    → P c
sort-All-get P hs i c a e = All-get P (sort hs) i c (sort-All P hs a) e

pub sort-get : (hs : List Text) (i : ℕ) (c : Text) → get_elem? (sort hs) i ≡ some c → Mem c hs
sort-get hs i c e = sort-All-get (λ d. Mem d hs) hs i c (All-mem (λ d. Mem d hs) hs (λ d m. m)) e

implied :
    (c : Text) (hash : Text) (hs : List Text)
    → All (AtLeast c) hs
    → All (λ h. AtLeast hash h → AtLeast c h) hs
implied c hash [] a = tt
implied c hash (h ∷ hs) a = (λ _. a.0, implied c hash hs a.1)

text_lt_irrefl : (x : Text) → text_lt x x ≡ false
text_lt_irrefl x = ground (arith, text_lt_asym x x)

lower_bound-end :
    (hash : Text) (hs : List Text)
    → lower_bound hash hs ≡ length hs
    → All (λ h. text_lt h hash ≡ true) hs
unfolding lower_bound
lower_bound-end hash [] e = tt
lower_bound-end hash (h ∷ hs) e = elim (Bool-cases (text_lt h hash)) [
  | inl below ↦ (below, lower_bound-end hash hs (ground arith))
  | inr above ↦ absurd (ground arith)
]

lower_bound-get :
    (hash : Text) (hs : List Text) (c : Text)
    → IsSorted hs
    → get_elem? hs (lower_bound hash hs) ≡ some c
    → AtLeast hash c × All (λ h. AtLeast hash h → AtLeast c h) hs
unfolding lower_bound
lower_bound-get hash [] c s e = absurd (ground arith)
lower_bound-get hash (h ∷ hs) c s e = elim (Bool-cases (text_lt h hash)) [
  | inl below ↦
      let rest = lower_bound-get hash hs c s.1 (rw below at e) in
      (rest.0, (λ above. absurd (ground arith), rest.1))
  | inr above ↦
      let same : h ≡ c = let here : some h ≡ some c = rw above at e in cc in
      subst (λ x. AtLeast hash x × All (λ y. AtLeast hash y → AtLeast x y) (h ∷ hs)) same
        (above, (λ _. text_lt_irrefl h, implied h hash hs s.0))
]

-- The entry at the wrapped lower bound answers for the hash.
pub lower_bound-Answers :
    (hash : Text) (hs : List Text) (c : Text)
    → IsSorted hs
    → get_elem? hs (lower_bound hash hs % length hs) ≡ some c
    → Answers hash hs c
lower_bound-Answers hash [] c s e = absurd (ground arith)
lower_bound-Answers hash (h ∷ hs) c s e =
    elim (dec_lt (lower_bound hash (h ∷ hs)) (length (h ∷ hs))) [
      | yes inside ↦ inl (lower_bound-get hash (h ∷ hs) c s (rw (mod-eq_of_lt inside) at e))
      | no outside ↦
          let end : lower_bound hash (h ∷ hs) ≡ length (h ∷ hs) =
            omega (arith, lower_bound-le hash (h ∷ hs)) in
          let same : h ≡ c =
            let here : some h ≡ some c = rw (end, mod_self (length (h ∷ hs))) at e in cc in
          inr (
            lower_bound-end hash (h ∷ hs) end,
            subst (λ x. All (AtLeast x) (h ∷ hs)) same (text_lt_irrefl h, s.0),
          )
    ]

pub Answers-sort :
    (hash : Text) (hs : List Text) (c : Text) → Answers hash (sort hs) c → Answers hash hs c
Answers-sort hash hs c (inl a) = inl (a.0, sort-All_back (λ h. AtLeast hash h → AtLeast c h) hs a.1)
Answers-sort hash hs c (inr a) =
    inr (sort-All_back (λ h. text_lt h hash ≡ true) hs a.0, sort-All_back (AtLeast c) hs a.1)

insert-length : (x : Text) (hs : List Text) → length (insert x hs) ≡ suc (length hs)
unfolding insert
insert-length x [] = refl
insert-length x (h ∷ hs) = ground (arith, insert-length x hs)

pub sort-length : (hs : List Text) → length (sort hs) ≡ length hs
unfolding sort
sort-length [] = refl
sort-length (h ∷ hs) = omega (arith, insert-length h (sort hs), sort-length hs)

insert-Perm : (x : Text) (hs : List Text) → Perm (insert x hs) (x ∷ hs)
unfolding insert
insert-Perm x [] = Perm.rfl
insert-Perm x (h ∷ hs) = elim (Bool-cases (text_lt x h)) [
  | inl e ↦ rw e Perm.rfl
  | inr e ↦ rw e (Perm.trans (Perm.cons h (insert-Perm x hs)) (Perm.swap x h hs))
]

pub sort-Perm : (hs : List Text) → Perm (sort hs) hs
unfolding sort
sort-Perm [] = Perm.rfl
sort-Perm (h ∷ hs) = Perm.trans (insert-Perm h (sort hs)) (Perm.cons h (sort-Perm hs))
