-- ===== src/PushMixer/Peers.antt =====
-- Which peers a push mixer exchanges with: `update_members` and the skip mixer's `filter_candidates`.
use jubatus.Base.{
  ℕ, zero, suc, ◌+◌, ◌/◌, ◌%◌, ◌≤◌, ◌<◌, ◌≡◌, refl, ◌∙◌, ap, false, List, [], ◌∷◌, All, none, some,
  length, Bool-cases, inl, inr, ◌==◌, arith,
}
use jubatus.Base.Text.{Text}
use jubatus.LockService.{LockService}
use jubatus.Membership.{get_all_nodes}
use jubatus.PushMixer.{
  Server, server_eq, remove_self, update_members, strides, map_strides, position, skip_indices,
}
use native.Mathlib.Nat.{mod-eq_of_lt, add-mod_left}

-- No server of the list is `me`.
abbrev pub Excludes : Server → List Server → Type 0
Excludes me ss = All (λ s. server_eq s me ≡ false) ss

remove_self-Excludes : (me : Server) (ss : List Server) → Excludes me (remove_self me ss)
unfolding remove_self
remove_self-Excludes me [] = tt
remove_self-Excludes me (s ∷ ss) = elim (Bool-cases (server_eq s me)) [
  | inl e ↦ rw e (remove_self-Excludes me ss)
  | inr e ↦ rw e (e, remove_self-Excludes me ss)
]

position-Excludes : (me : Server) (ss : List Server) → Excludes me ss → position me ss ≡ length ss
unfolding position
position-Excludes me [] a = refl
position-Excludes me (s ∷ ss) a = rw (a.0) (ap suc (position-Excludes me ss a.1))

-- The halvings of `stride`, down to one.
abbrev pub Halvings : ℕ → List ℕ → Type 0
Halvings stride [] = stride ≡ 0
Halvings stride (x ∷ xs) = (x ≡ stride) × (0 < x) × Halvings (stride / 2) xs

strides-Halvings : (fuel stride : ℕ) → stride ≤ fuel → Halvings stride (strides fuel stride)
unfolding strides
strides-Halvings zero stride h = omega arith
strides-Halvings (suc fuel) stride h = elim (Bool-cases (stride == 0)) [
  | inl e ↦ rw e (ground arith)
  | inr e ↦ rw e (refl, ground arith, strides-Halvings fuel (stride / 2) (ground arith))
]

map_strides_end :
    (width stride : ℕ) (xs : List ℕ)
    → Halvings stride xs
    → stride < width
    → map_strides xs width width ≡ xs
unfolding map_strides
map_strides_end width stride [] h lt = refl
map_strides_end width stride (x ∷ xs) h lt =
    let small : x < width = rw (h.0) lt in
    let here : (width + x) % width ≡ x = add-mod_left width x ∙ mod-eq_of_lt small in
    rw (here, map_strides_end width (stride / 2) xs h.2 (omega arith)) refl

skip_indices-Halvings :
    (me : Server) (ss : List Server)
    → Excludes me ss
    → Halvings (length ss / 2) (skip_indices me ss)
unfolding skip_indices
skip_indices-Halvings me [] a = refl
skip_indices-Halvings me (s ∷ ss) a =
    let h = strides-Halvings (length (s ∷ ss)) (length (s ∷ ss) / 2) (omega arith) in
    rw
      (
        position-Excludes me (s ∷ ss) a,
        map_strides_end (length (s ∷ ss)) (length (s ∷ ss) / 2) _ h (omega arith),
      )
      h

All-le :
    (m n : ℕ) (xs : List ℕ)
    → m ≤ n
    → All (λ i. (0 < i) × (i ≤ m)) xs
    → All (λ i. (0 < i) × (i ≤ n)) xs
All-le m n [] h a = tt
All-le m n (x ∷ xs) h a = ((a.0.0, omega (arith, a.0.1)), All-le m n xs h a.1)

Halvings-positive :
    (stride : ℕ) (xs : List ℕ) → Halvings stride xs → All (λ i. (0 < i) × (i ≤ stride)) xs
Halvings-positive stride [] h = tt
Halvings-positive stride (x ∷ xs) h = (
  (h.1, ground (arith, h.0)),
  All-le (stride / 2) stride xs (omega arith) (Halvings-positive (stride / 2) xs h.2),
)

-- After `update_members` the own server is not in the list, whatever the lock service listed, so `skip_mixer`
-- does not find itself there and chooses by halving: the index half the number of peers (rounded
-- down), half of that, and so on down to one. The first peer is thus never chosen, every index is in
-- range, and of a single peer none is chosen.
pub update_members-skip_indices :
    {S : Type 0} (ls : LockService S) (type name : Text) (me : Server) (s : S)
    → let ss = (update_members ls type name me s).0.0 in
      Excludes me ss
      × Halvings (length ss / 2) (skip_indices me ss)
      × All (λ i. (0 < i) × (i ≤ length ss / 2)) (skip_indices me ss)
unfolding update_members
update_members-skip_indices ls type name me s =
    let nodes : List Server = elim (get_all_nodes ls type name s).0 [
      | none ↦ []
      | some found ↦ found
    ] in
    let out = remove_self-Excludes me nodes in
    let halves = skip_indices-Halvings me (remove_self me nodes) out in
    (out, halves, Halvings-positive (length (remove_self me nodes) / 2) _ halves)
