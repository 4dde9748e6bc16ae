-- ===== src/Proxy/Task/Order.antt =====
-- The order in which the servers answer, and the reducer `all_and`.
use jubatus.Base.{
  ℕ, suc, ◌≡◌, ℕ_discrete, ◌≢◌, ◌<◌, ◌↔◌, refl, sym, ap, ◌∙◌, Bool, true, false, List, [], ◌∷◌,
  foldl, Option, none, some, length, All, Perm, arith,
}
use jubatus.Aggregators.{all_and}
use jubatus.RpcMclient.{Host, returned, raised}
use jubatus.Proxy.Task.{result, async_task, call_apply, aggregate, reduce_with}
use jubatus.Proxy.Task.Answers.{Call, values, run, answers_lem}
use mathlib.Core.List.{foldr}
use mathlib.Core.List.Perm

nat_set : IsSet ℕ
nat_set = hlevel ℕ_discrete

length-foldr : {A : Type 0} (xs : List A) → length xs ≡ foldr (λ _. suc) 0 xs
length-foldr [] = refl
length-foldr (x ∷ xs) = ap suc (length-foldr xs)

length-perm : {A : Type 0} (xs ys : List A) → Perm xs ys → length xs ≡ length ys
length-perm xs ys p =
    length-foldr xs ∙ Perm.foldr-eq nat_set (λ _. suc) (λ a b n. refl) p 0 ∙ sym (length-foldr ys)

module _ {R : Type 0} (r_set : IsSet R) (f : R → R → R) (f_comm : (a b : R) → f a b ≡ f b a)
    (f_assoc : (a b c : R) → f (f a b) c ≡ f a (f b c)) where
  -- The fold from the right that also reads which calls returned.
  combine : R → Option R → Option R
  combine a none = some a
  combine a (some b) = some (f a b)

  combine_call : Call R → Option R → Option R
  unfolding combine
  combine_call (returned r, i) o = combine r o
  combine_call (raised e, i) o = o

  combine_swap : (a b : R) (o : Option R) → combine a (combine b o) ≡ combine b (combine a o)
  unfolding combine
  combine_swap a b none = ap some (f_comm a b)
  combine_swap a b (some c) =
      ap some (sym (f_assoc a b c) ∙ ap (λ x. f x c) (f_comm a b) ∙ f_assoc b a c)

  combine_call_swap :
      (c d : Call R) (o : Option R)
      → combine_call c (combine_call d o) ≡ combine_call d (combine_call c o)
  unfolding combine_call
  combine_call_swap (returned r, i) (returned s, j) o = combine_swap r s o
  combine_call_swap (returned r, i) (raised e, j) o = refl
  combine_call_swap (raised e, i) (returned s, j) o = refl
  combine_call_swap (raised e, i) (raised x, j) o = refl

  combine-foldl : (a b : R) (rs : List R) → f a (foldl f b rs) ≡ foldl f (f a b) rs
  combine-foldl a b [] = refl
  combine-foldl a b (r ∷ rs) =
      combine-foldl a (f b r) rs ∙ ap (λ x. foldl f x rs) (sym (f_assoc a b r))

  unwrap : R → Option R → R
  unwrap default none = default
  unwrap default (some r) = r

  foldr-values :
      (calls : List (Call R)) → foldr combine_call none calls ≡ foldr combine none (values calls)
  unfolding combine_call
  foldr-values [] = refl
  foldr-values ((returned r, i) ∷ calls) = ap (combine r) (foldr-values calls)
  foldr-values ((raised e, i) ∷ calls) = foldr-values calls

  foldr-foldl : (r : R) (rs : List R) → foldr combine none (r ∷ rs) ≡ some (foldl f r rs)
  unfolding combine
  foldr-foldl r [] = refl
  foldr-foldl r (s ∷ rs) = rw (foldr-foldl s rs) (ap some (combine-foldl r s rs))

  aggregate-foldr :
      (default : R) (rs : List R)
      → aggregate default (some f) rs ≡ unwrap default (foldr combine none rs)
  unfolding aggregate reduce_with unwrap
  aggregate-foldr default [] = refl
  aggregate-foldr default (r ∷ rs) = rw (foldr-foldl r rs) refl

  aggregate-values :
      (default : R) (calls : List (Call R))
      → aggregate default (some f) (values calls) ≡ unwrap default (foldr combine_call none calls)
  aggregate-values default calls = rw (foldr-values calls) (aggregate-foldr default (values calls))

  Option-set : IsSet (Option R)
  Option-set = hlevel r_set

  aggregate-perm :
      (default : R) (calls others : List (Call R))
      → Perm calls others
      → aggregate default (some f) (values calls) ≡ aggregate default (some f) (values others)
  aggregate-perm default calls others p =
      aggregate-values default calls
      ∙ ap (unwrap default) (Perm.foldr-eq Option-set combine_call combine_call_swap p none)
      ∙ sym (aggregate-values default others)

  -- With a reducer that is commutative and associative, the order in which the servers answer does not
  -- matter: when all of at least one server have answered before a timeout, the answers sent
  -- for the request are the same in whichever order the callbacks have run.
  pub arrival_order :
      (default : R) (timeout_sec : ℕ) (hosts : List Host) (calls others : List (Call R))
      → 0 < length hosts
      → length calls ≡ length hosts
      → Perm calls others
      → (run default (some f) calls (call_apply timeout_sec (async_task hosts))).answers
        ≡ (run default (some f) others (call_apply timeout_sec (async_task hosts))).answers
  arrival_order default timeout_sec hosts calls others h e p =
      let one = ((answers_lem default (some f) timeout_sec hosts calls).0 h e).0 in
      let other =
        ((answers_lem default (some f) timeout_sec hosts others).0 h
          (sym (length-perm calls others p) ∙ e)).0 in
      one ∙ ap (λ r. result r ∷ []) (aggregate-perm default calls others p) ∙ sym other

false_stays : (bs : List Bool) → foldl all_and false bs ≡ false
false_stays [] = refl
false_stays (b ∷ bs) = false_stays bs

-- The fold is true exactly when all of its parts are.
foldl_and :
    (b : Bool) (bs : List Bool)
    → (foldl all_and b bs ≡ true) ↔ ((b ≡ true) × All (λ x. x ≡ true) bs)
foldl_and b [] = (λ e. (e, tt), λ h. h.0)
foldl_and true (c ∷ bs) = let ih = foldl_and c bs in (λ e. (refl, ih.0 e), λ h. ih.1 h.1)
foldl_and false (c ∷ bs) =
    (λ e. absurd (ground (arith, false_stays bs)), λ h. absurd (ground arith))

all_and-aggregate :
    (bs : List Bool)
    → (result (aggregate false (some all_and) bs) ∷ [] ≡ result true ∷ [])
      ↔ ((bs ≢ []) × All (λ b. b ≡ true) bs)
unfolding aggregate reduce_with
all_and-aggregate [] = (λ e. absurd (ground arith), λ h. absurd (h.0 refl))
all_and-aggregate (b ∷ bs) = (
  λ e. ((λ n. ground arith), (foldl_and b bs).0 (ground arith)),
  λ h. ap (λ r. result r ∷ []) ((foldl_and b bs).1 h.1),
)

-- A broadcast that is reduced by `all_and` with the default value false, as save and load are: once all
-- servers, one or more, have answered before a timeout, the answer is true exactly when at least one
-- call returned and every call that returned gave true. A server whose call failed does not count.
pub all_and_lem :
    (timeout_sec : ℕ) (hosts : List Host) (calls : List (Call Bool))
    → 0 < length hosts
    → length calls ≡ length hosts
    → ((run false (some all_and) calls (call_apply timeout_sec (async_task hosts))).answers
        ≡ result true ∷ [])
      ↔ ((values calls ≢ []) × All (λ b. b ≡ true) (values calls))
all_and_lem timeout_sec hosts calls h e =
    rw ((answers_lem false (some all_and) timeout_sec hosts calls).0 h e).0
      (all_and-aggregate (values calls))
