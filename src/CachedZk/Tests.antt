-- ===== src/CachedZk/Tests.antt =====
-- Runs of the cache over a service that answers every call alike and counts the calls.
use jubatus.Base.{ℕ, suc, ◌≡◌, ◌≢◌, refl, true, [], ◌∷◌, none, some}
use jubatus.Base.Assoc.{lookup}
use jubatus.Base.Text.{Text, codes, text_eq, text_lt}
use jubatus.CachedZk.{
  Zoo, Cache, child_event, children_set, insert_all, set_insert, list, update_cache,
}
use jubatus.CachedZk.Coherence.{child_event-list}

abbrev zoo : Zoo ℕ
zoo = record {
  wget_children = λ path s. (some (codes "b" ∷ codes "a" ∷ codes "b" ∷ []), suc s);
  wget = λ path s. (some (codes "x"), suc s);
}

abbrev empty : Cache ℕ
empty = record { list_cache = []; znode_cache = []; net = 0 }

sorted : children_set (some (codes "b" ∷ codes "a" ∷ codes "b" ∷ [])) ≡ codes "a" ∷ codes "b" ∷ []
unfolding children_set insert_all set_insert text_eq text_lt
sorted = refl

child_event-list_example :
    let c' = update_cache zoo child_event (some (codes "/p")) empty in
    (list zoo (codes "/p") c'
      ≡ ((true, children_set (some (codes "b" ∷ codes "a" ∷ codes "b" ∷ []))), c'))
    × (c'.net ≡ 1)
    × ((q : Text) → q ≢ codes "/p" → lookup q c'.list_cache ≡ none)
child_event-list_example = child_event-list zoo (codes "/p") empty
