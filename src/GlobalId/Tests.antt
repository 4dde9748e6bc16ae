-- ===== src/GlobalId/Tests.antt =====
-- Runs of both generators.
use jubatus.Base.{ℕ, suc, ◌≡◌, refl, [], ◌∷◌, none, some, get_elem?, ap, sym}
use jubatus.Base.Text.{codes, text_eq}
use jubatus.GlobalId.{generate, generate_all, Generator, set_ls, lift_net}
use jubatus.GlobalId.Distinct.{Versions}
use jubatus.LockService.{LockService}
use jubatus.Samples.Memory.{Memory, memory_service}

run : (generate_all 3 18446744073709551615).0 ≡ 18446744073709551615 ∷ 0 ∷ 1 ∷ []
unfolding generate_all generate
run = refl

first : get_elem? (generate_all 3 18446744073709551615).0 0 ≡ some 18446744073709551615
unfolding generate_all generate
first = refl

last : get_elem? (generate_all 3 18446744073709551615).0 2 ≡ some 1
unfolding generate_all generate
last = refl

-- The service in memory, whose versions count from one.
abbrev counting : LockService Memory
counting = record memory_service {
  create_id = λ p n s. (some (suc s.versions), record s { versions = suc s.versions });
}

counted :
    (s s' : Memory) (id : ℕ)
    → counting.create_id [] 0 s ≡ (some id, s')
    → (id ≡ suc s.versions) × (s'.versions ≡ suc s.versions)
counted s s' id e =
    let here : some (suc s.versions) ≡ some id = ap (λ r. r.0) e in
    let same : suc s.versions ≡ id = cc in (sym same, sym (ap (λ r. r.1.versions) e))

abbrev counting_versions : Versions counting
counting_versions = record {
  version = λ s p. s.versions;
  create_id_some = λ p s s' id e. counted s s' id e;
}

abbrev fresh : Generator Memory
fresh = record { path = []; ls = none; net = record { nodes = []; functions = []; versions = 4 } }

abbrev ready : Generator Memory
ready = (set_ls counting (codes "/a") fresh).1

id_five :
    counting.create_id (codes "/a/id_generator") 0 ready.net
    ≡ (some 5, record ready.net { versions = 5 })
unfolding set_ls lift_net text_eq
id_five = refl
