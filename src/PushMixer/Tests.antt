-- ===== src/PushMixer/Tests.antt =====
-- Runs of the push mixer whose model is a number, and whose peers answer with scripted bytes.
use jubatus.Base.{ℕ, ◌+◌, ◌/◌, ◌≡◌, ◌≤◌, ◌<◌, refl, true, List, [], ◌∷◌, All, length}
use jubatus.Base.Comp.{type_error, Result, ok, throw}
use jubatus.Base.Int.{pos}
use jubatus.Base.Text.{Text, codes}
use jubatus.PushMixer.{
  Server, other, Response, failed, answer, Communication, Mixable, Mixer, any_error, update_members,
  skip_indices,
}
use jubatus.PushMixer.Peers.{update_members-skip_indices, Excludes, Halvings}
use jubatus.Samples.Memory.{Memory, memory_service}

abbrev peer : Server
peer = (codes "h", pos 9)

abbrev first_byte : Text → Result ℕ
first_byte [] = throw type_error
first_byte (b ∷ bs) = ok b

abbrev mixable : Mixable ℕ ℕ
mixable = record {
  unpack_object = first_byte;
  get_argument = λ m. m ∷ [];
  pull_diff = λ o m. (m + o) ∷ [];
  push_diff = λ o m. ok (m + o);
}

-- The state is the list of the texts pushed to the peers; all peers answer the same.
abbrev communication : Response → Response → Communication (List Text)
communication pulled argument = record {
  update_members = λ s. (1, s);
  servers_list = λ s. peer ∷ [];
  pull = λ she arg s. (ok (pulled ∷ []), s);
  get_pull_argument = λ she s. (ok (argument ∷ []), s);
  push = λ she diff s. (ok (answer other ∷ []), diff ∷ s);
  register_active_list = λ s. (ok tt, s);
}

abbrev fresh : Mixer (List Text) ℕ
fresh = record { counter = 7; mix_count = 0; ticktime = 0; is_obsolete = true; model = 5; net = [] }

has_error : any_error (failed ∷ []) ≡ true
unfolding any_error
has_error = refl

abbrev empty : Memory
empty = record { nodes = []; functions = []; versions = 0 }

update_members-skip_indices_example :
    let ss = (update_members memory_service (codes "t") (codes "n") peer empty).0.0 in
    Excludes peer ss
    × Halvings (length ss / 2) (skip_indices peer ss)
    × All (λ i. (0 < i) × (i ≤ length ss / 2)) (skip_indices peer ss)
update_members-skip_indices_example =
    update_members-skip_indices memory_service (codes "t") (codes "n") peer empty
