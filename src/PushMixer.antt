-- ===== src/PushMixer.antt =====
-- jubatus/server/framework/mixer/push_mixer.cpp with broadcast_mixer.hpp, random_mixer.hpp and skip_mixer.hpp: the
-- mixers that exchange differences with chosen peers. The model with its `push_mixable`, msgpack and
-- the random numbers are parameters; so is `push_communication`, an abstract class, whose
-- implementation's `update_members` is here too. The driver's mixable is taken
-- to be a push_mixable: the code does not test its cast. Each time the code asks for the time it is an argument.
pub mod Exchange
pub mod Peers
mod Tests
use jubatus.Base.{
  ℕ, zero, suc, ◌+◌, ◌/◌, ◌%◌, ◌≡◌, Bool, true, false, ◌&&◌, ◌||◌, List, [], ◌∷◌, Option, none,
  some, length, get_elem?, ◌==◌, if◌then◌else◌,
}
use jubatus.Base.Comp.{
  Error, argument_error, null_pointer, out_of_range, Result, ok, throw, Comp, bind_result, ◌>>=◌,
  ◌>>◌, pure, raise,
}
use jubatus.Base.Int.{ℤ, int_eq}
use jubatus.Base.Text.{Text, text_eq}
use jubatus.LockService.{LockService}
use jubatus.Membership.{get_all_nodes}

abbrev pub Server : Type 0
Server = Text × ℤ

abbrev pub server_eq : Server → Server → Bool
server_eq a b = text_eq a.0 b.0 && int_eq a.1 b.1

-- An object in a message: RAW bytes, or of another type.
pub data Object : Type 0 where
  raw : Text → Object
  other : Object

-- An element of `rpc_result_object::response`.
pub data Response : Type 0 where
  failed : Response
  answer : Object → Response

pub record Communication (S : Type 0) : Type 0 where
  pub update_members : S → ℕ × S
  pub servers_list : S → List Server
  pub pull : Server → Text → Comp S (List Response)
  pub get_pull_argument : Server → Comp S (List Response)
  pub push : Server → Text → Comp S (List Response)
  pub register_active_list : Comp S (Unit {0})

-- The driver with its `push_mixable` and msgpack.
pub record Mixable (Model Obj : Type 0) : Type 0 where
  pub unpack_object : Text → Result Obj
  pub get_argument : Model → Text
  pub pull_diff : Obj → Model → Text
  pub push_diff : Obj → Model → Result Model

pub record Mixer (S Model : Type 0) : Type 0 where
  pub counter : ℕ
  pub mix_count : ℕ
  pub ticktime : ℕ
  pub is_obsolete : Bool
  pub model : Model
  pub net : S

-- `std::remove` of `my_id` and `erase`.
pub remove_self : Server → List Server → List Server
remove_self me [] = []
remove_self me (s ∷ ss) = let rest = remove_self me ss in if server_eq s me then rest else s ∷ rest

-- `push_communication_impl::update_members`: the new `servers_` and its size. The listing's failure leaves none.
pub update_members : {S : Type 0} → LockService S → Text → Text → Server → S → (List Server × ℕ) × S
update_members ls type name me s =
    let r = get_all_nodes ls type name s in
    let servers = remove_self me (elim r.0 [ none ↦ [] | some nodes ↦ nodes ]) in
    ((servers, length servers), r.1)

-- `handle_communication_error`.
pub any_error : List Response → Bool
any_error [] = false
any_error (failed ∷ rs) = true
any_error (answer o ∷ rs) = any_error rs

-- `response.front()()`: there is no element, or none to read, when the call is wrong.
front : {W : Type 0} → List Response → Comp W Object
front [] w = (throw null_pointer, w)
front (failed ∷ rs) w = (throw null_pointer, w)
front (answer o ∷ rs) w = (ok o, w)

-- `filter_candidates` of the three mixers.
pub broadcast_candidates : List Server → List Server
broadcast_candidates servers = servers

pub random_candidates : (ℕ → ℕ) → List Server → List (Option Server)
random_candidates rand servers = get_elem? servers (rand (length servers)) ∷ []

-- `stride`, `stride >>= 1`, … while it is not zero.
strides : ℕ → ℕ → List ℕ
strides zero stride = []
strides (suc fuel) stride =
    let rest = strides fuel (stride / 2) in if stride == 0 then [] else stride ∷ rest

-- The position of `my_id`, or the length.
pub position : Server → List Server → ℕ
position me [] = 0
position me (s ∷ ss) = let rest = position me ss in if server_eq s me then 0 else suc rest

map_strides : List ℕ → ℕ → ℕ → List ℕ
map_strides [] myself width = []
map_strides (stride ∷ ss) myself width = (myself + stride) % width ∷ map_strides ss myself width

-- The indices of the peers that `skip_mixer` chooses.
pub skip_indices : Server → List Server → List ℕ
unfolding strides map_strides
skip_indices me servers =
    map_strides (strides (length servers) (length servers / 2)) (position me servers)
      (length servers)

module _ {S Model Obj : Type 0} (io : Communication S) (mixable : Mixable Model Obj) where
  abbrev pub remote : {A : Type 0} → Comp S A → Comp (Mixer S Model) A
  remote m w = let r = m w.net in (r.0, record w { net = r.1 })

  unpacked : Object → Comp (Mixer S Model) Obj
  unpacked other w = (throw argument_error, w)
  unpacked (raw b) w = (mixable.unpack_object b, w)

  pub pull : Object → Comp (Mixer S Model) Text
  unfolding unpacked
  pull object = do arg ← unpacked object; λ w. (ok (mixable.pull_diff arg w.model), w)

  pub get_pull_argument : Comp (Mixer S Model) Text
  get_pull_argument w = (ok (mixable.get_argument w.model), w)

  pushed : ℕ → Result Model → Comp (Mixer S Model) (Unit {0})
  pushed now (throw e) w = (throw e, w)
  pushed now (ok model) w = (ok tt, record w { model = model; counter = 0; ticktime = now })

  pub push : ℕ → Object → Comp (Mixer S Model) (Unit {0})
  unfolding pushed
  push now object = do diff ← unpacked object; λ w. pushed now (mixable.push_diff diff w.model) w

  -- `continue` when there is an error, otherwise the rest of the round with the first response.
  checked :
      List Response → (Object → Comp (Mixer S Model) (Unit {0})) → Comp (Mixer S Model) (Unit {0})
  unfolding front
  checked rs next = if any_error rs then pure tt else (front rs >>= next)

  -- The round of the loop of `mix` for one candidate.
  pub exchange : ℕ → Server → Comp (Mixer S Model) (Unit {0})
  unfolding checked
  exchange now she = do
    my_args ← get_pull_argument
    pull_result ← remote (io.pull she my_args)
    checked pull_result (λ her_diff. do
      args_result ← remote (io.get_pull_argument she)
      checked args_result (λ her_args. do
        my_diff ← pull her_args
        push_result ← remote (io.push she my_diff)
        checked push_result (λ _. push now her_diff)))

  exchange_all : ℕ → List Server → Comp (Mixer S Model) (Unit {0})
  exchange_all now [] w = (ok tt, w)
  exchange_all now (she ∷ rest) w = (exchange now she >> exchange_all now rest) w

  become_active : Comp (Mixer S Model) (Unit {0})
  become_active w =
      if w.is_obsolete
      then bind_result (remote io.register_active_list w)
          (λ _ w'. (ok tt, record w' { is_obsolete = false }))
      else (ok tt, w)

  -- After the `try` block: an exception in it has ended the call.
  after_rounds : Result (Unit {0}) × Mixer S Model → Result (Unit {0}) × Mixer S Model
  unfolding become_active
  after_rounds (ok u, w) =
      bind_result (become_active w)
        (λ _ w'. (ok tt, record w' { mix_count = (w'.mix_count + 1) % 0x100000000 }))
  after_rounds (throw null_pointer, w) = (throw null_pointer, w)
  after_rounds (throw e, w) = (ok tt, w)

  -- The two branches on `servers_size`.
  mix_peers : ℕ → (List Server → List Server) → ℕ → Comp (Mixer S Model) (Unit {0})
  unfolding exchange_all after_rounds
  mix_peers now filter_candidates zero w = become_active w
  mix_peers now filter_candidates (suc n) w =
      after_rounds (exchange_all now (filter_candidates (io.servers_list w.net)) w)

  pub mix : ℕ → (List Server → List Server) → Comp (Mixer S Model) (Unit {0})
  unfolding mix_peers
  mix now filter_candidates w =
      let r = io.update_members w.net in
      mix_peers now filter_candidates r.0 (record w { net = r.1 })
