-- ===== src/Zk.antt =====
-- jubatus/server/common/zk.cpp, the class `zk`: the lock service over the calls of the ZooKeeper C library, which
-- are parameters with their return codes. The interface takes `read`, which Payload models, as one more.
pub mod Refines
pub mod Payload
pub mod Session
pub mod Watchers
mod Tests
use jubatus.Base.{
  ℕ, zero, suc, ◌+◌, ◌*◌, ◌%◌, ◌^◌, ◌≡◌, Bool, true, false, not, ◌&&◌, ◌||◌, List, [], ◌∷◌, ◌++◌,
  Option, none, some, if◌then◌else◌,
}
use jubatus.Base.Text.{Text}
use jubatus.Cht.{sort}
use jubatus.LockService.{LockService, Cleanup}
use Prim.Native.Nat.{bit_or}

-- ZOK, ZNODEEXISTS, ZNONODE and every other return code.
pub data ReturnCode : Type 0 where
  zok znodeexists znonode zother : ReturnCode

-- `zoo_create` with the two sets of flags that are used, `zoo_set`, `zoo_set2` (with the version it reports),
-- `zoo_delete`, `zoo_exists`, `zoo_get_children`, `zoo_wexists` with the delete watcher.
pub record Library (S : Type 0) : Type 0 where
  pub zoo_create : Text → Text → Bool → S → ReturnCode × S
  pub zoo_create_seq : Text → S → (ReturnCode × Text) × S
  pub zoo_set : Text → Text → S → ReturnCode × S
  pub zoo_set2 : Text → S → (ReturnCode × ℕ) × S
  pub zoo_delete : Text → S → ReturnCode × S
  pub zoo_exists : Text → S → ReturnCode × S
  pub zoo_get_children : Text → S → (ReturnCode × List Text) × S
  pub zoo_wexists : Text → ℕ → S → ReturnCode × S

pub record Handle (S : Type 0) : Type 0 where
  pub cleanups : List Cleanup
  pub net : S

is_zok : ReturnCode → Bool
is_zok zok = true
is_zok znodeexists = false
is_zok znonode = false
is_zok zother = false

-- Whether `create` has succeeded: a node that is not ephemeral may be there already.
created : Bool → ReturnCode → Bool
unfolding is_zok
created true rc = is_zok rc
created false zok = true
created false znodeexists = true
created false znonode = false
created false zother = false

removed : ReturnCode → Bool
removed zok = true
removed znonode = true
removed znodeexists = false
removed zother = false

-- The `out` of `list_`, which is added to and sorted, and the return value.
listed : ReturnCode → List Text → List Text → Bool × List Text
listed zok names out = (true, sort (out ++ names))
listed znonode names out = (true, out)
listed znodeexists names out = (false, out)
listed zother names out = (false, out)

head_listed : ReturnCode → List Text → Text → Bool × Text
head_listed zok [] out = (true, out)
head_listed zok (c ∷ cs) out = (true, c)
head_listed znodeexists names out = (false, out)
head_listed znonode names out = (false, out)
head_listed zother names out = (false, out)

some_if : {A : Type 0} → Bool → A → Option A
some_if true a = some a
some_if false a = none

module _ {S : Type 0} (lib : Library S) where
  pub create : Text → Text → Bool → Handle S → Bool × Handle S
  unfolding created
  create path payload ephemeral z =
      let r = lib.zoo_create path payload ephemeral z.net in
      (created ephemeral r.0, record z { net = r.1 })

  pub set : Text → Text → Handle S → Bool × Handle S
  unfolding is_zok
  set path payload z =
      let r = lib.zoo_set path payload z.net in (is_zok r.0, record z { net = r.1 })

  -- `none` is the return value `false`, with the file name cleared.
  pub create_seq : Text → Handle S → Option Text × Handle S
  unfolding is_zok some_if
  create_seq path z =
      let r = lib.zoo_create_seq path z.net in
      (some_if (is_zok r.0.0) r.0.1, record z { net = r.1 })

  -- The version counts from zero and is a non-negative int here.
  pub create_id : Text → ℕ → Handle S → Option ℕ × Handle S
  unfolding is_zok some_if
  create_id path prefix z =
      let r = lib.zoo_set2 path z.net in
      (some_if (is_zok r.0.0) (bit_or ((prefix * 2 ^ 32) % 2 ^ 64) r.0.1), record z { net = r.1 })

  pub remove : Text → Handle S → Bool × Handle S
  unfolding removed
  remove path z = let r = lib.zoo_delete path z.net in (removed r.0, record z { net = r.1 })

  pub exists : Text → Handle S → Bool × Handle S
  unfolding is_zok
  exists path z = let r = lib.zoo_exists path z.net in (is_zok r.0, record z { net = r.1 })

  pub list : Text → List Text → Handle S → (Bool × List Text) × Handle S
  unfolding listed
  list path out z =
      let r = lib.zoo_get_children path z.net in (listed r.0.0 r.0.1 out, record z { net = r.1 })

  pub hd_list : Text → Text → Handle S → (Bool × Text) × Handle S
  unfolding head_listed
  hd_list path out z =
      let r = lib.zoo_get_children path z.net in
      (head_listed r.0.0 r.0.1 out, record z { net = r.1 })

  pub bind_delete_watcher : Text → ℕ → Handle S → Bool × Handle S
  unfolding is_zok
  bind_delete_watcher path f z =
      let r = lib.zoo_wexists path f z.net in (is_zok r.0, record z { net = r.1 })

  pub push_cleanup : Cleanup → Handle S → Handle S
  push_cleanup f z = record z { cleanups = z.cleanups ++ (f ∷ []) }

  -- The class as the interface: the out parameter of `list` is empty, and `read` is given.
  pub zk_service : (Text → Handle S → Option Text × Handle S) → LockService (Handle S)
  unfolding create remove create_seq create_id list some_if bind_delete_watcher push_cleanup
  zk_service read = record {
    create = create;
    remove = remove;
    create_seq = create_seq;
    create_id = create_id;
    list = λ path z. let r = list path [] z in (some_if r.0.0 r.0.1, r.1);
    read = read;
    bind_delete_watcher = bind_delete_watcher;
    push_cleanup = push_cleanup;
  }
