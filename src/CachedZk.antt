-- ===== src/CachedZk.antt =====
-- jubatus/server/common/cached_zk.cpp: the lock service that caches listings and payloads. The calls of the
-- ZooKeeper library, which also set a watcher, are parameters; the mutex makes each method one step.
pub mod Coherence
mod Tests
use jubatus.Base.{◌≡◌, Bool, true, false, List, [], ◌∷◌, Option, none, some, if◌then◌else◌}
use jubatus.Base.Assoc.{lookup, put, erase}
use jubatus.Base.Text.{Text, text_lt, text_eq}

-- `zoo_wget_children` and `zoo_wget`: `none` when the return code is not ZOK. A payload has at most 1024 bytes.
pub record Zoo (S : Type 0) : Type 0 where
  pub wget_children : Text → S → Option (List Text) × S
  pub wget : Text → S → Option Text × S

pub record Cache (S : Type 0) : Type 0 where
  pub list_cache : List (Text × List Text)
  pub znode_cache : List (Text × Text)
  pub net : S

-- `std::set<string>`, in its order.
pub set_insert : Text → List Text → List Text
set_insert x [] = x ∷ []
set_insert x (y ∷ ys) =
    let rest = set_insert x ys in
    if text_eq x y then y ∷ ys else (if text_lt x y then x ∷ y ∷ ys else y ∷ rest)

insert_all : List Text → List Text → List Text
insert_all [] set = set
insert_all (x ∷ xs) set = insert_all xs (set_insert x set)

-- The set that `list_` fills: it is cleared first, so a failure leaves it empty.
pub children_set : Option (List Text) → List Text
unfolding insert_all
children_set none = []
children_set (some names) = insert_all names []

or_empty : Option (List Text) → List Text
or_empty none = []
or_empty (some set) = set

first : List Text → Text
first [] = []
first (x ∷ xs) = x

-- The watcher's events: ZOO_CHILD_EVENT, ZOO_DELETED_EVENT, ZOO_NOTWATCHING_EVENT,
-- ZOO_SESSION_EVENT, ZOO_CREATED_EVENT, ZOO_CHANGED_EVENT.
pub data Event : Type 0 where
  child_event deleted_event not_watching_event session_event created_event changed_event : Event

module _ {S : Type 0} (zoo : Zoo S) where
  -- `list_(path, list_cache_[path])`.
  fetch : Text → Cache S → Cache S
  fetch path c =
      let r = zoo.wget_children path c.net in
      record c { list_cache = put path (children_set r.0) c.list_cache; net = r.1 }

  list_from : Option (List Text) → Text → Cache S → (Bool × List Text) × Cache S
  unfolding fetch or_empty
  list_from (some set) path c = ((true, set), c)
  list_from none path c =
      let c' = fetch path c in ((true, or_empty (lookup path c'.list_cache)), c')

  pub list : Text → Cache S → (Bool × List Text) × Cache S
  unfolding list_from
  list path c = list_from (lookup path c.list_cache) path c

  -- `list_cache_[path]` makes an empty set when there is none.
  pub hd_list : Text → Cache S → (Bool × Text) × Cache S
  unfolding first or_empty
  hd_list path c =
      let set = or_empty (lookup path c.list_cache) in
      ((true, first set), record c { list_cache = put path set c.list_cache })

  pub reload_cache : Text → Cache S → Cache S
  unfolding fetch
  reload_cache path c = fetch path c

  -- `none` is the null pointer.
  pub clear_cache : Option Text → Cache S → Cache S
  clear_cache none c = record c { list_cache = []; znode_cache = [] }
  clear_cache (some path) c = record c {
    list_cache = erase path c.list_cache;
    znode_cache = erase path c.znode_cache;
  }

  fetched_read : Option Text → Text → Text → Cache S → (Bool × Text) × Cache S
  fetched_read (some payload) path out c =
      ((true, payload), record c { znode_cache = put path payload c.znode_cache })
  fetched_read none path out c = ((true, out), c)

  read_from : Option Text → Text → Text → Cache S → (Bool × Text) × Cache S
  unfolding fetched_read
  read_from (some payload) path out c = ((true, payload), c)
  read_from none path out c =
      let r = zoo.wget path c.net in fetched_read r.0 path out (record c { net = r.1 })

  -- `out` is what the caller's variable holds before the call.
  pub read : Text → Text → Cache S → (Bool × Text) × Cache S
  unfolding read_from
  read path out c = read_from (lookup path c.znode_cache) path out c

  reload_at : Option Text → Cache S → Cache S
  reload_at none c = reload_cache [] c
  reload_at (some path) c = reload_cache path c

  pub update_cache : Event → Option Text → Cache S → Cache S
  unfolding reload_at
  update_cache child_event path c = reload_at path c
  update_cache deleted_event path c = clear_cache path c
  update_cache not_watching_event path c = clear_cache path c
  update_cache session_event path c = clear_cache path c
  update_cache created_event path c = c
  update_cache changed_event path c = c
