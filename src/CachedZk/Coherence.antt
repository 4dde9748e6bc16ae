-- ===== src/CachedZk/Coherence.antt =====
-- The cache of cached_zk.cpp against the ZooKeeper calls: hits, events, failures.
use jubatus.Base.{◌≡◌, ◌≢◌, refl, ◌∙◌, sym, ap, true, List, [], Option, none, some}
use jubatus.Base.Assoc.{
  lookup, put, erase, lookup-put, lookup-put_ne, lookup-erase, lookup-erase_ne,
}
use jubatus.Base.Text.{Text}
use jubatus.CachedZk.{
  Zoo, Cache, child_event, deleted_event, changed_event, children_set, list, list_from, hd_list,
  fetch, or_empty, first, reload_cache, clear_cache, reload_at, update_cache, read, read_from,
  fetched_read,
}

module _ {S : Type 0} (zoo : Zoo S) where
  list_hit :
      (path : Text) (set : List Text) (c : Cache S)
      → lookup path c.list_cache ≡ some set
      → list zoo path c ≡ ((true, set), c)
  unfolding list list_from
  list_hit path set c h = rw h refl

  list_miss :
      (path : Text) (c : Cache S)
      → lookup path c.list_cache ≡ none
      → list zoo path c ≡ (
        (true, children_set (zoo.wget_children path c.net).0),
        record c {
          list_cache = put path (children_set (zoo.wget_children path c.net).0) c.list_cache;
          net = (zoo.wget_children path c.net).1;
        },
      )
  unfolding list list_from fetch or_empty
  list_miss path c h =
      rw (h, lookup-put path (children_set (zoo.wget_children path c.net).0) c.list_cache) refl

  list_again_from :
      (o : Option (List Text)) (path : Text) (c : Cache S)
      → lookup path c.list_cache ≡ o
      → list zoo path (list zoo path c).1 ≡ list zoo path c
  list_again_from (some set) path c h = ap (λ r. list zoo path r.1) (list_hit path set c h)
  list_again_from none path c h =
      let set = children_set (zoo.wget_children path c.net).0 in
      let c' = record c {
        list_cache = put path set c.list_cache;
        net = (zoo.wget_children path c.net).1;
      } in
      let miss = list_miss path c h in
      ap (λ r. list zoo path r.1) miss
      ∙ list_hit path set c' (lookup-put path set c.list_cache)
      ∙ sym miss

  -- A second `list` of a path gives what the first gave and asks the service nothing; when the first one
  -- found the path in the cache, neither did it.
  pub list_again : (path : Text) (c : Cache S) → list zoo path (list zoo path c).1 ≡ list zoo path c
  list_again path c = list_again_from (lookup path c.list_cache) path c refl

  -- After the watcher's event for the children of a path, `list` gives the names that the service gives at
  -- the event, in order and without repetitions, or none when that call fails, and asks it
  -- nothing more; the lists kept for other paths are as before.
  pub child_event-list :
      (path : Text) (c : Cache S)
      → let c' = update_cache zoo child_event (some path) c in
        (list zoo path c' ≡ ((true, children_set (zoo.wget_children path c.net).0), c'))
        × (c'.net ≡ (zoo.wget_children path c.net).1)
        × ((q : Text) → q ≢ path → lookup q c'.list_cache ≡ lookup q c.list_cache)
  unfolding update_cache reload_at reload_cache fetch
  child_event-list path c =
      let set = children_set (zoo.wget_children path c.net).0 in
      (
        list_hit path set
            (record c {
              list_cache = put path set c.list_cache;
              net = (zoo.wget_children path c.net).1;
            })
            (lookup-put path set c.list_cache),
        refl,
        λ q h. lookup-put_ne path q set c.list_cache h,
      )

  -- After the event for a deleted path, `list` asks the service again; the lists kept for other paths are
  -- as before.
  pub deleted_event-list :
      (path : Text) (c : Cache S)
      → let c' = update_cache zoo deleted_event (some path) c in
        ((list zoo path c').0 ≡ (true, children_set (zoo.wget_children path c.net).0))
        × ((list zoo path c').1.net ≡ (zoo.wget_children path c.net).1)
        × ((q : Text) → q ≢ path → lookup q c'.list_cache ≡ lookup q c.list_cache)
  unfolding update_cache clear_cache
  deleted_event-list path c =
      let c' = record c {
        list_cache = erase path c.list_cache;
        znode_cache = erase path c.znode_cache;
      } in
      let miss = list_miss path c' (lookup-erase path c.list_cache) in
      (ap (λ r. r.0) miss, ap (λ r. r.1.net) miss, λ q h. lookup-erase_ne path q c.list_cache h)

  -- `hd_list` of a path whose children are not cached makes an empty entry: it gives an empty name, and from
  -- then on `list` of that path gives no names and asks the service nothing.
  pub hd_list-list :
      (path : Text) (c : Cache S)
      → lookup path c.list_cache ≡ none
      → let r = hd_list zoo path c in
        (r.0 ≡ (true, [])) × (list zoo path r.1 ≡ ((true, []), r.1)) × (r.1.net ≡ c.net)
  unfolding hd_list or_empty first
  hd_list-list path c h = rw h (
    refl,
    list_hit path [] (record c { list_cache = put path [] c.list_cache })
        (lookup-put path [] c.list_cache),
    refl,
  )

  -- A payload that was read and found is read again from the cache, with the service asked nothing, and a
  -- change of the node changes nothing about that: the changed-event is ignored. A read that fails
  -- leaves the caller's variable as it was, yet reports success.
  pub read_again :
      (path out out' : Text) (c : Cache S)
      → lookup path c.znode_cache ≡ none
      → ((payload : Text) (s : S)
          → zoo.wget path c.net ≡ (some payload, s)
          → let r = read zoo path out c in
            (r.0 ≡ (true, payload))
            × (read zoo path out' (update_cache zoo changed_event (some path) r.1)
                ≡ ((true, payload), r.1)))
        × ((s : S)
            → zoo.wget path c.net ≡ (none, s)
            → read zoo path out c ≡ ((true, out), record c { net = s }))
  unfolding read read_from fetched_read update_cache
  read_again path out out' c h = (
    λ payload s e. rw (h, e) (refl, rw (lookup-put path payload c.znode_cache) refl),
    λ s e. rw (h, e) refl,
  )
